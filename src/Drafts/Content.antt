-- ===== src/Drafts/Content.antt =====
-- admin/draft/draft-content.service.ts: the modules, lessons and assessments of a draft. A write reads
-- and changes the rows of the draft after the lock, in one transaction.
pub mod Lesson
pub mod Assessment
pub mod Reorder
pub mod Numbering
mod Tests
use aivirteach_server.Common.{
  ℕ, suc, ◌+◌, Bool, true, false, ◌&&◌, ◌||◌, not, String, Option, none, some, List, [], ◌∷◌, ◌++◌,
  if◌then◌else◌, ◌==◌, ltb, str_eq, or_default, any, all, map, length, keep, find_first,
  update_rows, delete_rows, order_rows, includes,
}
use aivirteach_server.Process.{
  HttpError, Outcome, committed, aborted, not_found, conflict, unique_violation, bad_request,
  unprocessable, pure, fail, ◌>>=◌, ◌>>◌, query, transaction,
}
use aivirteach_server.Drafts.{
  LessonAssessment, DraftLesson, DraftModule, DraftVersion, DraftAction, create_module_action,
  update_module_action, delete_module_action, create_lesson_action, update_lesson_action,
  delete_lesson_action, reorder_action, create_assessment_action, update_assessment_action,
  DraftDatabase, DraftTask, DraftTransaction, then_do, has_id, require_draft_ref,
  require_unpublished_version, record_event, update_version, is_module_before, with_lessons,
}
use aivirteach_server.Drafts.Course.{summary}
use aivirteach_server.Drafts.Placed.{
  Placed, RowWrite, each, position_offset, update_row, lift, lift_row, lift_where, close_gap,
  last_position, append_row,
}

-- the rows that belong to the draft, and the next id
pub record Content : Type 0 where
  pub modules : List DraftModule
  pub lessons : List DraftLesson
  pub next_row : ℕ

abbrev pub ContentWrite : Type 0 → Type 0
ContentWrite A = Content → Outcome Content A

abbrev pub module_rows : Placed DraftModule
module_rows = record {
  id = λ m. m.id;
  parent = λ m. 0;
  position = λ m. m.position;
  put = λ n m. record m { position = n };
  other = λ a b. false;
}

-- `@@unique([moduleId, position])` and `@@unique([moduleId, contentId])`
abbrev pub lesson_rows : Placed DraftLesson
lesson_rows = record {
  id = λ l. l.id;
  parent = λ l. l.module_id;
  position = λ l. l.position;
  put = λ n l. record l { position = n };
  other = λ a b. b.module_id == a.module_id && str_eq b.content_id a.content_id;
}

abbrev pub modules_written :
    Content → Outcome (List DraftModule) (Unit {0}) → Outcome Content (Unit {0})
modules_written c (committed u ms) = committed tt (record c { modules = ms })
modules_written c (aborted e) = aborted e

abbrev pub in_modules : RowWrite DraftModule → ContentWrite (Unit {0})
in_modules t c = modules_written c (t c.modules)

abbrev pub lessons_written :
    Content → Outcome (List DraftLesson) (Unit {0}) → Outcome Content (Unit {0})
lessons_written c (committed u ls) = committed tt (record c { lessons = ls })
lessons_written c (aborted e) = aborted e

abbrev pub in_lessons : RowWrite DraftLesson → ContentWrite (Unit {0})
in_lessons t c = lessons_written c (t c.lessons)

abbrev pub content_written :
    ℕ → DraftDatabase → Outcome Content (Unit {0}) → Outcome DraftDatabase (Unit {0})
content_written id w (committed u c) =
    committed tt
      (record (update_version id (λ v. record v { modules = c.modules; lessons = c.lessons }) w) {
        next_row = c.next_row;
      })
content_written id w (aborted e) = aborted e

abbrev pub write_found :
    ℕ
    → ContentWrite (Unit {0})
    → DraftDatabase
    → Option DraftVersion
    → Outcome DraftDatabase (Unit {0})
write_found id t w none = aborted not_found
write_found id t w (some v) =
    content_written id w
      (t (record { modules = v.modules; lessons = v.lessons; next_row = w.next_row }))

abbrev pub write_content : ℕ → ContentWrite (Unit {0}) → DraftTransaction (Unit {0})
write_content id t w = write_found id t w (find_first (has_id id) w.versions)

unfoldable pub mutate :
    DraftAction → String → String → ℕ → ContentWrite (Unit {0}) → DraftTransaction DraftVersion
mutate action slug operator id t = then_do (require_unpublished_version id) (λ u.
    then_do (write_content id t) (λ u.
      then_do (summary id)
        (λ updated. then_do (record_event action operator id slug) (λ u. committed updated))))

unfoldable pub edit_draft :
    DraftAction → String → ContentWrite (Unit {0}) → String → DraftTask DraftVersion
edit_draft action slug t operator = do
  draft ← require_draft_ref slug
  transaction (mutate action slug operator draft.id t)

pub record ModuleInput : Type 0 where
  pub title : String
  pub description : String
  pub estimated_minutes : ℕ

unfoldable pub create_module_rows : ModuleInput → ContentWrite (Unit {0})
create_module_rows input c =
    in_modules
      (append_row module_rows (record {
        id = c.next_row;
        position = last_position module_rows 0 c.modules + 1;
        title = input.title;
        description = input.description;
        estimated_minutes = input.estimated_minutes;
      }))
      (record c { next_row = suc c.next_row })

abbrev pub is_module : ℕ → DraftModule → Bool
is_module id m = m.id == id

-- The reads that end with an exception when there is no row.
abbrev pub or_missing : {A : Type 0} → Option A → ContentWrite A
or_missing none c = aborted not_found
or_missing (some a) c = committed a c

abbrev pub find_module : ℕ → ContentWrite DraftModule
find_module id c = or_missing (find_first (is_module id) c.modules) c

pub record ModulePatch : Type 0 where
  pub title : Option String
  pub description : Option String
  pub estimated_minutes : Option ℕ

abbrev pub patch_module : ModulePatch → DraftModule → DraftModule
patch_module p m = record m {
  title = or_default p.title m.title;
  description = or_default p.description m.description;
  estimated_minutes = or_default p.estimated_minutes m.estimated_minutes;
}

unfoldable pub update_module_rows : ℕ → ModulePatch → ContentWrite (Unit {0})
update_module_rows id p =
    then_do (find_module id) (λ m. in_modules (update_row module_rows id (patch_module p)))

-- with `onDelete: Cascade` for the lessons
abbrev pub remove_module : ℕ → ContentWrite (Unit {0})
remove_module id c = committed tt (record c {
  modules = delete_rows (is_module id) c.modules;
  lessons = delete_rows (λ (l : DraftLesson). l.module_id == id) c.lessons;
})

unfoldable pub delete_module_rows : ℕ → ContentWrite (Unit {0})
delete_module_rows id =
    then_do (find_module id)
      (λ m. then_do (remove_module id) (λ u. in_modules (close_gap module_rows 0 m.position)))

unfoldable pub create_module : String → ModuleInput → String → DraftTask DraftVersion
create_module slug input operator =
    edit_draft create_module_action slug (create_module_rows input) operator

unfoldable pub update_module : String → ℕ → ModulePatch → String → DraftTask DraftVersion
update_module slug id p operator =
    edit_draft update_module_action slug (update_module_rows id p) operator

unfoldable pub delete_module : String → ℕ → String → DraftTask DraftVersion
delete_module slug id operator =
    edit_draft delete_module_action slug (delete_module_rows id) operator
