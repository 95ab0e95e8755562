-- ===== src/Drafts/Content/Lesson.antt =====
-- admin/draft/draft-content.service.ts: lessons and their assessments.
use aivirteach_server.Common.{
  ℕ, suc, ◌+◌, Bool, ◌||◌, not, String, Option, none, some, List, [], ◌∷◌, if◌then◌else◌, ◌==◌, ltb,
  str_eq, or_default, any, keep, delete_rows,
}
use aivirteach_server.Process.{
  committed, aborted, not_found, conflict, bad_request, unprocessable, pure, fail, ◌>>=◌, ◌>>◌,
  query, transaction,
}
use aivirteach_server.Drafts.{
  DraftLesson, DraftVersion, create_lesson_action, update_lesson_action, delete_lesson_action,
  DraftTask, then_do, require_draft_ref,
}
use aivirteach_server.Drafts.Placed.{update_row, close_gap, last_position, append_row}
use aivirteach_server.Drafts.Content.{
  ContentWrite, lesson_rows, in_lessons, mutate, edit_draft, find_module,
}

pub record Activity : Type 0 where
  pub type_name : String
  pub prompt : String
  pub completion_type : String

-- `content` is the text of its JSON.
pub record LessonInput : Type 0 where
  pub content_id : String
  pub title : String
  pub content : Option String
  pub estimated_minutes : ℕ
  pub objectives : Option (List String)
  pub activity : Activity

pub record LessonPatch : Type 0 where
  pub title : Option String
  pub content : Option String
  pub estimated_minutes : Option ℕ
  pub objectives : Option (List String)
  pub activity : Option Activity

pub record ValidationReport : Type 0 where
  pub errors : List String
  pub warnings : List String

abbrev pub has_content_id : String → DraftLesson → Bool
has_content_id content_id l = str_eq l.content_id content_id

abbrev pub empty_content : String
empty_content = "{\"schemaVersion\":1,\"blocks\":[]}"

abbrev pub new_lesson : ℕ → ℕ → ℕ → String → LessonInput → DraftLesson
new_lesson id module_id position content input = record {
  id = id;
  module_id = module_id;
  content_id = input.content_id;
  position = position;
  title = input.title;
  estimated_minutes = input.estimated_minutes;
  objectives = or_default input.objectives [];
  source_range = none;
  content = some content;
  activity_type = input.activity.type_name;
  activity_prompt = input.activity.prompt;
  activity_completion_type = input.activity.completion_type;
  assessment_ids = [];
  assessments = [];
}

abbrev pub insert_lesson : ℕ → String → LessonInput → ContentWrite (Unit {0})
insert_lesson module_id content input c =
    in_lessons
      (append_row lesson_rows (
        new_lesson c.next_row module_id (last_position lesson_rows module_id c.lessons + 1) content
          input))
      (record c { next_row = suc c.next_row })

unfoldable pub create_lesson_rows : ℕ → String → LessonInput → ContentWrite (Unit {0})
create_lesson_rows module_id content input = then_do (find_module module_id) (λ m c.
    if any (has_content_id input.content_id) c.lessons
    then aborted conflict
    else insert_lesson module_id content input c)

-- `findLessonRow`
abbrev pub only_lesson : List DraftLesson → ContentWrite DraftLesson
only_lesson [] c = aborted not_found
only_lesson (l ∷ []) c = committed l c
only_lesson (l ∷ k ∷ ls) c = aborted conflict

unfoldable pub find_lesson_row : String → ContentWrite DraftLesson
find_lesson_row content_id c = only_lesson (keep (has_content_id content_id) c.lessons) c

abbrev pub patch_activity : Option Activity → DraftLesson → DraftLesson
patch_activity none l = l
patch_activity (some a) l = record l {
  activity_type = a.type_name;
  activity_prompt = a.prompt;
  activity_completion_type = a.completion_type;
}

abbrev pub patch_content : Option String → DraftLesson → DraftLesson
patch_content none l = l
patch_content (some content) l = record l { content = some content }

abbrev pub patch_lesson : LessonPatch → DraftLesson → DraftLesson
patch_lesson p l = patch_activity p.activity (
    patch_content p.content (record l {
      title = or_default p.title l.title;
      estimated_minutes = or_default p.estimated_minutes l.estimated_minutes;
      objectives = or_default p.objectives l.objectives;
    }))

unfoldable pub update_lesson_rows : String → LessonPatch → ContentWrite (Unit {0})
update_lesson_rows content_id p =
    then_do (find_lesson_row content_id)
      (λ l. in_lessons (update_row lesson_rows l.id (patch_lesson p)))

abbrev pub remove_lesson : ℕ → ContentWrite (Unit {0})
remove_lesson id c =
    committed tt (record c { lessons = delete_rows (λ (l : DraftLesson). l.id == id) c.lessons })

unfoldable pub delete_lesson_rows : String → ContentWrite (Unit {0})
delete_lesson_rows content_id = then_do (find_lesson_row content_id) (λ l.
    then_do (remove_lesson l.id) (λ u. in_lessons (close_gap lesson_rows l.module_id l.position)))

unfoldable pub delete_lesson : String → String → String → DraftTask DraftVersion
delete_lesson slug content_id operator =
    edit_draft delete_lesson_action slug (delete_lesson_rows content_id) operator

abbrev pub course_asset_ids : ℕ → List (ℕ × String) → List String
course_asset_ids course_id [] = []
course_asset_ids course_id ((c, id) ∷ rest) =
    let more = course_asset_ids course_id rest in if c == course_id then id ∷ more else more

abbrev pub refused : List String → DraftTask (Unit {0})
refused [] = pure tt
refused (e ∷ es) = fail unprocessable

-- `is_object` and `byte_length` are of the JSON text; `validate` is validateLessonContent.
module _ (is_object : String → Bool) (byte_length : String → ℕ)
    (validate : Option String → List String → ValidationReport) where
  unfoldable pub assert_writable_content : String → DraftTask (Unit {0})
  assert_writable_content content =
      if not (is_object content) || ltb 262144 (byte_length content)
      then fail bad_request
      else pure tt

  abbrev pub reject_invalid_content : ValidationReport → DraftTask (Unit {0})
  reject_invalid_content report = refused report.errors

  unfoldable pub create_lesson :
      String → ℕ → LessonInput → String → DraftTask (DraftVersion × ValidationReport)
  create_lesson slug module_id input operator = do
    let content = or_default input.content empty_content
    assert_writable_content content
    draft ← require_draft_ref slug
    assets ← query (λ w. course_asset_ids draft.course_id w.asset_ids)
    let problems = validate (some content) assets
    reject_invalid_content problems
    updated ← transaction (
        mutate create_lesson_action slug operator draft.id
          (create_lesson_rows module_id content input))
    pure (updated, problems)

  -- the checks of a patch that brings content
  abbrev pub checked_content : ℕ → Option String → DraftTask ValidationReport
  checked_content course_id none = pure (record { errors = []; warnings = [] })
  checked_content course_id (some content) = do
    assert_writable_content content
    assets ← query (λ w. course_asset_ids course_id w.asset_ids)
    let problems = validate (some content) assets
    reject_invalid_content problems
    pure problems

  unfoldable pub update_lesson :
      String → String → LessonPatch → String → DraftTask (DraftVersion × ValidationReport)
  update_lesson slug content_id p operator = do
    draft ← require_draft_ref slug
    problems ← checked_content draft.course_id p.content
    updated ←
        transaction
          (mutate update_lesson_action slug operator draft.id (update_lesson_rows content_id p))
    pure (updated, problems)
