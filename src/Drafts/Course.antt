-- ===== src/Drafts/Course.antt =====
-- admin/draft/course-draft.service.ts: drafts of a course's next version.
use aivirteach_server.Common.{
  ℕ, suc, ◌+◌, Bool, true, false, ◌&&◌, String, Option, none, some, List, [], ◌∷◌, ◌++◌,
  if◌then◌else◌, ◌==◌, or_default, any, find_first, delete_rows,
}
use aivirteach_server.Process.{
  HttpError, Outcome, committed, aborted, not_found, conflict, unique_violation, pure, fail,
  attempt, ◌>>=◌, ◌>>◌, query, transaction,
}
use aivirteach_server.Learning.Dict.{assign}
use aivirteach_server.Drafts.{
  LessonAssessment, DraftLesson, DraftModule, CourseWelcome, CourseMeta, DraftVersion, DraftAction,
  create_action, discard_action, update_course_action, update_welcome_action, DraftDatabase,
  DraftTask, DraftTransaction, then_do, has_id, is_published_of, find_course, latest, find_draft,
  or_fail, require_draft_ref, require_unpublished_version, record_event, update_version,
  include_modules,
}

-- The nested `create`: each row gets a new id.
abbrev pub copy_assessments : ℕ → List LessonAssessment → List LessonAssessment
copy_assessments n [] = []
copy_assessments n (a ∷ rest) = record a { id = n } ∷ copy_assessments (suc n) rest

abbrev pub after_assessments : ℕ → List LessonAssessment → ℕ
after_assessments n [] = n
after_assessments n (a ∷ rest) = after_assessments (suc n) rest

abbrev pub copy_lessons : ℕ → ℕ → List DraftLesson → List DraftLesson
copy_lessons module_id n [] = []
copy_lessons module_id n (l ∷ ls) =
    record l { id = n; module_id = module_id; assessments = copy_assessments (suc n) l.assessments }
    ∷ copy_lessons module_id (after_assessments (suc n) l.assessments) ls

abbrev pub after_lessons : ℕ → List DraftLesson → ℕ
after_lessons n [] = n
after_lessons n (l ∷ ls) = after_lessons (after_assessments (suc n) l.assessments) ls

abbrev pub copy_modules : ℕ → List (DraftModule × List DraftLesson) → List DraftModule
copy_modules n [] = []
copy_modules n ((m, ls) ∷ ms) = record m { id = n } ∷ copy_modules (after_lessons (suc n) ls) ms

abbrev pub copy_all_lessons : ℕ → List (DraftModule × List DraftLesson) → List DraftLesson
copy_all_lessons n [] = []
copy_all_lessons n ((m, ls) ∷ ms) =
    copy_lessons n (suc n) ls ++ copy_all_lessons (after_lessons (suc n) ls) ms

abbrev pub after_modules : ℕ → List (DraftModule × List DraftLesson) → ℕ
after_modules n [] = n
after_modules n ((m, ls) ∷ ms) = after_modules (after_lessons (suc n) ls) ms

-- the data of the new row; `meta` is not copied
unfoldable pub copy_version : ℕ → ℕ → DraftVersion → DraftVersion
copy_version id n source = record {
  id = id;
  course_id = source.course_id;
  version = source.version + 1;
  published_at = none;
  source = source.source;
  meta = none;
  modules = copy_modules n (include_modules source);
  lessons = copy_all_lessons n (include_modules source);
  welcome = source.welcome;
}

-- `@@unique([courseId, version])`
abbrev pub is_version : ℕ → ℕ → DraftVersion → Bool
is_version course_id version v = v.course_id == course_id && v.version == version

-- under that index; the partial index CourseVersion_one_draft_per_course of the migration
-- 20260930000000, which refuses more, is left out
unfoldable pub create_version : DraftVersion → ℕ → ℕ → DraftTransaction DraftVersion
create_version v next_id next_row w =
    if any (is_version v.course_id v.version) w.versions
    then aborted unique_violation
    else committed v
        (record w { versions = v ∷ w.versions; next_id = next_id; next_row = next_row })

unfoldable pub copy_draft : String → String → DraftVersion → DraftTransaction DraftVersion
copy_draft slug operator source w =
    then_do
      (create_version (copy_version w.next_id w.next_row source) (suc w.next_id)
        (after_modules w.next_row (include_modules source)))
      (λ created.
        then_do (record_event create_action operator created.id slug) (λ u. committed created))
      w

abbrev pub is_unique_violation : HttpError → Bool
is_unique_violation unique_violation = true
is_unique_violation _ = false

abbrev pub winner_or : HttpError → Option DraftVersion → DraftTask (DraftVersion × Bool)
winner_or e none = fail e
winner_or e (some winner) = pure (winner, false)

-- `catch (error)`
abbrev pub draft_exists : ℕ → HttpError → DraftTask (DraftVersion × Bool)
draft_exists course_id e =
    if is_unique_violation e then (query (find_draft course_id) >>= winner_or e) else fail e

abbrev pub create_from : String → String → ℕ → DraftVersion → DraftTask (DraftVersion × Bool)
create_from slug operator course_id source =
    attempt (transaction (copy_draft slug operator source)) (λ draft. pure (draft, true))
      (draft_exists course_id)

abbrev pub create_next : String → String → ℕ → Option DraftVersion → DraftTask (DraftVersion × Bool)
create_next slug operator course_id (some existing) = pure (existing, false)
create_next slug operator course_id none = do
  found ← query (λ w. latest (is_published_of course_id) w.versions)
  source ← or_fail not_found found
  create_from slug operator course_id source

unfoldable pub create_draft : String → String → DraftTask (DraftVersion × Bool)
create_draft slug operator = do
  found ← query (find_course slug)
  course ← or_fail not_found found
  existing ← query (find_draft course.id)
  create_next slug operator course.id existing

-- courseVersion.delete
unfoldable pub delete_version : ℕ → DraftTransaction (Unit {0})
delete_version id w =
    if any (has_id id) w.versions
    then committed tt (record w { versions = delete_rows (has_id id) w.versions })
    else aborted not_found

unfoldable pub discard : String → String → ℕ → DraftTransaction (Unit {0})
discard slug operator id =
    then_do (require_unpublished_version id)
      (λ u. then_do (delete_version id) (λ u. record_event discard_action operator id slug))

unfoldable pub discard_draft : String → String → DraftTask (Unit {0})
discard_draft slug operator = do
  found ← query (find_course slug)
  course ← or_fail not_found found
  published ← query (λ w. find_first (is_published_of course.id) w.versions)
  or_fail conflict published
  draft ← require_draft_ref slug
  transaction (discard slug operator draft.id)

-- `{ ...currentMeta, ...patch }`
abbrev pub merge : CourseMeta → CourseMeta → CourseMeta
merge meta [] = meta
merge meta ((k, v) ∷ patch) = merge (assign k v meta) patch

abbrev pub patch_meta : CourseMeta → DraftVersion → DraftVersion
patch_meta patch v = record v { meta = some (merge (or_default v.meta []) patch) }

-- `courseVersion.findUnique`, where the row was locked before
abbrev pub summarised : DraftDatabase → Option DraftVersion → Outcome DraftDatabase DraftVersion
summarised w none = aborted not_found
summarised w (some v) = committed v w

abbrev pub summary : ℕ → DraftTransaction DraftVersion
summary id w = summarised w (find_first (has_id id) w.versions)

unfoldable pub write_version :
    DraftAction
    → String
    → String
    → ℕ
    → (DraftVersion → DraftVersion)
    → DraftTransaction DraftVersion
write_version action slug operator id f = then_do (require_unpublished_version id) (λ u.
    then_do (λ w. committed tt (update_version id f w))
      (λ u. then_do (record_event action operator id slug) (λ u. summary id)))

unfoldable pub update_course : String → CourseMeta → String → DraftTask DraftVersion
update_course slug patch operator = do
  draft ← require_draft_ref slug
  transaction (write_version update_course_action slug operator draft.id (patch_meta patch))

-- A field that the patch leaves out is `none`; one that it sets to null is `some none`.
pub record WelcomePatch : Type 0 where
  pub overview_asset_id : Option (Option String)
  pub overview_heading : Option (Option String)
  pub overview_paragraphs : Option (List String)
  pub how_it_works_steps : Option (Option String)
  pub final_outcome : Option (Option String)

abbrev pub empty_welcome : CourseWelcome
empty_welcome = record {
  overview_asset_id = none;
  overview_heading = none;
  overview_paragraphs = [];
  how_it_works_steps = none;
  final_outcome = none;
}

abbrev pub patch_welcome : WelcomePatch → CourseWelcome → CourseWelcome
patch_welcome p c = record {
  overview_asset_id = or_default p.overview_asset_id c.overview_asset_id;
  overview_heading = or_default p.overview_heading c.overview_heading;
  overview_paragraphs = or_default p.overview_paragraphs c.overview_paragraphs;
  how_it_works_steps = or_default p.how_it_works_steps c.how_it_works_steps;
  final_outcome = or_default p.final_outcome c.final_outcome;
}

-- `courseWelcome.upsert`
abbrev pub upsert_welcome : WelcomePatch → DraftVersion → DraftVersion
upsert_welcome p v = record v {
  welcome = some (patch_welcome p (or_default v.welcome empty_welcome));
}

unfoldable pub update_welcome : String → WelcomePatch → String → DraftTask DraftVersion
update_welcome slug patch operator = do
  draft ← require_draft_ref slug
  transaction (write_version update_welcome_action slug operator draft.id (upsert_welcome patch))
