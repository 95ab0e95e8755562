-- ===== src/Drafts/Publish.antt =====
-- admin/course-publish.service.ts: a draft becomes the published version, and its readers move with it.
pub mod Issues
pub mod Valid
pub mod Answers
use aivirteach_server.Common.{
  ℕ, ◌+◌, Bool, true, false, ◌&&◌, not, String, Option, none, some, List, [], ◌∷◌, ◌++◌,
  if◌then◌else◌, ◌==◌, is_some, length, str_eq, or_default, any, find_first, update_rows,
}
use aivirteach_server.Database.{Database}
use aivirteach_server.Process.{
  HttpError, Outcome, committed, aborted, not_found, conflict, unprocessable, validation_error,
  pure, fail, ◌>>=◌, ◌>>◌, query, transaction,
}
use aivirteach_server.Learning.Dict.{lookup}
use aivirteach_server.Publishing.Pointers.{move_pointers}
use aivirteach_server.Drafts.{
  DraftLesson, DraftModule, CourseMeta, DraftVersion, DraftCourse, publish_action, DraftDatabase,
  DraftTask, DraftTransaction, then_do, has_id, is_draft, is_open, is_published_of, find_course,
  latest, or_fail, require_draft_ref, record_event, update_version, include_modules,
}
use aivirteach_server.Drafts.Course.{merge, summary}
use aivirteach_server.Drafts.Content.Lesson.{course_asset_ids}
use aivirteach_server.Drafts.Content.Reorder.{all_lessons}
use aivirteach_server.Drafts.Publish.Issues.{
  PublishIssue, PublishChecks, collect_draft_publish_issues, is_empty,
}

-- the content ids of a version in its order
abbrev pub content_ids : List DraftLesson → List String
content_ids [] = []
content_ids (l ∷ ls) = l.content_id ∷ content_ids ls

unfoldable pub lesson_order : DraftVersion → List String
lesson_order v = content_ids (all_lessons (include_modules v))

-- `previousPublished?.modules.flatMap(...) ?? []`
abbrev pub previous_order : Option DraftVersion → List String
previous_order none = []
previous_order (some v) = lesson_order v

abbrev pub total_minutes : List DraftLesson → ℕ
total_minutes [] = 0
total_minutes (l ∷ ls) = l.estimated_minutes + total_minutes ls

-- mapCourseLevel, on the JSON text of a level that `CourseMetaPatchSchema` lets pass; every other
-- level throws. Trimming and lower case change no more than the capital of these three.
abbrev pub map_course_level : String → Option String
map_course_level level =
    if str_eq level "\"Beginner\""
    then some "\"BEGINNER\""
    else if str_eq level "\"Intermediate\""
    then some "\"INTERMEDIATE\""
    else if str_eq level "\"Advanced\""
    then some "\"ADVANCED\""
    else none

-- the columns that are taken as they are
abbrev pub listed_columns : List String
listed_columns =
    "title" ∷ "shortTitle" ∷ "category" ∷ "description" ∷ "language" ∷ "tags" ∷ "outcomes"
    ∷ "requirements" ∷ []

-- `...(meta.k !== undefined ? { k: meta.k } : {})` of each key
unfoldable pub listed : List String → CourseMeta → CourseMeta
listed [] meta = []
listed (k ∷ ks) meta = elim (lookup k meta) [
  | none ↦ listed ks meta
  | some v ↦ (k, v) ∷ listed ks meta
]

abbrev with_level : CourseMeta → Option String → Option CourseMeta
with_level columns none = none
with_level columns (some level) = some (("level", level) ∷ columns)

-- `...(meta.level !== undefined ? { level: mapCourseLevel(meta.level) } : {})`
abbrev pub levelled : Option String → CourseMeta → Option CourseMeta
levelled none columns = some columns
levelled (some level) columns = with_level columns (map_course_level level)

-- the columns of the course that the metadata changes, unless it throws
unfoldable pub published_columns : CourseMeta → Option CourseMeta
unfolding listed
published_columns meta = levelled (lookup "level" meta) (listed listed_columns meta)

-- the published columns of the course
abbrev pub publish_course : DraftVersion → CourseMeta → DraftCourse → DraftCourse
publish_course draft columns course = record course {
  published = true;
  lesson_count = length (all_lessons (include_modules draft));
  duration_minutes = total_minutes (all_lessons (include_modules draft));
  columns = merge course.columns columns;
}

abbrev pub update_course_row : ℕ → (DraftCourse → DraftCourse) → DraftTransaction (Unit {0})
update_course_row id f w =
    if any (λ (c : DraftCourse). c.id == id) w.courses
    then committed tt
        (record w { courses = update_rows (λ (c : DraftCourse). c.id == id) f w.courses })
    else aborted not_found

abbrev pub publish_course_row : ℕ → DraftVersion → Option CourseMeta → DraftTransaction (Unit {0})
publish_course_row id draft none w = aborted validation_error
publish_course_row id draft (some columns) w = update_course_row id (publish_course draft columns) w

-- the metadata of a draft without any is `{}`
abbrev pub columns_of : DraftVersion → Option CourseMeta
columns_of draft = published_columns (or_default draft.meta [])

abbrev pub learners_written :
    DraftDatabase → Outcome Database (Unit {0}) → Outcome DraftDatabase (Unit {0})
learners_written w (committed u l) = committed tt (record w { learners = l })
learners_written w (aborted e) = aborted e

abbrev pub move_readers : ℕ → List String → List String → DraftTransaction (Unit {0})
move_readers course_id old new w = learners_written w (move_pointers course_id old new w.learners)

abbrev pub stamp : ℕ → DraftVersion → DraftVersion
stamp now v = record v { published_at = some now }

-- updateMany of the draft that is not published, and its count
abbrev pub flip : ℕ → DraftTransaction (Unit {0})
flip id w =
    if any (is_open id) w.versions
    then committed tt (record w { versions = update_rows (is_open id) (stamp w.now) w.versions })
    else aborted conflict

-- the draft that another publication has published, or that was discarded
abbrev pub winner : Option DraftVersion → DraftTransaction DraftVersion
winner none w = aborted conflict
winner (some v) w = if is_some v.published_at then committed v w else aborted conflict

-- what publish has read before its transaction
pub record PublishReads : Type 0 where
  pub course : DraftCourse
  pub draft_id : ℕ
  pub asset_ids : List String
  pub previous : Option DraftVersion

module _ (checks : PublishChecks) where
  unfoldable pub issues_of : PublishReads → DraftVersion → List PublishIssue
  issues_of r draft =
      collect_draft_publish_issues checks r.asset_ids r.course.cover_asset_id
        (not (is_some r.previous)) draft

  abbrev pub publish_locked : String → PublishReads → DraftVersion → DraftTransaction DraftVersion
  publish_locked operator r locked =
      if is_empty (issues_of r locked)
      then (then_do (flip r.draft_id) (λ u.
          then_do (publish_course_row r.course.id locked (columns_of locked)) (λ u.
            then_do (move_readers r.course.id (previous_order r.previous) (lesson_order locked))
              (λ u. then_do (summary r.draft_id) (λ version.
                then_do (record_event publish_action operator version.id r.course.slug)
                  (λ u. committed version))))))
      else (λ w. aborted unprocessable)

  unfoldable pub publish_rows : String → PublishReads → DraftTransaction DraftVersion
  publish_rows operator r w =
      if any (is_open r.draft_id) w.versions
      then then_do (summary r.draft_id) (publish_locked operator r) w
      else winner (find_first (has_id r.draft_id) w.versions) w

  abbrev pub publish_draft : String → PublishReads → DraftVersion → DraftTask DraftVersion
  publish_draft operator r draft =
      if is_empty (issues_of r draft)
      then transaction (publish_rows operator r)
      else fail unprocessable

  abbrev pub publish_latest : String → String → DraftCourse → DraftVersion → DraftTask DraftVersion
  publish_latest slug operator course newest =
      if is_some newest.published_at then pure newest else (do
        draft ← require_draft_ref slug
        assets ← query (λ w. course_asset_ids course.id w.asset_ids)
        previous ← query (λ w. latest (is_published_of course.id) w.versions)
        publish_draft operator
            (record {
              course = course;
              draft_id = draft.id;
              asset_ids = assets;
              previous = previous;
            })
            draft)

  unfoldable pub publish : String → String → DraftTask DraftVersion
  publish slug operator = do
    found ← query (find_course slug)
    course ← or_fail not_found found
    newest ← query (λ w. latest (λ v. v.course_id == course.id) w.versions)
    latest_version ← or_fail not_found newest
    publish_latest slug operator course latest_version
