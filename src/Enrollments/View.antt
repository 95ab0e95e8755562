-- ===== src/Enrollments/View.antt =====
-- enrollments.service.ts: what the learner reads, `listForUser`, `getProgress` and their projections.
pub mod Next
mod Tests
use aivirteach_server.Common.{
  ℕ, Bool, true, false, not, ◌&&◌, ◌++◌, String, Option, none, some, List, [], ◌∷◌, map,
  if◌then◌else◌, ◌==◌, leb, str_eq, any, all, includes, length, keep, find_first, order_rows,
  or_default, is_some,
}
use aivirteach_server.Process.{not_found}
use aivirteach_server.Learning.{LearningState}
use aivirteach_server.Learning.View.{
  CourseModule, EnrollmentStatus, LearningProgressInput, Doubles, completed_ids, lesson_ids,
  derive_current_module_title, derive_enrollment_view,
}
use aivirteach_server.Database.{Database, Transaction, ◌>>=◌, return, throw, read}
use aivirteach_server.Database.Rows.{
  Course, CourseVersion, Enrollment, LearningSnapshot, SnapshotReason, completed,
  legacy_achievement,
}
use aivirteach_server.Enrollments.{latest_published, or_abort}

-- The optional `workspaceResetPending` is set by a restart only, and left out.
pub record EnrollmentResponse : Type 0 where
  pub id : ℕ
  pub user_id : ℕ
  pub course_id : String
  pub active : Bool
  pub progress_percent : ℕ
  pub status : EnrollmentStatus
  pub current_module : String
  pub enrolled_at : ℕ

pub record Achievement : Type 0 where
  pub generation : ℕ
  pub completed_at : ℕ

pub record ProgressSnapshot : Type 0 where
  pub enrollment_id : ℕ
  pub course_id : String
  pub generation : ℕ
  pub revision : ℕ
  pub course_version_id : ℕ
  pub course_version : ℕ
  pub active : Bool
  pub completed_lesson_ids : List String
  pub total_lessons : ℕ
  pub current_lesson_id : Option String
  pub next_lesson_id : Option String
  pub status : EnrollmentStatus
  pub progress_percent : ℕ
  pub achievements : List Achievement

abbrev pub input_of : Enrollment → List CourseModule → LearningProgressInput
input_of e modules = record {
  learning_state = e.learning_state;
  modules = modules;
  active = e.active;
}

-- `toResponse`
unfoldable pub to_response : Doubles → Enrollment → String → List CourseModule → EnrollmentResponse
to_response r e course_slug modules =
    let view = derive_enrollment_view r (input_of e modules) in
    record {
      id = e.id;
      user_id = e.user_id;
      course_id = course_slug;
      active = e.active;
      progress_percent = view.1;
      status = view.0;
      current_module = derive_current_module_title (input_of e modules);
      enrolled_at = e.created_at;
    }

abbrev course_of : Enrollment → Database → Option Course
course_of e w = find_first (λ (c : Course). c.id == e.course_id) w.courses

-- `versions[0]?.modules ?? []`
abbrev modules_of : Option CourseVersion → List CourseModule
modules_of none = []
modules_of (some v) = v.modules

-- the foreign key keeps the course there
abbrev response_of : Doubles → Enrollment → Option Course → List EnrollmentResponse
response_of r e none = []
response_of r e (some c) = to_response r e c.slug (modules_of (latest_published c.versions)) ∷ []

abbrev responses : Doubles → Database → List Enrollment → List EnrollmentResponse
responses r w [] = []
responses r w (e ∷ es) = response_of r e (course_of e w) ++ responses r w es

abbrev is_created_before : Enrollment → Enrollment → Bool
is_created_before a b = leb a.created_at b.created_at

unfoldable pub list_for_user : Doubles → ℕ → Database → List EnrollmentResponse
list_for_user r user_id w =
    responses r w
      (order_rows is_created_before (keep (λ (e : Enrollment). e.user_id == user_id) w.enrollments))

-- `(row.state as ...).completedAt ?? row.createdAt`
abbrev pub achievement_of : LearningSnapshot → Achievement
achievement_of row = record {
  generation = row.source_generation;
  completed_at = or_default row.state.completed_at row.created_at;
}

abbrev pub with_current : ℕ → Option ℕ → List Achievement → List Achievement
with_current generation none rows = rows
with_current generation (some at) rows =
    if any (λ (a : Achievement). a.generation == generation) rows
    then rows
    else rows ++ record { generation = generation; completed_at = at } ∷ []

abbrev pub if_included : List String → Option String → Option String
if_included ids none = none
if_included ids (some id) = if includes id ids then some id else none

unfoldable pub progress_snapshot :
    Doubles → Enrollment → CourseVersion → String → List LearningSnapshot → ProgressSnapshot
progress_snapshot r e version course_slug snapshots =
    let input = input_of e version.modules in
    let ids = lesson_ids version.modules in
    let done = completed_ids input in
    let view = derive_enrollment_view r input in
    record {
      enrollment_id = e.id;
      course_id = course_slug;
      generation = e.generation;
      revision = e.progress_revision;
      course_version_id = version.id;
      course_version = version.version;
      active = e.active;
      completed_lesson_ids = done;
      total_lessons = length ids;
      current_lesson_id = if_included ids e.learning_state.reading_lesson_id;
      next_lesson_id = find_first (λ id. not (includes id done)) ids;
      status = view.0;
      progress_percent = view.1;
      achievements =
          with_current e.generation e.learning_state.completed_at (map achievement_of snapshots);
    }

abbrev is_achievement : SnapshotReason → Bool
is_achievement completed = true
is_achievement legacy_achievement = true
is_achievement _ = false

abbrev is_taken_before : LearningSnapshot → LearningSnapshot → Bool
is_taken_before a b = leb a.created_at b.created_at

abbrev achievements_of : Enrollment → Database → List LearningSnapshot
achievements_of e w = order_rows is_taken_before (
    keep (λ (s : LearningSnapshot). s.enrollment_id == e.id && is_achievement s.reason) w.snapshots)

-- `where: { userId, course: { slug, published: true } }`
abbrev is_enrolled : ℕ → String → Database → Enrollment → Bool
is_enrolled user_id slug w e =
    e.user_id == user_id
    && any (λ (c : Course). c.id == e.course_id && str_eq c.slug slug && c.published) w.courses

unfoldable pub get_progress : Doubles → ℕ → String → Transaction ProgressSnapshot
get_progress r user_id slug = do
  enrolled ← read (λ w. find_first (is_enrolled user_id slug w) w.enrollments)
  enrollment ← or_abort not_found enrolled
  found ← read (course_of enrollment)
  course ← or_abort not_found found
  version ← or_abort not_found (latest_published course.versions)
  snapshots ← read (achievements_of enrollment)
  return (progress_snapshot r enrollment version course.slug snapshots)
