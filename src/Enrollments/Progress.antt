-- ===== src/Enrollments/Progress.antt =====
-- enrollments.service.ts: `writeProgress`, behind `setLessonProgress` and `setReadingPosition`.
pub mod Current
pub mod Effect
use aivirteach_server.Common.{
  ℕ, suc, ◌+◌, Bool, true, false, ◌&&◌, not, String, Option, none, some, List, [], ◌∷◌,
  if◌then◌else◌, ◌==◌, str_eq, is_some, all, keep, length,
}
use aivirteach_server.Process.{not_found, conflict, committed}
use aivirteach_server.Learning.{
  LearningState, LessonLearningState, set_lesson_completion, set_reading_position,
  with_course_completion, first_completed,
}
use aivirteach_server.Learning.Dict.{lookup}
use aivirteach_server.Learning.Completion.{is_completed}
use aivirteach_server.Learning.View.{Lesson, unique, lesson_ids}
use aivirteach_server.Database.{Database, Transaction, ◌>>=◌, ◌>>◌, return, throw, read, write}
use aivirteach_server.Database.Rows.{
  Course, CourseVersion, Enrollment, Activity, SnapshotReason, completed_key,
}
use aivirteach_server.Enrollments.{
  latest_published, or_abort, ensure, find_course, find_owned, all_lessons, create_snapshot_row,
  update_enrollment,
}

pub data ProgressCommand : Type 0 where
  completion : (generation revision course_version_id : ℕ) → (completed : Bool) → ProgressCommand
  reading : (generation course_version_id : ℕ) → ProgressCommand

abbrev pub command_generation : ProgressCommand → ℕ
command_generation (completion g r v b) = g
command_generation (reading g v) = g

abbrev pub command_version : ProgressCommand → ℕ
command_version (completion g r v b) = v
command_version (reading g v) = v

-- What `progressSnapshot` is computed from: the enrollment as it is after the write.
pub record Progress : Type 0 where
  pub enrollment : Enrollment
  pub version : CourseVersion

-- `matches.length !== 1`
abbrev pub find_unique_lesson : String → CourseVersion → Option Lesson
find_unique_lesson lesson_id version =
    elim (keep (λ (l : Lesson). str_eq l.content_id lesson_id) (all_lessons version.modules)) [
      | [] ↦ none
      | l ∷ ls ↦ elim ls [ [] ↦ some l | m ∷ ms ↦ none ]
    ]

-- every lesson of the version is completed
abbrev pub is_done : CourseVersion → LearningState → Bool
is_done version state = all (λ id. is_completed id state) (unique (lesson_ids version.modules))

-- the learning state that a change of completion leaves
abbrev pub completion_state : CourseVersion → String → Bool → ℕ → LearningState → LearningState
completion_state version lesson_id completed now state =
    let next = set_lesson_completion state lesson_id completed now in
    if is_done version next && not (is_some next.completed_at)
    then with_course_completion next (some now)
    else next

abbrev pub store_state : LearningState → Enrollment → Enrollment
store_state next e = record e { learning_state = next; progress_revision = e.progress_revision + 1 }

abbrev pub add_activity : Bool → Activity → Transaction (Unit {0})
add_activity true a = write (λ w. record w { activities = a ∷ w.activities })
add_activity false a = return tt

abbrev pub snapshot_completion :
    Bool → Enrollment → CourseVersion → LearningState → Transaction (Unit {0})
snapshot_completion true e version next = do
  create_snapshot_row e e.progress_revision version.id next SnapshotReason.completed
      (completed_key e.generation)
  return tt
snapshot_completion false e version next = return tt

unfoldable pub write_completion :
    Enrollment → CourseVersion → Lesson → String → ℕ → Bool → Transaction Progress
write_completion e version lesson lesson_id revision completed = do
  let state = e.learning_state
  if (if is_completed lesson_id state then completed else not completed)
      then return (record { enrollment = e; version = version })
      else (do
        ensure (e.progress_revision == revision) conflict
        now ← read (λ w. w.now)
        let next = completion_state version lesson_id completed now state
        updated ← update_enrollment e (store_state next)
        add_activity (completed && not (is_some (first_completed (lookup lesson_id state.lessons))))
            (record { user_id = e.user_id; enrollment_id = e.id; title = lesson.title })
        snapshot_completion
            (is_done version (set_lesson_completion state lesson_id completed now)
              && not (is_some state.completed_at))
            updated version next
        return (record { enrollment = updated; version = version }))

-- `next.readingLessonId !== state.readingLessonId`
abbrev pub is_reading_at : String → Option String → Bool
is_reading_at lesson_id none = false
is_reading_at lesson_id (some id) = str_eq id lesson_id

unfoldable pub write_reading : Enrollment → CourseVersion → String → Transaction Progress
write_reading e version lesson_id =
    if is_reading_at lesson_id e.learning_state.reading_lesson_id
    then return (record { enrollment = e; version = version })
    else (do
      updated ← update_enrollment e (store_state (set_reading_position e.learning_state lesson_id))
      return (record { enrollment = updated; version = version }))

abbrev pub write_command :
    ProgressCommand → Enrollment → CourseVersion → Lesson → String → Transaction Progress
write_command (completion g revision v completed) e version lesson lesson_id =
    write_completion e version lesson lesson_id revision completed
write_command (reading g v) e version lesson lesson_id = write_reading e version lesson_id

unfoldable pub write_progress : ℕ → String → String → ProgressCommand → Transaction Progress
write_progress user_id slug lesson_id command = do
  found ← read (find_course slug)
  course ← or_abort not_found found
  row ← read (find_owned user_id course.id)
  e ← or_abort not_found row
  ensure (e.generation == command_generation command && e.active) conflict
  version ← or_abort conflict (latest_published course.versions)
  ensure (version.id == command_version command) conflict
  lesson ← or_abort not_found (find_unique_lesson lesson_id version)
  write_command command e version lesson lesson_id
