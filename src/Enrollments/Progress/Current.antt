-- ===== src/Enrollments/Progress/Current.antt =====
-- What a committed write of learning progress guarantees.
use aivirteach_server.Common.{
  ℕ, ◌≡◌, refl, Bool, true, false, String, Option, none, some, arith, ◌==◌, ==_iff, eq_iff, ◌&&◌,
}
use aivirteach_server.Process.{HttpError, committed, conflict, not_found}
use aivirteach_server.Learning.{LearningState, set_lesson_completion, with_course_completion}
use aivirteach_server.Learning.Dict.{Object, assign, lookup, lookup-assign}
use aivirteach_server.Learning.Completion.{is_completed}
use aivirteach_server.Database.{Database, Transaction, ◌>>=◌, ◌>>◌}
use aivirteach_server.Database.Rows.{Course, CourseVersion, Enrollment}
use aivirteach_server.Enrollments.{latest_published, or_abort, ensure, find_course, find_owned}
use aivirteach_server.Enrollments.Progress.{
  ProgressCommand, command_generation, command_version, Progress, completion_state, write_progress,
}

-- A step that did not abort found its row, and the rest committed.
pub or_abort_found :
    {A B : Type 0} (e : HttpError) (o : Option A) (f : A → Transaction B) (w v : Database) (b : B)
    → (or_abort e o >>= f) w ≡ committed b v
    → (a : A) × (o ≡ some a) × (f a w ≡ committed b v)
or_abort_found e none f w v b h = cc
or_abort_found e (some a) f w v b h = (a, refl, h)

pub ensure_holds :
    {B : Type 0} (t : Bool) (e : HttpError) (f : Transaction B) (w v : Database) (b : B)
    → (ensure t e >> f) w ≡ committed b v
    → (t ≡ true) × (f w ≡ committed b v)
ensure_holds true e f w v b h = (refl, h)
ensure_holds false e f w v b h = cc

-- The command names the learner's own active enrollment, at its generation, and the latest
-- published version of a published course.
abbrev pub IsCurrent : ℕ → String → ProgressCommand → Database → Type 0
IsCurrent user_id slug command w =
    (course : Course) × (e : Enrollment) × (version : CourseVersion) × (find_course slug w
      ≡ some course)
    × (find_owned user_id course.id w ≡ some e)
    × (e.active ≡ true)
    × (e.generation ≡ command_generation command)
    × (latest_published course.versions ≡ some version)
    × (version.id ≡ command_version command)

-- A write of progress that commits found a published course and the learner's enrollment in it,
-- active and at the command's generation, and the command named the latest published version.
pub write_progress-IsCurrent :
    (user_id : ℕ) (slug lesson_id : String) (command : ProgressCommand) (w v : Database)
    (p : Progress)
    → write_progress user_id slug lesson_id command w ≡ committed p v
    → IsCurrent user_id slug command w
unfolding write_progress
write_progress-IsCurrent user_id slug lesson_id command w v p h =
    let (course, found, h) = or_abort_found not_found (find_course slug w) _ w v p h in
    let (e, owned, h) = or_abort_found not_found (find_owned user_id course.id w) _ w v p h in
    let (fenced, h) =
      ensure_holds (e.generation == command_generation command && e.active) conflict _ w v p h in
    let (version, latest, h) =
      or_abort_found conflict (latest_published course.versions) _ w v p h in
    let (same, h) = ensure_holds (version.id == command_version command) conflict _ w v p h in
    (
      course,
      e,
      version,
      found,
      owned,
      ground (arith, fenced),
      ground (arith, fenced),
      latest,
      (==_iff version.id (command_version command)).0 same,
    )

lookup-assign_same :
    {V : Type 0} (k : String) (v : V) (m : Object V) → lookup k (assign k v m) ≡ some v
lookup-assign_same k v m = rw (lookup-assign k k v m, (eq_iff k k).1 refl) refl

set_lesson_completion-is_completed :
    (lesson_id : String) (completed : Bool) (now : ℕ) (state : LearningState)
    → is_completed lesson_id (set_lesson_completion state lesson_id completed now) ≡ completed
unfolding is_completed set_lesson_completion
set_lesson_completion-is_completed lesson_id true now state =
    rw (lookup-assign_same lesson_id _ state.lessons) refl
set_lesson_completion-is_completed lesson_id false now state =
    rw (lookup-assign_same lesson_id _ state.lessons) refl

-- The lesson has the completion that the command asks for, also when the course is done by it.
pub completion_state-is_completed :
    (version : CourseVersion) (lesson_id : String) (completed : Bool) (now : ℕ)
    (state : LearningState)
    → is_completed lesson_id (completion_state version lesson_id completed now state) ≡ completed
unfolding is_completed with_course_completion
completion_state-is_completed version lesson_id completed now state =
    ground (arith, set_lesson_completion-is_completed lesson_id completed now state)
