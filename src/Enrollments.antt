-- ===== src/Enrollments.antt =====
-- enrollments/enrollments.service.ts: what its commands read, and the shapes of its rows.
pub mod Active
pub mod Progress
pub mod Restart
pub mod Settlement
pub mod Pointers
pub mod View
mod Tests
use aivirteach_server.Common.{
  ℕ, suc, ◌+◌, Bool, true, false, ◌&&◌, not, String, Option, none, some, List, [], ◌∷◌, ◌++◌, map,
  if◌then◌else◌, ◌==◌, ltb, str_eq, is_some, find_first, update_rows, keep, length, any,
}
use aivirteach_server.Process.{HttpError, not_found, conflict, unique_violation, committed, aborted}
use aivirteach_server.Learning.{LearningState, empty_learning_state}
use aivirteach_server.Learning.View.{CourseModule, Lesson}
use aivirteach_server.Database.{Database, Transaction, return, throw}
use aivirteach_server.Database.Rows.{
  Course, CourseVersion, Enrollment, LearningSnapshot, SnapshotReason, IdempotencyKey, restart_key,
  manual_key, completed_key,
}

-- courses/published-version.ts, LATEST_PUBLISHED_VERSION: the published version with the largest number
abbrev newer : CourseVersion → Option CourseVersion → Option CourseVersion
newer v none = some v
newer v (some u) = if ltb v.version u.version then some u else some v

unfoldable pub latest_published : List CourseVersion → Option CourseVersion
latest_published [] = none
latest_published (v ∷ vs) =
    let rest = latest_published vs in if is_some v.published_at then newer v rest else rest

-- `if (!x) throw e`
abbrev pub or_abort : {A : Type 0} → HttpError → Option A → Transaction A
or_abort e none = throw e
or_abort e (some a) = return a

abbrev pub ensure : Bool → HttpError → Transaction (Unit {0})
ensure true e = return tt
ensure false e = throw e

-- `where: { slug, published: true }`
abbrev pub find_course : String → Database → Option Course
find_course slug w = find_first (λ (c : Course). str_eq c.slug slug && c.published) w.courses

-- `where: { userId_courseId }`
abbrev pub is_owned : ℕ → ℕ → Enrollment → Bool
is_owned user_id course_id e = e.user_id == user_id && e.course_id == course_id

abbrev pub find_owned : ℕ → ℕ → Database → Option Enrollment
find_owned user_id course_id w = find_first (is_owned user_id course_id) w.enrollments

-- `version.modules.flatMap((m) => m.lessons)`
unfoldable pub all_lessons : List CourseModule → List Lesson
all_lessons [] = []
all_lessons (m ∷ ms) = m.lessons ++ all_lessons ms

abbrev pub same_key : IdempotencyKey → IdempotencyKey → Bool
same_key (restart_key r) (restart_key s) = str_eq r s
same_key (manual_key r) (manual_key s) = str_eq r s
same_key (completed_key g) (completed_key h) = g == h
same_key _ _ = false

-- `where: { enrollmentId_idempotencyKey }`
abbrev pub is_snapshot : ℕ → IdempotencyKey → LearningSnapshot → Bool
is_snapshot enrollment_id key s = s.enrollment_id == enrollment_id && same_key s.idempotency_key key

-- prisma.learningSnapshot.create, under the unique index on the enrollment and the key
unfoldable pub create_snapshot_row :
    Enrollment
    → ℕ
    → ℕ
    → LearningState
    → SnapshotReason
    → IdempotencyKey
    → Transaction LearningSnapshot
create_snapshot_row e source_revision version_id state reason key w =
    if any (is_snapshot e.id key) w.snapshots
    then aborted unique_violation
    else committed row (record w { snapshots = row ∷ w.snapshots; next_id = suc w.next_id })
  where
    row : LearningSnapshot
    row = record {
      id = w.next_id;
      enrollment_id = e.id;
      source_generation = e.generation;
      source_revision = source_revision;
      course_version_id = version_id;
      schema_version = 1;
      state = state;
      reason = reason;
      idempotency_key = key;
      created_at = w.now;
    }

abbrev pub is_row : Enrollment → Enrollment → Bool
is_row e r = r.id == e.id

abbrev pub update_found :
    Enrollment → (Enrollment → Enrollment) → Option Enrollment → Transaction Enrollment
update_found e f none w = aborted not_found
update_found e f (some stored) w =
    committed (f stored) (record w { enrollments = update_rows (is_row e) f w.enrollments })

-- prisma.enrollment.update by id, which returns the stored row as it is then, and throws P2025 when
-- there is none
unfoldable pub update_enrollment : Enrollment → (Enrollment → Enrollment) → Transaction Enrollment
update_enrollment e f w = update_found e f (find_first (is_row e) w.enrollments) w
