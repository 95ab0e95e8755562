-- ===== src/Enrollments/Restart.antt =====
-- enrollments.service.ts: the transactions of `restart` and `createSnapshot`.
pub mod Once
use aivirteach_server.Common.{
  ℕ, suc, ◌+◌, Bool, true, false, ◌&&◌, String, Option, none, some, ◌∷◌, if◌then◌else◌, ◌==◌, ltb,
  find_first, delete_rows,
}
use aivirteach_server.Process.{not_found, conflict}
use aivirteach_server.Learning.{empty_learning_state}
use aivirteach_server.Database.{
  Database, Transaction, ◌>>=◌, ◌>>◌, return, read, write, is_status, update_enrollments,
  update_workspaces,
}
use aivirteach_server.Database.Rows.{
  Course, CourseVersion, Enrollment, LearningSnapshot, SnapshotReason, Conversation, Workspace,
  generated, resetting, restart_key, manual_key,
}
use aivirteach_server.TokenUsage.{TokenWeights, sum_usage_where, weighted_consumption}
use aivirteach_server.Enrollments.{
  latest_published, or_abort, ensure, find_owned, is_snapshot, create_snapshot_row,
  update_enrollment,
}

pub record SnapshotCommand : Type 0 where
  pub request_id : String
  pub generation : ℕ
  pub revision : ℕ
  pub course_version_id : ℕ

pub record RestartResult : Type 0 where
  pub enrollment : Enrollment
  pub version : CourseVersion
  pub waiting : Bool
  pub replay : Bool

-- `where: { id, published: true }`, locked
abbrev pub find_live_course : ℕ → Database → Option Course
find_live_course id w = find_first (λ (c : Course). c.id == id && c.published) w.courses

abbrev pub matches_snapshot : SnapshotCommand → LearningSnapshot → Bool
matches_snapshot command s =
    s.source_generation == command.generation
    && s.source_revision == command.revision
    && s.course_version_id == command.course_version_id

abbrev pub matches_enrollment : SnapshotCommand → Enrollment → CourseVersion → Bool
matches_enrollment command e version =
    e.generation == command.generation
    && e.progress_revision == command.revision
    && version.id == command.course_version_id

abbrev is_resetting : Option Workspace → Bool
is_resetting none = false
is_resetting (some r) = is_status resetting r

-- A request id that was used before: the same command gets its result again, another is refused.
abbrev pub replay_restart :
    SnapshotCommand → Enrollment → CourseVersion → LearningSnapshot → Transaction RestartResult
replay_restart command e version existing = do
  ensure (matches_snapshot command existing) conflict
  row ← read (λ w. find_first (λ (r : Workspace). r.enrollment_id == e.id) w.workspaces)
  return (record { enrollment = e; version = version; waiting = is_resetting row; replay = true })

abbrev pub reset_enrollment : CourseVersion → Enrollment → Enrollment
reset_enrollment version e = record e {
  active = false;
  generation = e.generation + 1;
  progress_revision = 0;
  course_version_id = some version.id;
  learning_state = empty_learning_state;
}

-- `if (consumed > 0) await tx.quotaLedger.create(...)`
unfoldable pub charge : ℕ → ℕ → Transaction (Unit {0})
charge user_id consumed =
    if ltb 0 consumed
    then write (λ w. record w {
      quota_ledger =
          record {
            id = generated w.next_id;
            user_id = user_id;
            tokens_granted = 0;
            tokens_taken = consumed;
          }
          ∷ w.quota_ledger;
      next_id = suc w.next_id;
    })
    else return tt

abbrev pub is_in_conversation : Enrollment → Conversation → Bool
is_in_conversation e c = c.enrollment_id == e.id

unfoldable pub delete_conversations : Enrollment → Transaction (Unit {0})
delete_conversations e =
    write (λ w. record w { conversations = delete_rows (is_in_conversation e) w.conversations })

-- The usage of the enrollment's chat moves to the ledger, and the chat goes.
unfoldable pub settle_usage : TokenWeights → ℕ → Enrollment → Transaction (Unit {0})
settle_usage weights user_id e = do
  usage ← read (λ w. sum_usage_where (is_in_conversation e) w.conversations)
  charge user_id (weighted_consumption usage weights)
  delete_conversations e

abbrev pub first_restart :
    TokenWeights → ℕ → SnapshotCommand → Enrollment → CourseVersion → Transaction RestartResult
first_restart weights user_id command e version = do
  ensure (matches_enrollment command e version) conflict
  create_snapshot_row e e.progress_revision version.id e.learning_state SnapshotReason.restart
      (restart_key command.request_id)
  update_enrollments (λ r. r.user_id == user_id && r.active) (λ r. record r { active = false })
  updated ← update_enrollment e (reset_enrollment version)
  settle_usage weights user_id updated
  reset ←
      update_workspaces (λ r. r.enrollment_id == updated.id)
        (λ now r. record r { status = resetting; reset_retry_at = none })
  return (record { enrollment = updated; version = version; waiting = ltb 0 reset; replay = false })

abbrev pub restart_from :
    TokenWeights
    → ℕ
    → SnapshotCommand
    → Enrollment
    → CourseVersion
    → Option LearningSnapshot
    → Transaction RestartResult
restart_from weights user_id command e version none =
    first_restart weights user_id command e version
restart_from weights user_id command e version (some existing) =
    replay_restart command e version existing

unfoldable pub restart : TokenWeights → ℕ → ℕ → SnapshotCommand → Transaction RestartResult
restart weights user_id course_id command = do
  course ← read (find_live_course course_id)
  live ← or_abort conflict course
  version ← or_abort conflict (latest_published live.versions)
  row ← read (find_owned user_id course_id)
  e ← or_abort not_found row
  existing ← read (λ w. find_first (is_snapshot e.id (restart_key command.request_id)) w.snapshots)
  restart_from weights user_id command e version existing

abbrev pub snapshot_from :
    SnapshotCommand
    → Enrollment
    → CourseVersion
    → Option LearningSnapshot
    → Transaction LearningSnapshot
snapshot_from command e version (some existing) = do
  ensure (matches_snapshot command existing) conflict
  return existing
snapshot_from command e version none = do
  ensure (matches_enrollment command e version) conflict
  create_snapshot_row e e.progress_revision version.id e.learning_state SnapshotReason.manual
      (manual_key command.request_id)

unfoldable pub create_snapshot : ℕ → ℕ → SnapshotCommand → Transaction LearningSnapshot
create_snapshot user_id course_id command = do
  course ← read (find_live_course course_id)
  live ← or_abort conflict course
  version ← or_abort conflict (latest_published live.versions)
  row ← read (find_owned user_id course_id)
  e ← or_abort not_found row
  existing ← read (λ w. find_first (is_snapshot e.id (manual_key command.request_id)) w.snapshots)
  snapshot_from command e version existing
