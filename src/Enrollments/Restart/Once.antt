-- ===== src/Enrollments/Restart/Once.antt =====
-- enrollments.service.ts, `restart`: what a restart that commits leaves in the tables.
use aivirteach_server.Common.{
  ℕ, zero, suc, ◌+◌, ◌≡◌, ◌∙◌, ◌⊎◌, inl, inr, refl, ap, true, false, ◌&&◌, Option, none, some,
  arith, ◌==◌, ltb, str_eq, eq_iff, find_first, find_first-update_rows, changed_row, update_rows,
  All-find_first, any, Bool-cases,
}
use aivirteach_server.Process.{committed, conflict, not_found, unique_violation}
use aivirteach_server.Database.{Database, ◌>>◌, update_enrollments, update_workspaces}
use aivirteach_server.Database.Commits.{bind_commits, returned, abort_apart}
use aivirteach_server.Database.Rows.{
  Enrollment, CourseVersion, LearningSnapshot, SnapshotReason, restart_key,
}
use aivirteach_server.TokenUsage.{TokenWeights}
use aivirteach_server.Enrollments.{
  latest_published, find_owned, is_owned, is_snapshot, create_snapshot_row, is_row,
  update_enrollment,
}
use aivirteach_server.Enrollments.Pointers.{HasKey, has_id}
use aivirteach_server.Enrollments.Progress.Current.{or_abort_found, ensure_holds}
use aivirteach_server.Enrollments.Restart.{
  SnapshotCommand, RestartResult, find_live_course, matches_snapshot, matches_enrollment, charge,
  delete_conversations, first_restart, replay_restart, restart_from, restart, settle_usage,
  reset_enrollment,
}

abbrev with_snapshot : SnapshotCommand → Enrollment → Database → Option LearningSnapshot
with_snapshot command e w =
    find_first (is_snapshot e.id (restart_key command.request_id)) w.snapshots

-- The request's snapshot was stored before, for the same command, and nothing is changed.
abbrev pub IsReplay : SnapshotCommand → Enrollment → Database → RestartResult → Database → Type 0
IsReplay command e w r v =
    (v ≡ w)
    × (r.enrollment ≡ e)
    × ((x : LearningSnapshot) × (with_snapshot command e w ≡ some x)
        × (matches_snapshot command x ≡ true))

-- The request had no snapshot and has one now. The command named the stored generation and
-- revision, and the enrollment's stored row is the answer, inactive and one generation later.
abbrev pub IsReset : SnapshotCommand → Enrollment → Database → RestartResult → Database → Type 0
IsReset command e w r v =
    (with_snapshot command e w ≡ none)
    × ((x : LearningSnapshot) × (with_snapshot command e v ≡ some x)
        × (x.source_generation ≡ command.generation))
    × (e.generation ≡ command.generation)
    × (e.progress_revision ≡ command.revision)
    × (find_first (is_row e) v.enrollments ≡ some r.enrollment)
    × (r.enrollment.generation ≡ command.generation + 1)
    × (r.enrollment.active ≡ false)

-- What a committed restart has done to the enrollment that it found.
abbrev pub IsRestarted : SnapshotCommand → Enrollment → Database → RestartResult → Database → Type 0
IsRestarted command e w r v =
    ((r.replay ≡ true) × IsReplay command e w r v) ⊎ ((r.replay ≡ false) × IsReset command e w r v)

replay-IsRestarted :
    (command : SnapshotCommand) (e : Enrollment) (version : CourseVersion)
    (existing : LearningSnapshot) (w v : Database) (r : RestartResult)
    → with_snapshot command e w ≡ some existing
    → replay_restart command e version existing w ≡ committed r v
    → IsRestarted command e w r v
replay-IsRestarted command e version existing w v r found h =
    let (matched, h) = ensure_holds (matches_snapshot command existing) conflict _ w v r h in
    let (same, kept) = returned _ r w v h in
    inl (
      ap (λ (x : RestartResult). x.replay) same,
      (kept, ap (λ (x : RestartResult). x.enrollment) same, (existing, found, matched)),
    )

-- The settlement leaves the enrollments and the snapshots alone.
abbrev Kept : Database → Database → Type 0
Kept w v = (v.enrollments ≡ w.enrollments) × (v.snapshots ≡ w.snapshots)

positive : (n : ℕ) → ltb 0 (suc n) ≡ true
positive n = ground arith

charge-Kept :
    (user_id n : ℕ) (e : Enrollment) (w v : Database) (a : Unit {0})
    → (charge user_id n >> delete_conversations e) w ≡ committed a v
    → Kept w v
unfolding charge delete_conversations
charge-Kept user_id zero e w v a h =
    let (same, stored) = returned tt a _ v h in
    (ap (λ (d : Database). d.enrollments) stored, ap (λ (d : Database). d.snapshots) stored)
charge-Kept user_id (suc n) e w v a h =
    let (same, stored) = returned tt a _ v (rw (positive n) at h) in
    (ap (λ (d : Database). d.enrollments) stored, ap (λ (d : Database). d.snapshots) stored)

settle_usage-Kept :
    (weights : TokenWeights) (user_id : ℕ) (e : Enrollment) (w v : Database) (a : Unit {0})
    → settle_usage weights user_id e w ≡ committed a v
    → Kept w v
unfolding settle_usage
settle_usage-Kept weights user_id e w v a h = charge-Kept user_id _ e w v a h

own_key :
    (command : SnapshotCommand) (e : Enrollment)
    → (e.id == e.id && str_eq command.request_id command.request_id) ≡ true
own_key command e = ground (arith, eq_iff command.request_id command.request_id)

-- The snapshot is stored under the request's key.
snapshot-stored :
    (command : SnapshotCommand) (e : Enrollment) (version : CourseVersion) (w u : Database)
    (x : LearningSnapshot)
    → create_snapshot_row e e.progress_revision version.id e.learning_state SnapshotReason.restart
        (restart_key command.request_id)
        w
      ≡ committed x u
    → (with_snapshot command e u ≡ some x)
      × (x.source_generation ≡ e.generation)
      × (u.enrollments ≡ w.enrollments)
unfolding create_snapshot_row
snapshot-stored command e version w u x h =
    elim (Bool-cases (any (is_snapshot e.id (restart_key command.request_id)) w.snapshots)) [
      | inl t ↦ abort_apart unique_violation x u (rw t at h)
      | inr t ↦
          let (same, stored) = returned _ x _ u (rw t at h) in
          (
            rw (stored, same) (rw (own_key command e) refl),
            ap (λ (y : LearningSnapshot). y.source_generation) same,
            ap (λ (d : Database). d.enrollments) stored,
          )
    ]

abbrev deactivate : Enrollment → Enrollment
deactivate r = record r { active = false }

-- The reset row is the stored one, with the same id before the learner's rows are deactivated.
reset_row :
    (user_id : ℕ) (e : Enrollment) (version : CourseVersion) (w u v : Database) (r : Enrollment)
    → find_first (is_row e) w.enrollments ≡ some e
    → u.enrollments
      ≡ update_rows (λ (r : Enrollment). r.user_id == user_id && r.active) deactivate w.enrollments
    → update_enrollment e (reset_enrollment version) u ≡ committed r v
    → (find_first (is_row e) v.enrollments ≡ some r)
      × (r.generation ≡ e.generation + 1)
      × (r.active ≡ false)
      × (v.snapshots ≡ u.snapshots)
unfolding update_enrollment
reset_row user_id e version w u v r found rows h =
    let p = λ (r : Enrollment). r.user_id == user_id && r.active in
    let here : find_first (is_row e) u.enrollments ≡ changed_row p deactivate (some e) =
      rw rows (
        find_first-update_rows (is_row e) p deactivate w.enrollments (λ x. refl) ∙ rw found refl) in
    let (same, stored) = returned _ r _ v (rw here at h) in
    (
      rw (stored, same)
          (find_first-update_rows (is_row e) (is_row e) (reset_enrollment version) u.enrollments
              (λ x. refl)
            ∙ rw here (ground arith)),
      rw same (ground arith),
      rw same refl,
      ap (λ (d : Database). d.snapshots) stored,
    )

matching :
    (command : SnapshotCommand) (e : Enrollment) (version : CourseVersion)
    → matches_enrollment command e version ≡ true
    → (e.generation ≡ command.generation) × (e.progress_revision ≡ command.revision)
matching command e version h = (ground arith, ground arith)

-- The snapshot, the update and the settlement, each in its world, make a reset.
chained-IsReset :
    (command : SnapshotCommand) (e updated : Enrollment) (x : LearningSnapshot) (r : RestartResult)
    (w u u2 u3 v : Database)
    → with_snapshot command e w ≡ none
    → (e.generation ≡ command.generation) × (e.progress_revision ≡ command.revision)
    → (with_snapshot command e u ≡ some x) × (x.source_generation ≡ e.generation)
    → (find_first (is_row e) u2.enrollments ≡ some updated)
      × (updated.generation ≡ e.generation + 1)
      × (updated.active ≡ false)
      × (u2.snapshots ≡ u.snapshots)
    → Kept u2 u3
    → Kept u3 v
    → r.enrollment ≡ updated
    → IsReset command e w r v
chained-IsReset command e updated x r w u u2 u3 v absent (g, revision) (found, source)
      (row, next, inactive, s2) (es3, ss3) (es, ss) answer =
    (
      absent,
      (x, rw (ss, ss3, s2) found, source ∙ g),
      g,
      revision,
      rw (es, es3, answer) row,
      rw (answer, next, g) refl,
      rw answer inactive,
    )

first-IsRestarted :
    (weights : TokenWeights) (user_id : ℕ) (command : SnapshotCommand) (e : Enrollment)
    (version : CourseVersion) (w v : Database) (r : RestartResult)
    → find_first (is_row e) w.enrollments ≡ some e
    → with_snapshot command e w ≡ none
    → first_restart weights user_id command e version w ≡ committed r v
    → IsRestarted command e w r v
unfolding update_enrollments update_workspaces
first-IsRestarted weights user_id command e version w v r here absent h =
    let (matched, h) = ensure_holds (matches_enrollment command e version) conflict _ w v r h in
    let (x, u, made, h) =
      bind_commits
        (create_snapshot_row e e.progress_revision version.id e.learning_state
          SnapshotReason.restart (restart_key command.request_id))
        _ w v r h in
    let (found, source, rows) = snapshot-stored command e version w u x made in
    let (updated, u2, moved, h) =
      bind_commits (update_enrollment e (reset_enrollment version)) _ _ v r h in
    let row =
      reset_row user_id e version w _ u2 updated here
        (ap (update_rows (λ (r : Enrollment). r.user_id == user_id && r.active) deactivate) rows)
        moved in
    let (done, u3, settled, h) = bind_commits (settle_usage weights user_id updated) _ _ v r h in
    let (same, kept) = returned _ r _ v h in
    inr (
      ap (λ (x : RestartResult). x.replay) same,
      chained-IsReset command e updated x r w u u2 u3 v absent (matching command e version matched)
          (found, source) row (settle_usage-Kept weights user_id updated u2 u3 done settled)
          (ap (λ (d : Database). d.enrollments) kept, ap (λ (d : Database). d.snapshots) kept)
          (ap (λ (x : RestartResult). x.enrollment) same),
    )

from-IsRestarted :
    (weights : TokenWeights) (user_id : ℕ) (command : SnapshotCommand) (e : Enrollment)
    (version : CourseVersion) (o : Option LearningSnapshot) (w v : Database) (r : RestartResult)
    → find_first (is_row e) w.enrollments ≡ some e
    → with_snapshot command e w ≡ o
    → restart_from weights user_id command e version o w ≡ committed r v
    → IsRestarted command e w r v
from-IsRestarted weights user_id command e version none w v r here found h =
    first-IsRestarted weights user_id command e version w v r here found h
from-IsRestarted weights user_id command e version (some x) w v r here found h =
    replay-IsRestarted command e version x w v r found h

-- Where no two enrollments share an id: a restart that commits found the learner's enrollment in
-- the course. Either a snapshot of the request was stored before for the same command, and nothing
-- is changed. Or the request had no snapshot and has one now, the command named the stored
-- generation and revision, and the enrollment's stored row is now the one of the answer, which is
-- inactive and one generation later.
pub restart-IsRestarted :
    (weights : TokenWeights) (user_id course_id : ℕ) (command : SnapshotCommand) (w v : Database)
    (r : RestartResult)
    → HasKey w.enrollments
    → restart weights user_id course_id command w ≡ committed r v
    → (e : Enrollment) × (find_owned user_id course_id w ≡ some e) × IsRestarted command e w r v
unfolding restart
restart-IsRestarted weights user_id course_id command w v r key h =
    let (live, found, h) = or_abort_found conflict (find_live_course course_id w) _ w v r h in
    let (version, latest, h) = or_abort_found conflict (latest_published live.versions) _ w v r h in
    let (e, owned, h) = or_abort_found not_found (find_owned user_id course_id w) _ w v r h in
    let here : find_first (is_row e) w.enrollments ≡ some e =
      (All-find_first (λ (r : Enrollment). find_first (has_id r.id) w.enrollments ≡ some r)
        (is_owned user_id course_id) w.enrollments e owned key).0 in
    (
      e,
      owned,
      from-IsRestarted weights user_id command e version (with_snapshot command e w) w v r here refl
          h,
    )
