-- ===== src/Enrollments/Progress/Effect.antt =====
-- What a committed change of a lesson's completion leaves in the database.
use aivirteach_server.Common.{
  ℕ, ◌+◌, ◌≡◌, ◌⊎◌, inl, inr, ap, Bool, true, false, not, String, arith, if◌then◌else◌, ◌==◌,
  ==_iff, Bool-cases, any, update_rows, some, find_first, find_first-update_rows, refl, ◌∙◌,
}
use aivirteach_server.Process.{unique_violation, committed, conflict}
use aivirteach_server.Learning.{LearningState}
use aivirteach_server.Learning.Completion.{is_completed}
use aivirteach_server.Learning.View.{Lesson}
use aivirteach_server.Database.{Database, ◌>>◌, return}
use aivirteach_server.Database.Commits.{bind_commits, returned, abort_apart}
use aivirteach_server.Database.Rows.{CourseVersion, Enrollment, Activity, completed_key}
use aivirteach_server.Enrollments.{create_snapshot_row, is_row, update_enrollment, is_snapshot}
use aivirteach_server.Enrollments.Progress.{
  Progress, write_completion, store_state, add_activity, snapshot_completion,
}
use aivirteach_server.Enrollments.Progress.Current.{ensure_holds, completion_state-is_completed}

-- The activity and the snapshot leave the enrollments alone.
snapshot-keep :
    (c : Bool) (e : Enrollment) (version : CourseVersion) (next : LearningState) (x p : Progress)
    (w v : Database)
    → (snapshot_completion c e version next >> return x) w ≡ committed p v
    → (p ≡ x) × (v.enrollments ≡ w.enrollments)
unfolding create_snapshot_row
snapshot-keep true e version next x p w v h =
    elim (Bool-cases (any (is_snapshot e.id (completed_key e.generation)) w.snapshots)) [
      | inl t ↦ abort_apart unique_violation p v (rw t at h)
      | inr t ↦
          let (same, stored) = returned x p _ v (rw t at h) in
          (same, ap (λ (d : Database). d.enrollments) stored)
    ]
snapshot-keep false e version next x p w v h = (cc, cc)

records-keep :
    (b c : Bool) (a : Activity) (e : Enrollment) (version : CourseVersion) (next : LearningState)
    (x p : Progress) (w v : Database)
    → (add_activity b a >> (snapshot_completion c e version next >> return x)) w ≡ committed p v
    → (p ≡ x) × (v.enrollments ≡ w.enrollments)
records-keep true c a e version next x p w v h = snapshot-keep c e version next x p _ v h
records-keep false c a e version next x p w v h = snapshot-keep c e version next x p w v h

-- The command's revision was the stored one, which moves by one, and the row gets the new state.
abbrev pub IsAdvanced : Enrollment → ℕ → Database → Progress → Database → Type 0
IsAdvanced e revision w p v =
    (e.progress_revision ≡ revision)
    × (p.enrollment.progress_revision ≡ revision + 1)
    × (v.enrollments
        ≡ update_rows (λ (r : Enrollment). r.id == e.id) (store_state p.enrollment.learning_state)
            w.enrollments)
    × (find_first (is_row e) v.enrollments ≡ some p.enrollment)

row_is : (e : Enrollment) → is_row e e ≡ true
row_is e = ground arith

-- The update returns the row that it stores.
updated_row :
    (e r : Enrollment) (next : LearningState) (w u : Database)
    → find_first (is_row e) w.enrollments ≡ some e
    → update_enrollment e (store_state next) w ≡ committed r u
    → (r ≡ store_state next e)
      × (u ≡ record w { enrollments = update_rows (is_row e) (store_state next) w.enrollments })
      × (find_first (is_row e) u.enrollments ≡ some r)
unfolding update_enrollment
updated_row e r next w u found h =
    let (same, stored) = returned _ r _ u (rw found at h) in
    (
      same,
      stored,
      rw (stored, same)
          (find_first-update_rows (is_row e) (is_row e) (store_state next) w.enrollments (λ x. refl)
            ∙ rw (found, row_is e) refl),
    )

-- Where the enrollment is the stored row of its id: a change of completion that commits leaves the
-- lesson with the completion asked for. Either it held before and nothing is written, or the
-- command's revision was the stored one, the stored one moves by one, the enrollment's row gets the
-- new state, and the answer is the row that is stored then.
pub write_completion-effect :
    (e : Enrollment) (version : CourseVersion) (lesson : Lesson) (lesson_id : String) (revision : ℕ)
    (completed : Bool) (w v : Database) (p : Progress)
    → find_first (is_row e) w.enrollments ≡ some e
    → write_completion e version lesson lesson_id revision completed w ≡ committed p v
    → (is_completed lesson_id p.enrollment.learning_state ≡ completed)
      × (((p.enrollment ≡ e) × (v ≡ w)) ⊎ IsAdvanced e revision w p v)
unfolding write_completion
write_completion-effect e version lesson lesson_id revision completed w v p stored_e h =
    elim (Bool-cases
      (if is_completed lesson_id e.learning_state then completed else not completed)) [
        | inl t ↦
            let (same, stored) = returned _ p w v (rw t at h) in
            let kept : p.enrollment ≡ e = ap (λ (q : Progress). q.enrollment) same in
            (rw kept (ground (arith, t)), inl (kept, stored))
        | inr t ↦
            let (matches, h) =
              ensure_holds (e.progress_revision == revision) conflict _ w v p (rw t at h) in
            let (r, u, updated, h) = bind_commits (update_enrollment e (store_state _)) _ w v p h in
            let (row, world, found) = updated_row e r _ w u stored_e updated in
            let (same, stored) = records-keep _ _ _ _ version _ _ p u v h in
            let answer : p.enrollment ≡ r = ap (λ (q : Progress). q.enrollment) same in
            (
              rw (answer, row)
                  (completion_state-is_completed version lesson_id completed w.now
                    e.learning_state),
              inr (
                (==_iff e.progress_revision revision).0 matches,
                rw (answer, row) (omega (arith, (==_iff e.progress_revision revision).0 matches)),
                rw (answer, row) (stored ∙ ap (λ (d : Database). d.enrollments) world),
                rw (stored, answer) found,
              ),
            )
      ]
