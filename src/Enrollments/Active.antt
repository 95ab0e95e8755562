-- ===== src/Enrollments/Active.antt =====
-- enrollments.service.ts: the transaction of `enroll`, and which enrollment of a user is active.
use aivirteach_server.Common.{
  ℕ, suc, ◌≤◌, ◌≡◌, refl, Bool, true, false, ◌&&◌, Option, none, some, List, [], ◌∷◌, arith, ◌==◌,
  count_rows, update_rows, find_first, inl, inr, Option-cases, ◌∙◌, ◌≢◌,
}
use aivirteach_server.Process.{committed, after}
use aivirteach_server.Learning.{empty_learning_state}
use aivirteach_server.Database.{Database, Transaction, ◌>>◌, update_enrollments}
use aivirteach_server.Database.Rows.{Enrollment}
use aivirteach_server.Enrollments.{is_owned}

abbrev to_active : ℕ → Enrollment → Enrollment
to_active version_id e = record e { active = true; course_version_id = some version_id }

abbrev pub to_inactive : Enrollment → Enrollment
to_inactive e = record e { active = false }

abbrev pub is_active_of : ℕ → Enrollment → Bool
is_active_of user_id e = e.user_id == user_id && e.active

abbrev new_enrollment : ℕ → ℕ → ℕ → ℕ → ℕ → Enrollment
new_enrollment id user_id course_id version_id now = record {
  id = id;
  user_id = user_id;
  course_id = course_id;
  course_version_id = some version_id;
  active = true;
  generation = 0;
  progress_revision = 0;
  learning_state = empty_learning_state;
  created_at = now;
}

-- prisma.enrollment.upsert, by the user and the course; returns the row
abbrev upsert_row : Option Enrollment → ℕ → ℕ → ℕ → Transaction Enrollment
upsert_row (some e) user_id course_id version_id w = committed (to_active version_id e) (record w {
  enrollments = update_rows (is_owned user_id course_id) (to_active version_id) w.enrollments;
})
upsert_row none user_id course_id version_id w =
    let row = new_enrollment w.next_id user_id course_id version_id w.now in
    committed row (record w { enrollments = row ∷ w.enrollments; next_id = suc w.next_id })

upsert_enrollment : ℕ → ℕ → ℕ → Transaction Enrollment
upsert_enrollment user_id course_id version_id w =
    upsert_row (find_first (is_owned user_id course_id) w.enrollments) user_id course_id version_id
      w

unfoldable pub enroll : ℕ → ℕ → ℕ → Transaction Enrollment
unfolding upsert_enrollment
enroll user_id course_id version_id = do
  update_enrollments (is_active_of user_id) to_inactive
  upsert_enrollment user_id course_id version_id

abbrev pub count_active : ℕ → List Enrollment → ℕ
count_active user_id = count_rows (is_active_of user_id)

-- A user has one enrollment in a course: the unique index.
abbrev pub HasUniqueRows : ℕ → ℕ → List Enrollment → Type 0
HasUniqueRows user_id course_id es = count_rows (is_owned user_id course_id) es ≤ 1

deactivated :
    (user_id : ℕ) (es : List Enrollment)
    → count_active user_id (update_rows (is_active_of user_id) to_inactive es) ≡ 0
deactivated user_id [] = refl
deactivated user_id (e ∷ es) = ground (arith, deactivated user_id es)

owned_still :
    (user_id course_id : ℕ) (es : List Enrollment)
    → count_rows (is_owned user_id course_id) (update_rows (is_active_of user_id) to_inactive es)
      ≡ count_rows (is_owned user_id course_id) es
owned_still user_id course_id [] = refl
owned_still user_id course_id (e ∷ es) = ground (arith, owned_still user_id course_id es)

-- Where nobody is active, activating the rows of a course counts those rows.
activated :
    (user_id course_id version_id : ℕ) (es : List Enrollment)
    → count_active user_id es ≡ 0
    → count_active user_id (update_rows (is_owned user_id course_id) (to_active version_id) es)
      ≡ count_rows (is_owned user_id course_id) es
activated user_id course_id version_id [] h = refl
activated user_id course_id version_id (e ∷ es) h =
    ground (arith, activated user_id course_id version_id es)

found_counts :
    (p : Enrollment → Bool) (es : List Enrollment) (e : Enrollment)
    → find_first p es ≡ some e
    → 1 ≤ count_rows p es
found_counts p [] e h = cc
found_counts p (x ∷ xs) e h = ground (arith, found_counts p xs e)

-- After an enrollment its user has exactly one active enrollment, if the user had at most one row
-- for the course before.
pub enroll_one_active :
    (user_id course_id version_id : ℕ) (w : Database)
    → HasUniqueRows user_id course_id w.enrollments
    → count_active user_id (after w (enroll user_id course_id version_id w)).enrollments ≡ 1
unfolding enroll update_enrollments
enroll_one_active user_id course_id version_id w unique =
    let es = update_rows (is_active_of user_id) to_inactive w.enrollments in
    let q = is_owned user_id course_id in
    elim (Option-cases (find_first q es)) [
      | inl e ↦ rw e (ground (arith, deactivated user_id w.enrollments))
      | inr (r, e) ↦ rw e (
          omega (
            arith,
            activated user_id course_id version_id es (deactivated user_id w.enrollments),
            found_counts q es r e,
            owned_still user_id course_id w.enrollments,
          ))
    ]

others_still :
    (user_id other : ℕ) (es : List Enrollment)
    → other ≢ user_id
    → count_active other (update_rows (is_active_of user_id) to_inactive es) ≡ count_active other es
others_still user_id other [] h = refl
others_still user_id other (e ∷ es) h = ground (arith, others_still user_id other es h)

others_upserted :
    (user_id other course_id version_id : ℕ) (es : List Enrollment)
    → other ≢ user_id
    → count_active other (update_rows (is_owned user_id course_id) (to_active version_id) es)
      ≡ count_active other es
others_upserted user_id other course_id version_id [] h = refl
others_upserted user_id other course_id version_id (e ∷ es) h =
    ground (arith, others_upserted user_id other course_id version_id es h)

-- An enrollment changes no other user's number of active enrollments.
pub enroll_others :
    (user_id other course_id version_id : ℕ) (w : Database)
    → other ≢ user_id
    → count_active other (after w (enroll user_id course_id version_id w)).enrollments
      ≡ count_active other w.enrollments
unfolding enroll update_enrollments
enroll_others user_id other course_id version_id w h =
    let es = update_rows (is_active_of user_id) to_inactive w.enrollments in
    elim (Option-cases (find_first (is_owned user_id course_id) es)) [
      | inl e ↦ rw e (ground (arith, others_still user_id other w.enrollments h))
      | inr (r, e) ↦ rw e (
          others_upserted user_id other course_id version_id es h
          ∙ others_still user_id other w.enrollments h)
    ]
