-- ===== src/Enrollments/Pointers/Clear.antt =====
-- After a publication no reading position points to a removed lesson.
use aivirteach_server.Common.{
  ℕ, ◌≡◌, refl, true, false, ◌&&◌, String, Option, none, some, List, [], ◌∷◌, arith, ◌==◌, is_some,
  find_first, update_rows, All, Bool-cases, Option-cases, inl, inr,
}
use aivirteach_server.Process.{Outcome, committed}
use aivirteach_server.Learning.{remap_reading_position}
use aivirteach_server.Learning.Dict.{Object, lookup}
use aivirteach_server.Database.{Database}
use aivirteach_server.Database.Rows.{Enrollment}
use aivirteach_server.Enrollments.{update_enrollment}
use aivirteach_server.Enrollments.Progress.{store_state}
use aivirteach_server.Enrollments.Pointers.{
  is_key, is_pointing, is_moved, has_id, remap_each, pointing_ids, remap_published_reading_pointers,
  HasKey, IsReplacing,
}
use aivirteach_server.Enrollments.Pointers.Rows.{find_has_id}
use aivirteach_server.Enrollments.Pointers.Ready.{
  Ready, Ready-at_first, not_listed, Ready-kept, Ready-moved,
}

module _ (c : ℕ) (removed : Object String) (ok : IsReplacing removed) where
  -- The transaction commits, and no row of the course points to a removed lesson any more.
  abbrev Clears : (Database → Outcome Database (Unit {0})) → Database → Type 0
  Clears t w =
      (w' : Database) × (t w ≡ committed tt w')
      × All (λ (r : Enrollment). is_pointing c removed r ≡ false) w'.enrollments

  remap_each-Clears :
      (ids : List ℕ) (w : Database)
      → Ready c removed ids w.enrollments
      → Clears (remap_each removed ids) w
  unfolding remap_each update_enrollment
  remap_each-Clears [] w ready = (w, refl, not_listed c removed ok w.enrollments ready)
  remap_each-Clears (i ∷ ids) w ready = elim (Option-cases (find_first (has_id i) w.enrollments)) [
    | inl e ↦ absent e ready.found.0
    | inr (e, f) ↦ elim (Bool-cases (is_moved removed e.learning_state)) [
      | inl t ↦ rw f (
          rw t (
            rw (find_has_id i w.enrollments e f, f)
              (remap_each-Clears ids
                (record w {
                  enrollments =
                      update_rows (has_id i)
                        (store_state (remap_reading_position e.learning_state removed))
                        w.enrollments;
                })
                (Ready-moved c removed ok i ids w.enrollments e.learning_state t ready))))
      | inr t ↦
          rw f (
            rw t
              (remap_each-Clears ids w (Ready-kept c removed ok i ids w.enrollments e f t ready)))
    ]
  ]
    where
      absent :
          find_first (has_id i) w.enrollments ≡ none
          → is_some (find_first (has_id i) w.enrollments) ≡ true
          → Clears (remap_each removed (i ∷ ids)) w
      absent e h = cc

-- Where no two rows share an id, and each removed lesson has a non-empty id and is replaced by one
-- that is neither empty nor removed: the transaction commits, and after it no enrollment in the
-- course has a reading position that names a removed lesson.
pub remap_published_reading_pointers-Clears :
    (course_id : ℕ) (removed : Object String) (w : Database)
    → IsReplacing removed
    → HasKey w.enrollments
    → (w' : Database) × (remap_published_reading_pointers course_id removed w ≡ committed tt w')
      × All (λ (r : Enrollment). is_pointing course_id removed r ≡ false) w'.enrollments
unfolding remap_published_reading_pointers lookup
remap_published_reading_pointers-Clears c [] w ok key = (w, refl, no_key w.enrollments)
  where
    no_key : (es : List Enrollment) → All (λ (r : Enrollment). is_pointing c [] r ≡ false) es
    no_key [] = tt
    no_key (e ∷ es) = (no_pointer e.learning_state.reading_lesson_id, no_key es)
      where
        no_pointer : (o : Option String) → (e.course_id == c && is_key [] o) ≡ false
        no_pointer none = ground arith
        no_pointer (some i) = ground arith
remap_published_reading_pointers-Clears c (r ∷ removed) w ok key =
    remap_each-Clears c (r ∷ removed) ok (pointing_ids c (r ∷ removed) w.enrollments) w
      (Ready-at_first c (r ∷ removed) w.enrollments key)
