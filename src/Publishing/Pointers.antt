-- ===== src/Publishing/Pointers.antt =====
-- course-publish.service.ts, lines 105-118 and 162-166: the remap of the removed lessons, applied to
-- the learners of the course.
use aivirteach_server.Common.{
  ℕ, ◌≡◌, sym, ◌∙◌, ◌<◌, Bool, true, false, ◌&&◌, not, length, String, Option, none, some, List, [],
  ◌∷◌, arith, str_eq, eq_iff, includes, is_some, All, All-map, ==_iff,
}
use aivirteach_server.Process.{committed}
use aivirteach_server.Learning.Dict.{Object, lookup}
use aivirteach_server.Database.{Database, Transaction}
use aivirteach_server.Database.Rows.{Enrollment}
use aivirteach_server.Enrollments.Pointers.{
  HasKey, IsReplacing, is_pointing, remap_published_reading_pointers,
}
use aivirteach_server.Enrollments.Pointers.Clear.{remap_published_reading_pointers-Clears}
use aivirteach_server.Publishing.{remap_removed_lessons}
use aivirteach_server.Publishing.Remap.{remap_removed_lessons-lookup}

abbrev pub move_pointers : ℕ → List String → List String → Transaction (Unit {0})
move_pointers course_id old_order new_order =
    remap_published_reading_pointers course_id (remap_removed_lessons old_order new_order)

nonempty_in :
    (x : String) (xs : List String)
    → includes "" xs ≡ false
    → includes x xs ≡ true
    → str_eq x "" ≡ false
nonempty_in x [] h i = cc
nonempty_in x (y ∷ ys) h i = ground (arith, eq_iff x "", eq_iff y x, eq_iff y "", nonempty_in x ys)

was_old :
    {o : Option String} {v : String} (b c : Bool) → is_some o ≡ (b && not c) → o ≡ some v → b ≡ true
was_old b c h e = ground arith

no_value : {o : Option String} (b c : Bool) → is_some o ≡ (b && not c) → c ≡ true → o ≡ none
no_value b c h e = ground arith

pointed :
    (course_id : ℕ) (removed : Object String) (r : Enrollment) (id : String)
    → r.course_id ≡ course_id
    → r.learning_state.reading_lesson_id ≡ some id
    → is_pointing course_id removed r ≡ is_some (lookup id removed)
pointed course_id removed r id same at_id =
    rw at_id (ground (arith, same, ==_iff r.course_id course_id))

-- The reading position of a learner of the course names no lesson that the publication removed.
abbrev pub IsRetained : ℕ → List String → List String → Enrollment → Type 0
IsRetained course_id old new r =
    (id : String)
    → r.course_id ≡ course_id
    → r.learning_state.reading_lesson_id ≡ some id
    → includes id old ≡ true
    → includes id new ≡ true

module _ (old new : List String) (some_lesson : 0 < length new) where
  remap_removed_lessons-IsReplacing :
      includes "" old ≡ false
      → includes "" new ≡ false
      → IsReplacing (remap_removed_lessons old new)
  remap_removed_lessons-IsReplacing ho hn k v e =
      let at_k = remap_removed_lessons-lookup old new some_lesson k in
      let at_v = remap_removed_lessons-lookup old new some_lesson v in
      (
        nonempty_in k old ho (was_old _ _ at_k.0 e),
        nonempty_in v new hn (at_k.1 v e),
        no_value _ _ at_v.0 (at_k.1 v e),
      )

  left : (a b : Bool) → a ≡ true → (a && not b) ≡ false → b ≡ true
  left a b h e = ground arith

  retained :
      (course_id : ℕ) (r : Enrollment)
      → is_pointing course_id (remap_removed_lessons old new) r ≡ false
      → IsRetained course_id old new r
  retained course_id r h id same at_id was =
      let keys = (remap_removed_lessons-lookup old new some_lesson id).0 in
      left (includes id old) (includes id new) was
        (sym keys ∙ sym (pointed course_id _ r id same at_id) ∙ h)

-- A publication with at least one lesson, where no lesson's id is empty and enrollments have distinct
-- ids, commits the move of the reading positions; then no learner of the course has a reading
-- position at a lesson that the old version had and the new one lacks.
pub move_pointers-IsRetained :
    (course_id : ℕ) (old new : List String) (w : Database)
    → 0 < length new
    → includes "" old ≡ false
    → includes "" new ≡ false
    → HasKey w.enrollments
    → (w' : Database) × (move_pointers course_id old new w ≡ committed tt w')
      × All (IsRetained course_id old new) w'.enrollments
move_pointers-IsRetained course_id old new w some_lesson ho hn key =
    let moved =
      remap_published_reading_pointers-Clears course_id (remap_removed_lessons old new) w
        (remap_removed_lessons-IsReplacing old new some_lesson ho hn) key in
    (
      moved.0,
      moved.1,
      All-map _ (IsRetained course_id old new) moved.0.enrollments
          (λ r h. retained old new some_lesson course_id r h) moved.2,
    )
