-- ===== src/Enrollments/View/Next.antt =====
-- The lesson that the learner is offered next.
use aivirteach_server.Common.{
  ◌<◌, ◌≡◌, ◌↔◌, refl, ap, ◌∙◌, Bool, true, not, ◌&&◌, String, none, List, [], ◌∷◌, arith, str_eq,
  eq_iff, includes, keep, all, find_first,
}
use aivirteach_server.Learning.{completed_lesson_ids}
use aivirteach_server.Learning.View.{
  Doubles, LearningProgressInput, completed, unique, lesson_ids, completed_ids,
  derive_enrollment_view,
}
use aivirteach_server.Learning.View.Status.{all-unique, length-keep_iff, length-unique_pos, all-ext}
use aivirteach_server.Database.Rows.{CourseVersion, Enrollment, LearningSnapshot}
use aivirteach_server.Enrollments.View.{progress_snapshot, input_of}

includes-keep :
    (c : String → Bool) (x : String) (xs : List String)
    → includes x (keep c xs) ≡ (includes x xs && c x)
includes-keep c x [] = refl
includes-keep c x (y ∷ ys) = ground (arith, includes-keep c x ys, eq_iff y x)

includes-unique : (x : String) (xs : List String) → includes x (unique xs) ≡ includes x xs
unfolding unique
includes-unique x [] = refl
includes-unique x (y ∷ ys) = ground (
  arith,
  includes-keep (λ z. not (str_eq z y)) x (unique ys),
  includes-unique x ys,
  eq_iff y x,
  eq_iff x y,
)

all-more :
    (y : String) (ys xs : List String)
    → all (λ id. includes id ys) xs ≡ true
    → all (λ id. includes id (y ∷ ys)) xs ≡ true
all-more y ys [] h = refl
all-more y ys (x ∷ xs) h = ground (arith, all-more y ys xs)

all-included : (xs : List String) → all (λ id. includes id xs) xs ≡ true
all-included [] = refl
all-included (x ∷ xs) = ground (arith, eq_iff x x, all-more x xs xs (all-included xs))

all-within :
    (c : String → Bool) (whole xs : List String)
    → all (λ id. includes id whole) xs ≡ true
    → all (λ id. includes id whole && c id) xs ≡ all c xs
all-within c whole [] h = refl
all-within c whole (x ∷ xs) h = ground (arith, all-within c whole xs)

find-none :
    (q : String → Bool) (xs : List String)
    → (find_first (λ id. not (q id)) xs ≡ none) ↔ (all q xs ≡ true)
find-none q [] = ground arith
find-none q (x ∷ xs) = ground (arith, find-none q xs)

all-done :
    (input : LearningProgressInput)
    → all (λ id. includes id (completed_ids input)) (lesson_ids input.modules)
      ≡ all
          (λ id. includes id (completed_lesson_ids input.learning_state))
          (lesson_ids input.modules)
unfolding completed_ids
all-done input =
    let c : String → Bool = λ id. includes id (completed_lesson_ids input.learning_state) in
    let ids = lesson_ids input.modules in
    all-ext _ (λ id. includes id ids && c id) ids
      (λ id. includes-keep c id (unique ids) ∙ ap (λ b. b && c id) (includes-unique id ids))
    ∙ all-within c ids ids (all-included ids)

-- The progress says `completed` exactly when the course has a lesson and offers no next one.
pub progress_snapshot-next :
    (r : Doubles) (e : Enrollment) (version : CourseVersion) (slug : String)
    (snapshots : List LearningSnapshot)
    → ((progress_snapshot r e version slug snapshots).status ≡ completed) ↔ (
        (0 < (progress_snapshot r e version slug snapshots).total_lessons)
        × ((progress_snapshot r e version slug snapshots).next_lesson_id ≡ none))
unfolding progress_snapshot derive_enrollment_view
progress_snapshot-next r e version slug snapshots =
    let input = input_of e version.modules in
    ground (
      arith,
      length-keep_iff (λ id. includes id (completed_lesson_ids e.learning_state))
          (unique (lesson_ids version.modules)),
      all-unique (λ id. includes id (completed_lesson_ids e.learning_state))
          (lesson_ids version.modules),
      all-done input,
      find-none (λ id. includes id (completed_ids input)) (lesson_ids version.modules),
      length-unique_pos (lesson_ids version.modules),
    )
