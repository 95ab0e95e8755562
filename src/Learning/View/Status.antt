-- ===== src/Learning/View/Status.antt =====
-- When the view calls a course completed, and how its percentage follows.
use aivirteach_server.Common.{
  ℕ, ◌≤◌, ◌<◌, ◌≡◌, ap, ◌↔◌, refl, Bool, true, String, ◌∙◌, List, [], ◌∷◌, arith, str_eq, eq_iff,
  includes, length, keep, all, not, length-keep-le,
}
use aivirteach_server.Learning.Dict.{IsObject}
use aivirteach_server.Learning.Completion.{is_completed, includes-completed_lesson_ids}
use aivirteach_server.Learning.{completed_lesson_ids}
use aivirteach_server.Learning.View.{
  Doubles, percent, LearningProgressInput, completed, unique, lesson_ids, unique_ids, completed_ids,
  compute_progress_percent, derive_enrollment_view,
}

-- Filtering keeps the length exactly when the test holds throughout.
pub length-keep_iff :
    {A : Type 0} (p : A → Bool) (xs : List A) → (length (keep p xs) ≡ length xs) ↔ (all p xs ≡ true)
length-keep_iff p [] = ground arith
length-keep_iff p (x ∷ xs) = ground (arith, length-keep_iff p xs, length-keep-le p xs)

-- Dropping an id from the list matters to `all` only at that id.
all-without :
    (p : String → Bool) (x : String) (xs : List String)
    → p x ≡ true
    → all p (keep (λ y. not (str_eq y x)) xs) ≡ all p xs
all-without p x [] h = refl
all-without p x (y ∷ ys) h = ground (arith, all-without p x ys h, eq_iff y x)

pub all-unique : (p : String → Bool) (xs : List String) → all p (unique xs) ≡ all p xs
unfolding unique
all-unique p [] = refl
all-unique p (x ∷ xs) = ground (arith, all-unique p xs, all-without p x (unique xs))

percent_all : (r : Doubles) (n : ℕ) → 0 < n → percent r n n ≡ 100
unfolding percent
percent_all r n h =
    ap (λ (x : r.Carrier). r.round (r.times x (r.of 100))) (r.divided_self n h)
    ∙ ap r.round (r.times_one (r.of 100))
    ∙ r.round_whole 100 (omega arith)

percent_mono : (r : Doubles) (a b n : ℕ) → a ≤ b → percent r a n ≤ percent r b n
unfolding percent
percent_mono r a b n h =
    r.round_mono _ _ (r.times_mono _ _ 100 (r.divided_mono _ _ (r.of n) (r.of_mono a b h)))

-- The percentage never passes 100.
pub compute_progress_percent-le :
    (r : Doubles) (input : LearningProgressInput) → compute_progress_percent r input ≤ 100
unfolding compute_progress_percent
compute_progress_percent-le r input = ground (
  arith,
  length-keep-le (λ id. includes id (completed_lesson_ids input.learning_state)) (unique_ids input),
  percent_mono r (length (completed_ids input)) (length (unique_ids input))
      (length (unique_ids input)),
  percent_all r (length (unique_ids input)),
)

abbrev pub every_lesson : (String → Bool) → LearningProgressInput → Bool
every_lesson p input = all p (lesson_ids input.modules)

pub all-ext :
    (p q : String → Bool) (xs : List String) → ((x : String) → p x ≡ q x) → all p xs ≡ all q xs
all-ext p q [] h = refl
all-ext p q (x ∷ xs) h = rw (h x, all-ext p q xs h)

pub length-unique_pos : (xs : List String) → (0 < length (unique xs)) ↔ (0 < length xs)
unfolding unique
length-unique_pos [] = ground arith
length-unique_pos (x ∷ xs) = ground arith

completed_by_state :
    (input : LearningProgressInput)
    → IsObject input.learning_state.lessons
    → all (λ id. includes id (completed_lesson_ids input.learning_state)) (unique_ids input)
      ≡ every_lesson (λ id. is_completed id input.learning_state) input
completed_by_state input h =
    all-unique _ (lesson_ids input.modules)
    ∙ all-ext _ _ (lesson_ids input.modules)
        (λ id. includes-completed_lesson_ids id input.learning_state h)

-- Where no lesson id is twice a key of the learning state, the view says `completed` exactly when
-- the course has a lesson and every lesson of every module is completed in the learning state.
pub completed_iff :
    (r : Doubles) (input : LearningProgressInput)
    → IsObject input.learning_state.lessons
    → ((derive_enrollment_view r input).0 ≡ completed) ↔ (
        (0 < length (lesson_ids input.modules))
        × (every_lesson (λ id. is_completed id input.learning_state) input ≡ true))
unfolding derive_enrollment_view
completed_iff r input h = ground (
  arith,
  length-keep_iff (λ id. includes id (completed_lesson_ids input.learning_state))
      (unique (lesson_ids input.modules)),
  completed_by_state input h,
  length-unique_pos (lesson_ids input.modules),
)

-- A completed course shows 100 percent.
pub completed_percent :
    (r : Doubles) (input : LearningProgressInput)
    → (derive_enrollment_view r input).0 ≡ completed
    → (derive_enrollment_view r input).1 ≡ 100
unfolding derive_enrollment_view
completed_percent r input h = ground (arith, percent_all r (length (unique_ids input)))
