-- ===== src/Learning/View.antt =====
-- enrollments/learning-progress-view.ts: what the learner sees of the learning state.
pub mod Status
pub mod Tests
use aivirteach_server.Common.{
  ℕ, zero, suc, ◌≤◌, ◌<◌, ◌≡◌, Bool, true, false, not, ◌&&◌, ◌||◌, String, Option, none, some, List,
  [], ◌∷◌, ◌++◌, arith, if◌then◌else◌, ltb, ◌==◌, is_some, str_eq, length, keep, any, includes, map,
}
use aivirteach_server.Learning.{LearningState, completed_lesson_ids, truthy}

pub record Assessment : Type 0 where
  pub expected_result : String
  pub success_criteria : List String
  pub common_failures : List String

pub record Lesson : Type 0 where
  pub id : ℕ
  pub content_id : String
  pub title : String
  pub activity_prompt : String
  pub assessments : List Assessment

pub record CourseModule : Type 0 where
  pub id : ℕ
  pub title : String
  pub lessons : List Lesson

pub data EnrollmentStatus : Type 0 where
  not_started in_progress completed : EnrollmentStatus

pub record LearningProgressInput : Type 0 where
  pub learning_state : LearningState
  pub modules : List CourseModule
  pub active : Bool

-- The operations on doubles that the percentage is calculated with, and what IEEE 754 and the
-- language say of them: `n / n` is exactly 1 and `1 * x` is `x`, `Math.round` of a whole number is
-- that number, and every operation, being correctly rounded, keeps the order. The numbers are counts
-- of lessons, which are exact in a double.
pub record Doubles : Type 1 where
  pub Carrier : Type 0
  pub of : ℕ → Carrier
  pub divided : Carrier → Carrier → Carrier
  pub times : Carrier → Carrier → Carrier
  pub round : Carrier → ℕ
  pub le : Carrier → Carrier → Type 0
  pub of_mono : (a b : ℕ) → a ≤ b → le (of a) (of b)
  pub divided_mono : (x y z : Carrier) → le x y → le (divided x z) (divided y z)
  pub times_mono : (x y : Carrier) (n : ℕ) → le x y → le (times x (of n)) (times y (of n))
  pub round_mono : (x y : Carrier) → le x y → round x ≤ round y
  pub divided_self : (n : ℕ) → 0 < n → divided (of n) (of n) ≡ of 1
  pub times_one : (x : Carrier) → times (of 1) x ≡ x
  pub round_whole : (n : ℕ) → n ≤ 9_007_199_254_740_992 → round (of n) ≡ n

-- `Math.round((completed / total) * 100)`
unfoldable pub percent : Doubles → ℕ → ℕ → ℕ
percent r done total = r.round (r.times (r.divided (r.of done) (r.of total)) (r.of 100))

-- `[...new Set(ids)]`
unfoldable pub unique : List String → List String
unique [] = []
unique (x ∷ xs) = x ∷ keep (λ y. not (str_eq y x)) (unique xs)

-- `modules.flatMap((m) => m.lessons.map((l) => l.contentId))`
unfoldable pub lesson_ids : List CourseModule → List String
lesson_ids [] = []
lesson_ids (m ∷ ms) = map (λ (l : Lesson). l.content_id) m.lessons ++ lesson_ids ms

abbrev pub unique_ids : LearningProgressInput → List String
unique_ids input = unique (lesson_ids input.modules)

unfoldable pub completed_ids : LearningProgressInput → List String
completed_ids input =
    let completed = completed_lesson_ids input.learning_state in
    keep (λ id. includes id completed) (unique_ids input)

unfoldable pub compute_progress_percent : Doubles → LearningProgressInput → ℕ
unfolding completed_ids percent
compute_progress_percent r input =
    let total = length (unique_ids input) in
    if total == 0 then 0 else percent r (length (completed_ids input)) total

-- `lesson.contentId === readingLessonId`
abbrev is_reading : Option String → Lesson → Bool
is_reading none l = false
is_reading (some id) l = str_eq l.content_id id

find_title : Option String → List CourseModule → String
find_title reading [] = ""
find_title reading (m ∷ ms) =
    let rest = find_title reading ms in if any (is_reading reading) m.lessons then m.title else rest

pub derive_current_module_title : LearningProgressInput → String
unfolding find_title
derive_current_module_title input = find_title input.learning_state.reading_lesson_id input.modules

unfoldable pub derive_enrollment_view : Doubles → LearningProgressInput → EnrollmentStatus × ℕ
unfolding compute_progress_percent
derive_enrollment_view r input =
    let progress_percent = compute_progress_percent r input in
    let ids = unique_ids input in
    let complete = ltb 0 (length ids) && length (completed_ids input) == length ids in
    (
      if complete
          then completed
          else if input.active
              || truthy input.learning_state.reading_lesson_id
              || ltb 0 progress_percent
              || is_some input.learning_state.completed_at
          then in_progress
          else not_started,
      progress_percent,
    )
