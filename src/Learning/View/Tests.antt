-- ===== src/Learning/View/Tests.antt =====
-- A course of two lessons that a learner has completed.
use aivirteach_server.Common.{
  String, ℕ, zero, suc, ◌+◌, ◌*◌, ◌/◌, ◌≤◌, ◌<◌, ◌≡◌, ◌↔◌, refl, true, some, [], ◌∷◌, arith, length,
  ap,
}
use native.Mathlib.Nat.{mul-div_cancel_left}
use aivirteach_server.Learning.{completed_entries, completed_lesson_ids}
use aivirteach_server.Learning.Completion.{is_completed}
use aivirteach_server.Learning.View.{
  Lesson, Doubles, LearningProgressInput, EnrollmentStatus, completed, derive_enrollment_view,
  compute_progress_percent, percent, lesson_ids, unique,
}
use aivirteach_server.Learning.View.Status.{
  compute_progress_percent-le, completed_iff, completed_percent, every_lesson,
}

-- Fixed point with twenty binary digits, each result rounded down.
abbrev unit : ℕ
unit = 1_048_576

pub fixed_divided : ℕ → ℕ → ℕ
fixed_divided x y = x * unit / y

pub fixed_times : ℕ → ℕ → ℕ
fixed_times x y = x * y / unit

pub fixed_round : ℕ → ℕ
fixed_round x = (2 * x + unit) / (2 * unit)

pub fixed_divided_mono : (x y z : ℕ) → x ≤ y → fixed_divided x z ≤ fixed_divided y z
unfolding fixed_divided
fixed_divided_mono x y zero h = omega arith
fixed_divided_mono x y (suc z) h = grind arith

pub fixed_times_mono : (x y n : ℕ) → x ≤ y → fixed_times x (n * unit) ≤ fixed_times y (n * unit)
unfolding fixed_times
fixed_times_mono x y n h = grind arith

pub fixed_divided_self : (n : ℕ) → 0 < n → fixed_divided (n * unit) (n * unit) ≡ 1 * unit
unfolding fixed_divided
fixed_divided_self n h = mul-div_cancel_left unit (omega arith)

pub fixed_times_one : (x : ℕ) → fixed_times (1 * unit) x ≡ x
unfolding fixed_times
fixed_times_one x = mul-div_cancel_left x (omega arith)

pub fixed_round_mono : (x y : ℕ) → x ≤ y → fixed_round x ≤ fixed_round y
unfolding fixed_round
fixed_round_mono x y h = omega arith

pub fixed_round_whole : (n : ℕ) → fixed_round (n * unit) ≡ n
unfolding fixed_round
fixed_round_whole n = omega arith

abbrev pub fixed : Doubles
fixed = record {
  Carrier = ℕ;
  of = λ n. n * unit;
  divided = fixed_divided;
  times = fixed_times;
  round = fixed_round;
  le = λ x y. x ≤ y;
  of_mono = λ a b h. omega arith;
  divided_mono = fixed_divided_mono;
  times_mono = fixed_times_mono;
  round_mono = fixed_round_mono;
  divided_self = fixed_divided_self;
  times_one = fixed_times_one;
  round_whole = λ n h. fixed_round_whole n;
}

abbrev lesson : ℕ → String → Lesson
lesson id content_id = record {
  id = id;
  content_id = content_id;
  title = "T";
  activity_prompt = "";
  assessments = [];
}

abbrev finished : LearningProgressInput
finished = record {
  learning_state = record {
    schema_version = 1;
    reading_lesson_id = some "b";
    lessons =
        ("a", record { completed_at = some 5; first_completed_at = some 5 })
        ∷ ("b", record { completed_at = some 9; first_completed_at = some 6 })
        ∷ [];
    completed_at = some 9;
  };
  modules = record { id = 3; title = "m"; lessons = lesson 1 "a" ∷ lesson 2 "b" ∷ [] } ∷ [];
  active = true;
}

finished_view : derive_enrollment_view fixed finished ≡ (completed, 100)
unfolding derive_enrollment_view completed_lesson_ids completed_entries lesson_ids unique percent
    fixed_divided fixed_times fixed_round
finished_view = refl

finished_status : (derive_enrollment_view fixed finished).0 ≡ completed
finished_status = ap (λ (v : EnrollmentStatus × ℕ). v.0) finished_view

compute_progress_percent-le_example : compute_progress_percent fixed finished ≤ 100
compute_progress_percent-le_example = compute_progress_percent-le fixed finished

completed_iff_example : ((derive_enrollment_view fixed finished).0 ≡ completed) ↔ (
    (0 < length (lesson_ids finished.modules))
    × (every_lesson (λ id. is_completed id finished.learning_state) finished ≡ true))
completed_iff_example = completed_iff fixed finished (refl, (refl, tt))

completed_percent_example : (derive_enrollment_view fixed finished).1 ≡ 100
completed_percent_example = completed_percent fixed finished finished_status
