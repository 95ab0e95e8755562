-- ===== src/Learning.antt =====
-- enrollments/learning-state.ts: the learning state that an enrollment stores as JSON.
-- A time stamp (an ISO text in the source, never empty) is a number of milliseconds. The JSON shape
-- that `parseLearningState` checks is the type `LearningState`.
pub mod Dict
pub mod Completion
pub mod View
use aivirteach_server.Common.{
  ℕ, Bool, true, false, String, Option, none, some, List, [], ◌∷◌, if◌then◌else◌, is_some, or_else,
  str_eq,
}
use Dict.{Object, lookup, assign}

pub record LessonLearningState : Type 0 where
  pub completed_at : Option ℕ
  pub first_completed_at : Option ℕ

pub record LearningState : Type 0 where
  pub schema_version : ℕ
  pub reading_lesson_id : Option String
  pub lessons : Object LessonLearningState
  pub completed_at : Option ℕ

abbrev pub empty_learning_state : LearningState
empty_learning_state = record {
  schema_version = 1;
  reading_lesson_id = none;
  lessons = [];
  completed_at = none;
}

unfoldable pub set_reading_position : LearningState → String → LearningState
set_reading_position state lesson_id = record state { reading_lesson_id = some lesson_id }

-- `previous?.firstCompletedAt`
abbrev pub first_completed : Option LessonLearningState → Option ℕ
first_completed none = none
first_completed (some previous) = previous.first_completed_at

unfoldable pub set_lesson_completion : LearningState → String → Bool → ℕ → LearningState
set_lesson_completion state lesson_id completed now =
    let previous = lookup lesson_id state.lessons in
    let completed_at : Option ℕ = if completed then some now else none in
    record state {
      lessons =
          assign lesson_id
            (record {
              completed_at = completed_at;
              first_completed_at =
                  or_else (first_completed previous) (if completed then completed_at else none);
            })
            state.lessons;
    }

unfoldable pub with_course_completion : LearningState → Option ℕ → LearningState
with_course_completion state completed_at = record state { completed_at = completed_at }

-- `Object.entries(lessons)`, filtered and mapped to the keys
pub completed_entries : Object LessonLearningState → List String
completed_entries [] = []
completed_entries ((id, lesson) ∷ m) =
    let rest = completed_entries m in if is_some lesson.completed_at then id ∷ rest else rest

unfoldable pub completed_lesson_ids : LearningState → List String
unfolding completed_entries
completed_lesson_ids state = completed_entries state.lessons

-- A JavaScript text is false when it is empty.
abbrev pub truthy : Option String → Bool
truthy none = false
truthy (some s) = if str_eq s "" then false else true

abbrev pub get_replacement : Option String → Object String → Option String
get_replacement none removed = none
get_replacement (some s) removed = if str_eq s "" then none else lookup s removed

unfoldable pub remap_reading_position : LearningState → Object String → LearningState
remap_reading_position state removed =
    let replacement = get_replacement state.reading_lesson_id removed in
    if truthy replacement then record state { reading_lesson_id = replacement } else state
