-- ===== src/Learning/Completion.antt =====
-- What a change of a lesson's completion does to the learning state.
use aivirteach_server.Common.{
  ◌≡◌, refl, Bool, false, String, Option, none, some, [], ◌∷◌, arith, eq_iff, includes, is_some,
}
use aivirteach_server.Learning.Dict.{Object, lookup, has_key, IsObject}
use aivirteach_server.Learning.{
  LessonLearningState, LearningState, completed_entries, completed_lesson_ids,
}

-- The completion of a lesson, read from the stored state.
abbrev pub lesson_completed : Option LessonLearningState → Bool
lesson_completed none = false
lesson_completed (some l) = is_some l.completed_at

unfoldable pub is_completed : String → LearningState → Bool
is_completed id state = lesson_completed (lookup id state.lessons)

-- An id that is no key is not among the completed ones.
absent :
    (id : String) (m : Object LessonLearningState)
    → has_key id m ≡ false
    → includes id (completed_entries m) ≡ false
unfolding completed_entries
absent id [] h = refl
absent id ((j, l) ∷ m) h = ground (arith, absent id m, eq_iff j id)

includes-completed_entries :
    (id : String) (m : Object LessonLearningState)
    → IsObject m
    → includes id (completed_entries m) ≡ lesson_completed (lookup id m)
unfolding completed_entries lookup
includes-completed_entries id [] h = refl
includes-completed_entries id ((j, l) ∷ m) h =
    ground (arith, includes-completed_entries id m h.1, eq_iff j id, absent j m h.0)

pub includes-completed_lesson_ids :
    (id : String) (state : LearningState)
    → IsObject state.lessons
    → includes id (completed_lesson_ids state) ≡ is_completed id state
unfolding completed_lesson_ids is_completed
includes-completed_lesson_ids id state h = includes-completed_entries id state.lessons h
