-- ===== src/Publishing/Tests.antt =====
-- A course of three lessons is published without its second one, while a learner is there.
use aivirteach_server.Common.{
  ◌≡◌, refl, String, true, not, ◌&&◌, some, List, [], ◌∷◌, arith, includes, is_some, All,
}
use aivirteach_server.Process.{committed, after}
use aivirteach_server.Learning.{empty_learning_state, remap_reading_position}
use aivirteach_server.Learning.Dict.{lookup, assign}
use aivirteach_server.Database.{Database}
use aivirteach_server.Database.Rows.{Enrollment}
use aivirteach_server.Enrollments.Pointers.{remap_each, remap_published_reading_pointers}
use aivirteach_server.Enrollments.{update_enrollment}
use aivirteach_server.Publishing.{remap_lessons, remap_removed_lessons}
use aivirteach_server.Publishing.Remap.{remap_removed_lessons-lookup}
use aivirteach_server.Publishing.Pointers.{move_pointers, IsRetained, move_pointers-IsRetained}

abbrev old_order : List String
old_order = "a" ∷ "b" ∷ "c" ∷ []

abbrev new_order : List String
new_order = "a" ∷ "c" ∷ []

removed_b : remap_removed_lessons old_order new_order ≡ ("b", "c") ∷ []
unfolding remap_removed_lessons remap_lessons lookup assign
removed_b = refl

remap_removed_lessons-lookup_example :
    (is_some (lookup "b" (remap_removed_lessons old_order new_order))
      ≡ (includes "b" old_order && not (includes "b" new_order)))
    × ((v : String)
        → lookup "b" (remap_removed_lessons old_order new_order) ≡ some v
        → includes v new_order ≡ true)
remap_removed_lessons-lookup_example =
    remap_removed_lessons-lookup old_order new_order (omega arith) "b"

abbrev reader : Enrollment
reader = record {
  id = 7;
  user_id = 1;
  course_id = 3;
  course_version_id = some 4;
  active = true;
  generation = 0;
  progress_revision = 5;
  learning_state = record empty_learning_state { reading_lesson_id = some "b" };
  created_at = 0;
}

abbrev library : Database
library = record {
  now = 9;
  next_id = 30;
  courses = [];
  enrollments = reader ∷ [];
  workspaces = [];
  provisions = [];
  snapshots = [];
  conversations = [];
  quota_ledger = [];
  activities = [];
  audit_events = [];
  background = [];
  broadcasts = [];
}

moved_reader : after library (move_pointers 3 old_order new_order library) ≡ record library {
  enrollments =
      record reader {
        learning_state = record empty_learning_state { reading_lesson_id = some "c" };
        progress_revision = 6;
      }
      ∷ [];
}
unfolding remap_published_reading_pointers remap_removed_lessons remap_lessons lookup assign
    remap_each update_enrollment remap_reading_position
moved_reader = refl

move_pointers-IsRetained_example :
    (w' : Database) × (move_pointers 3 old_order new_order library ≡ committed tt w')
    × All (IsRetained 3 old_order new_order) w'.enrollments
move_pointers-IsRetained_example =
    move_pointers-IsRetained 3 old_order new_order library (omega arith) refl refl (refl, tt)
