-- ===== src/Enrollments/View/Tests.antt =====
-- The progress of a learner who has completed one of two lessons.
use aivirteach_server.Common.{ℕ, ◌<◌, ◌≡◌, ◌↔◌, refl, true, String, none, some, [], ◌∷◌}
use aivirteach_server.Learning.{empty_learning_state, completed_lesson_ids}
use aivirteach_server.Learning.View.{Lesson, completed, unique, lesson_ids, completed_ids}
use aivirteach_server.Learning.View.Tests.{fixed}
use aivirteach_server.Database.Rows.{CourseVersion, Enrollment}
use aivirteach_server.Enrollments.View.{progress_snapshot}
use aivirteach_server.Enrollments.View.Next.{progress_snapshot-next}

abbrev lesson : ℕ → String → Lesson
lesson id content_id = record {
  id = id;
  content_id = content_id;
  title = "A";
  activity_prompt = "";
  assessments = [];
}

abbrev version : CourseVersion
version = record {
  id = 4;
  version = 1;
  published_at = some 1;
  modules = record { id = 50; title = "m"; lessons = lesson 40 "a" ∷ lesson 41 "b" ∷ [] } ∷ [];
}

abbrev learner : Enrollment
learner = record {
  id = 1;
  user_id = 7;
  course_id = 3;
  course_version_id = some 4;
  active = true;
  generation = 2;
  progress_revision = 5;
  learning_state = record empty_learning_state {
    reading_lesson_id = some "a";
    lessons = ("a", record { completed_at = some 9; first_completed_at = some 9 }) ∷ [];
  };
  created_at = 0;
}

offered : (progress_snapshot fixed learner version "git" []).next_lesson_id ≡ some "b"
unfolding progress_snapshot unique lesson_ids completed_ids completed_lesson_ids
offered = refl

progress_snapshot-next_example :
    ((progress_snapshot fixed learner version "git" []).status ≡ completed) ↔ (
      (0 < (progress_snapshot fixed learner version "git" []).total_lessons)
      × ((progress_snapshot fixed learner version "git" []).next_lesson_id ≡ none))
progress_snapshot-next_example = progress_snapshot-next fixed learner version "git" []
