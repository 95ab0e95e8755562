-- ===== src/Enrollments/Tests.antt =====
-- A learner with two courses, a chat in one of them, and a lesson to complete.
use aivirteach_server.Common.{
  ◌*◌, ◌^◌, any, ℕ, ◌+◌, ◌≡◌, ◌⊎◌, refl, Bool, true, false, none, some, [], ◌∷◌, arith,
}
use aivirteach_server.Process.{Outcome, committed, after}
use aivirteach_server.Learning.{empty_learning_state, set_lesson_completion, with_course_completion}
use aivirteach_server.Learning.Dict.{lookup, assign}
use aivirteach_server.Learning.Completion.{is_completed}
use aivirteach_server.Learning.View.{Lesson, unique, lesson_ids}
use aivirteach_server.Database.{Database, update_enrollments, update_workspaces}
use aivirteach_server.Database.Rows.{
  Course, CourseVersion, Enrollment, Conversation, ConversationRole,
}
use aivirteach_server.TokenUsage.{
  TokenWeights, sum_granted, sum_taken, sum_usage, sum_usage_where, weighted_consumption, add_usage,
}
use aivirteach_server.TokenUsage.Double.{one, last_digit, nearest, ceil}
use aivirteach_server.Enrollments.{
  latest_published, find_owned, create_snapshot_row, update_enrollment, all_lessons,
}
use aivirteach_server.Enrollments.Active.{enroll, count_active, enroll_one_active, enroll_others}
use aivirteach_server.Enrollments.Progress.{Progress, completion, write_completion, write_progress}
use aivirteach_server.Enrollments.Progress.Current.{IsCurrent, write_progress-IsCurrent}
use aivirteach_server.Enrollments.Progress.Effect.{IsAdvanced, write_completion-effect}
use aivirteach_server.Enrollments.Restart.{
  SnapshotCommand, RestartResult, restart, settle_usage, charge, delete_conversations,
  is_in_conversation,
}
use aivirteach_server.Enrollments.Restart.Once.{IsRestarted, restart-IsRestarted}
use aivirteach_server.Enrollments.Settlement.{settled_usage, settle_usage-IsConserved}

abbrev lesson : Lesson
lesson = record { id = 40; content_id = "a"; title = "A"; activity_prompt = ""; assessments = [] }

abbrev version : CourseVersion
version = record {
  id = 4;
  version = 1;
  published_at = some 1;
  modules = record { id = 50; title = "m"; lessons = lesson ∷ [] } ∷ [];
}

abbrev course : Course
course = record {
  id = 3;
  slug = "git";
  title = "Git";
  description = "";
  published = true;
  versions = version ∷ [];
}

abbrev enrolled : ℕ → ℕ → ℕ → Bool → Enrollment
enrolled id user_id course_id active = record {
  id = id;
  user_id = user_id;
  course_id = course_id;
  course_version_id = some 4;
  active = active;
  generation = 0;
  progress_revision = 5;
  learning_state = empty_learning_state;
  created_at = 0;
}

abbrev reply : Conversation
reply = record {
  id = 20;
  enrollment_id = 1;
  thread_id = 1;
  role = ConversationRole.assistant;
  content = "hi";
  request_id = none;
  generation = some 0;
  course_version_id = some 4;
  lesson_content_id = none;
  context_ref = none;
  accepted_context = none;
  usage =
      some
        (record { input_cache_hit_tokens = 10; input_cache_miss_tokens = 20; output_tokens = 30 });
  created_at = 0;
}

abbrev school : Database
school = record {
  now = 1000;
  next_id = 30;
  courses = course ∷ [];
  enrollments = enrolled 1 7 3 true ∷ enrolled 2 7 6 false ∷ enrolled 5 8 3 true ∷ [];
  workspaces = [];
  provisions = [];
  snapshots = [];
  conversations = reply ∷ [];
  quota_ledger = [];
  activities = [];
  audit_events = [];
  background = [];
  broadcasts = [];
}

enroll_one_active_example : count_active 7 (after school (enroll 7 6 8 school)).enrollments ≡ 1
enroll_one_active_example = enroll_one_active 7 6 8 school (omega arith)

enroll_others_example :
    count_active 8 (after school (enroll 7 6 8 school)).enrollments
    ≡ count_active 8 school.enrollments
enroll_others_example = enroll_others 7 8 6 8 school (λ e. omega (arith, e))

-- 0.02, 1 and 4 as doubles, 0.02 being 5764607523034235 * 2^-58
abbrev weights : TokenWeights
weights = record {
  input_cache_hit = 5_764_607_523_034_235 * 2 ^ 1016;
  input_cache_miss = 2 ^ 1074;
  output = 2 ^ 1076;
}

settle_usage-IsConserved_example :
    let v = after school (settle_usage weights 7 (enrolled 1 7 3 true) school) in
    (sum_usage 7 school
      ≡ add_usage (some (settled_usage (enrolled 1 7 3 true) school)) (sum_usage 7 v))
    × (any (is_in_conversation (enrolled 1 7 3 true)) v.conversations ≡ false)
    × (sum_taken 7 v.quota_ledger
        ≡ sum_taken 7 school.quota_ledger
          + weighted_consumption (settled_usage (enrolled 1 7 3 true) school) weights)
    × (sum_granted 7 v.quota_ledger ≡ sum_granted 7 school.quota_ledger)
settle_usage-IsConserved_example =
    settle_usage-IsConserved weights 7 (enrolled 1 7 3 true) school refl

-- The learner completes the only lesson.
outcome : Outcome Database Progress
unfolding write_completion update_enrollment create_snapshot_row set_lesson_completion
    with_course_completion unique lesson_ids is_completed lookup assign
outcome = write_completion (enrolled 1 7 3 true) version lesson "a" 5 true school

progress_of : Outcome Database Progress → Progress
progress_of (committed p w) = p
progress_of _ = record { enrollment = enrolled 1 7 3 true; version = version }

written :
    write_completion (enrolled 1 7 3 true) version lesson "a" 5 true school
    ≡ committed (progress_of outcome) (after school outcome)
unfolding outcome progress_of write_completion update_enrollment create_snapshot_row
    set_lesson_completion with_course_completion unique lesson_ids is_completed lookup assign
written = refl

write_completion-effect_example :
    (is_completed "a" (progress_of outcome).enrollment.learning_state ≡ true)
    × ((((progress_of outcome).enrollment ≡ enrolled 1 7 3 true) × (after school outcome ≡ school))
        ⊎ IsAdvanced (enrolled 1 7 3 true) 5 school (progress_of outcome) (after school outcome))
write_completion-effect_example =
    write_completion-effect (enrolled 1 7 3 true) version lesson "a" 5 true school
      (after school outcome) (progress_of outcome) refl written

written_progress :
    write_progress 7 "git" "a" (completion 0 5 4 true) school
    ≡ committed (progress_of outcome) (after school outcome)
unfolding outcome progress_of write_progress write_completion update_enrollment create_snapshot_row
    set_lesson_completion latest_published all_lessons with_course_completion unique lesson_ids
    is_completed lookup assign
written_progress = refl

write_progress-IsCurrent_example : IsCurrent 7 "git" (completion 0 5 4 true) school
write_progress-IsCurrent_example =
    write_progress-IsCurrent 7 "git" "a" (completion 0 5 4 true) school (after school outcome)
      (progress_of outcome) written_progress

restart_command : SnapshotCommand
restart_command = record { request_id = "r1"; generation = 0; revision = 5; course_version_id = 4 }

-- The learner restarts the first course.
restarted : Outcome Database RestartResult
unfolding restart_command restart latest_published create_snapshot_row update_enrollments
    update_enrollment settle_usage charge delete_conversations update_workspaces sum_usage_where
    weighted_consumption one last_digit nearest ceil
restarted = restart weights 7 3 restart_command school

result_of : Outcome Database RestartResult → RestartResult
result_of (committed r w) = r
result_of _ = record {
  enrollment = enrolled 1 7 3 true;
  version = version;
  waiting = false;
  replay = false;
}

restarted_once :
    restart weights 7 3 restart_command school
    ≡ committed (result_of restarted) (after school restarted)
unfolding restarted result_of restart_command restart latest_published create_snapshot_row
    update_enrollments update_enrollment settle_usage charge delete_conversations update_workspaces
    sum_usage_where weighted_consumption one last_digit nearest ceil
restarted_once = refl

restart-IsRestarted_example :
    (e : Enrollment) × (find_owned 7 3 school ≡ some e)
    × IsRestarted restart_command e school (result_of restarted) (after school restarted)
restart-IsRestarted_example =
    restart-IsRestarted weights 7 3 restart_command school (after school restarted)
      (result_of restarted) (refl, (refl, (refl, tt))) restarted_once
