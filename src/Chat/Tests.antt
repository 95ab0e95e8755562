-- ===== src/Chat/Tests.antt =====
-- A learner asks about the only lesson of a course.
use aivirteach_server.Common.{◌*◌, ◌^◌, ◌≡◌, ◌⊎◌, any, refl, true, none, some, [], ◌∷◌}
use aivirteach_server.Process.{Outcome, committed, aborted, after, conflict, stale_enrollment}
use aivirteach_server.Process.Drive.{drive}
use aivirteach_server.Learning.{empty_learning_state}
use aivirteach_server.Learning.View.{Lesson}
use aivirteach_server.Database.{Database, update_enrollments, update_workspaces}
use aivirteach_server.Database.Rows.{
  Course, CourseVersion, Enrollment, Workspace, DiagnoseResponse, DiagnoseStatus, TokenUsage,
  running, initial,
}
use aivirteach_server.TokenUsage.{TokenWeights}
use aivirteach_server.Enrollments.{latest_published}
use aivirteach_server.Chat.{
  SendChatMessageInput, AcceptedChat, ChatRequest, ChatReply, diagnose, diagnose_stream, emit,
  assert_current_enrollment, create_conversation,
}
use aivirteach_server.Chat.Prepare.{
  flattened_lessons, find_index, build_diagnose_context, accept_message, is_question,
}
use aivirteach_server.Chat.Reply.{agent_row, save_agent_reply}
use aivirteach_server.Chat.Stream.{stream_prepared}
use aivirteach_server.Chat.Once.{accept_message_once}
use aivirteach_server.Chat.Talks.{IsStream, has_current}
use aivirteach_server.Chat.Protocol.{stream_prepared-IsStream}
use aivirteach_server.Chat.Charges.{IsCharged}
use aivirteach_server.Chat.Billing.{is_ended, save_agent_reply-IsCharged}

abbrev lesson : Lesson
lesson = record {
  id = 40;
  content_id = "a";
  title = "A";
  activity_prompt = "one\n\n two ";
  assessments = [];
}

abbrev version : CourseVersion
version = record {
  id = 4;
  version = 1;
  published_at = some 1;
  modules = record { id = 50; title = "m"; lessons = lesson ∷ [] } ∷ [];
}

abbrev course : Course
course = record {
  id = 3;
  slug = "git";
  title = "Git";
  description = "";
  published = true;
  versions = version ∷ [];
}

abbrev enrolled : Enrollment
enrolled = record {
  id = 1;
  user_id = 7;
  course_id = 3;
  course_version_id = some 4;
  active = true;
  generation = 0;
  progress_revision = 5;
  learning_state = empty_learning_state;
  created_at = 0;
}

abbrev computer : Workspace
computer = record {
  id = 10;
  enrollment_id = 1;
  status = running;
  error_message = none;
  lab_id = some (initial 10);
  rdp_port = some 3389;
  rdp_username = some "student";
  last_seen_at = some 900;
  provision_started_at = none;
  provision_generation = 0;
  reset_retry_at = none;
  created_at = 1;
  updated_at = 900;
}

abbrev classroom : Database
classroom = record {
  now = 1000;
  next_id = 30;
  courses = course ∷ [];
  enrollments = enrolled ∷ [];
  workspaces = computer ∷ [];
  provisions = [];
  snapshots = [];
  conversations = [];
  quota_ledger = [];
  activities = [];
  audit_events = [];
  background = [];
  broadcasts = [];
}

abbrev question : SendChatMessageInput
question = record {
  request_id = "q1";
  text = "why?";
  context = record { course_version_id = 4; lesson_id = "a"; generation = 0 };
}

accepted : Outcome Database AcceptedChat
unfolding accept_message assert_current_enrollment update_enrollments build_diagnose_context
    latest_published flattened_lessons find_index update_workspaces create_conversation
accepted = accept_message 7 enrolled question classroom

is_accepted :
    (chat : AcceptedChat) × (accept_message 7 enrolled question classroom
      ≡ committed chat (after classroom accepted))
unfolding accepted accept_message assert_current_enrollment update_enrollments
    build_diagnose_context latest_published flattened_lessons find_index update_workspaces
    create_conversation
is_accepted = (_, refl)

-- a day on
abbrev later : Database → Database
later w = record w { now = 86_401_000 }

accept_message_once_example :
    (any (is_question 1 question) (after classroom accepted).conversations ≡ true)
    × (accept_message 7 enrolled question (after classroom accepted) ≡ aborted conflict)
    × ((accept_message 7 enrolled question (later (after classroom accepted)) ≡ aborted conflict)
        ⊎ (accept_message 7 enrolled question (later (after classroom accepted))
            ≡ aborted stale_enrollment))
unfolding accepted
accept_message_once_example =
    accept_message_once 7 enrolled question classroom (after classroom accepted)
      (later (after classroom accepted)) is_accepted.0 is_accepted.1 refl

-- 0.02, 1 and 4 as doubles, 0.02 being 5764607523034235 * 2^-58
abbrev weights : TokenWeights
weights = record {
  input_cache_hit = 5_764_607_523_034_235 * 2 ^ 1016;
  input_cache_miss = 2 ^ 1074;
  output = 2 ^ 1076;
}

stream_prepared-IsStream_example :
    IsStream (λ w. Unit {0}) (Unit {0}) (stream_prepared weights is_accepted.0)
    × IsStream
        (λ w.
          has_current is_accepted.0.enrollment_id is_accepted.0.command.context.generation w ≡ true)
        ⊥
        (stream_prepared weights is_accepted.0)
stream_prepared-IsStream_example = stream_prepared-IsStream weights is_accepted.0

abbrev cost : TokenUsage
cost = record { input_cache_hit_tokens = 10; input_cache_miss_tokens = 20; output_tokens = 30 }

abbrev response : DiagnoseResponse
response = record {
  request_id = "q1";
  status = DiagnoseStatus.completed;
  answer = "because";
  details = "{}";
  usage = some cost;
}

-- An agent that does not answer.
abbrev silent : (q : ChatRequest) → ChatReply q
silent (diagnose d) = none
silent (diagnose_stream d) = []
silent (emit e) = tt

save_agent_reply-IsCharged_example :
    IsCharged
      (is_ended 1 0 (after classroom accepted))
      weights
      7
      cost
      (after classroom accepted)
      (drive silent 4 (after classroom accepted) (
        save_agent_reply weights 7 1 0 "q1" response
          (agent_row 1 is_accepted.0.student_row response))).0
unfolding accepted is_accepted
save_agent_reply-IsCharged_example =
    save_agent_reply-IsCharged silent weights 7 1 0 "q1" response is_accepted.0.student_row
      (after classroom accepted) cost refl refl refl refl
