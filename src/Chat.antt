-- ===== src/Chat.antt =====
-- chat/chat.service.ts and the types of chat/agent-client.ts: a learner's questions to the agent. The
-- agent is the other party of a request, and so is the consumer of the stream of events: `emit` is
-- `yield`. What `JSON.parse` and the schema make of a frame comes with the frame.
pub mod Commits
pub mod Prepare
pub mod Reply
pub mod Stream
pub mod Once
pub mod Talks
pub mod Quiet
pub mod Protocol
pub mod Sse
pub mod Charges
pub mod Billing
mod Tests
use aivirteach_server.Common.{
  ℕ, suc, ◌+◌, Bool, true, false, ◌&&◌, not, String, Option, none, some, List, [], ◌∷◌,
  if◌then◌else◌, ◌==◌, str_eq, any, find_first,
}
use aivirteach_server.Process.{
  Process, pure, fail, ◌>>=◌, query, HttpError, stale_enrollment, forbidden, unique_violation,
  committed, aborted,
}
use aivirteach_server.Database.{
  Database, Transaction, ◌>>=◌ as then_do, return, throw, update_enrollments,
}
use aivirteach_server.Database.Rows.{
  Enrollment, Conversation, ConversationRole, DiagnoseContext, DiagnoseResponse, LabId,
}

pub record ChatContext : Type 0 where
  pub course_version_id : ℕ
  pub lesson_id : String
  pub generation : ℕ

pub record SendChatMessageInput : Type 0 where
  pub request_id : String
  pub text : String
  pub context : ChatContext

pub data Speaker : Type 0 where
  student tutor : Speaker

pub record ChatMessage : Type 0 where
  pub id : ℕ
  pub user_id : ℕ
  pub thread_id : ℕ
  pub role : Speaker
  pub text : String
  pub created_at : ℕ

pub data ProgressData : Type 0 where
  phase code forwarded : String → ProgressData

pub data ChatStreamEvent : Type 0 where
  progress : String → ProgressData → ChatStreamEvent
  reply_not_saved : ChatStreamEvent
  complete : (student_message tutor_message : ChatMessage) → ChatStreamEvent

abbrev pub reply_persisting : ChatStreamEvent
reply_persisting = progress "reply_persisting" (phase "persistence")

pub record DiagnoseRequest : Type 0 where
  pub request_id : String
  pub question : String
  pub lab_id : LabId
  pub context : DiagnoseContext

-- A frame's text: no JSON, or JSON and the response that the schema finds in it, if any.
pub data FrameData : Type 0 where
  malformed : FrameData
  parsed : String → Option DiagnoseResponse → FrameData

pub record Frame : Type 0 where
  pub event : String
  pub frame_data : FrameData

-- `diagnose` may throw. `diagnose_stream` gives the frames before the end, or before it throws.
pub data ChatRequest : Type 0 where
  diagnose diagnose_stream : DiagnoseRequest → ChatRequest
  emit : ChatStreamEvent → ChatRequest

abbrev pub ChatReply : ChatRequest → Type 0
ChatReply (diagnose d) = Option DiagnoseResponse
ChatReply (diagnose_stream d) = List Frame
ChatReply (emit e) = Unit {0}

abbrev pub ChatTask : Type 0 → Type 0
ChatTask A = Process Database ChatRequest ChatReply A

pub data ResolvedDiagnoseRequest : Type 0 where
  resolved : LabId → DiagnoseContext → ResolvedDiagnoseRequest
  unresolved : (fallback_message : String) → ResolvedDiagnoseRequest

pub record AcceptedChat : Type 0 where
  pub user_id : ℕ
  pub enrollment_id : ℕ
  pub command : SendChatMessageInput
  pub student_row : Conversation
  pub request : ResolvedDiagnoseRequest

abbrev pub is_stale_error : HttpError → Bool
is_stale_error stale_enrollment = true
is_stale_error _ = false

-- enrollments/assert-current-enrollment.ts: the update locks the row
abbrev pub is_current : ℕ → ℕ → Enrollment → Bool
is_current enrollment_id generation e =
    e.id == enrollment_id && e.generation == generation && e.active

unfoldable pub assert_current_enrollment : ℕ → ℕ → Transaction (Unit {0})
assert_current_enrollment enrollment_id generation =
    then_do
      (update_enrollments (is_current enrollment_id generation) (λ e. record e { active = true }))
      (λ count. if count == 0 then throw stale_enrollment else return tt)

abbrev owned_by : ℕ → Option Enrollment → ChatTask Enrollment
owned_by user_id none = fail forbidden
owned_by user_id (some e) = if e.user_id == user_id then pure e else fail forbidden

unfoldable pub require_owned_enrollment : ℕ → ℕ → ChatTask Enrollment
require_owned_enrollment user_id enrollment_id =
    query (λ w. find_first (λ (e : Enrollment). e.id == enrollment_id) w.enrollments)
    >>= owned_by user_id

abbrev pub same_role : ConversationRole → ConversationRole → Bool
same_role ConversationRole.user ConversationRole.user = true
same_role ConversationRole.assistant ConversationRole.assistant = true
same_role _ _ = false

abbrev pub has_generation : ℕ → Option ℕ → Bool
has_generation g none = false
has_generation g (some h) = h == g

abbrev pub has_request : String → Option String → Bool
has_request r none = false
has_request r (some s) = str_eq s r

-- `where: { enrollmentId, generation, requestId, role }`; a null matches nothing
abbrev pub is_message : ℕ → ℕ → String → ConversationRole → Conversation → Bool
is_message enrollment_id generation request_id role c =
    c.enrollment_id == enrollment_id
    && has_generation generation c.generation
    && has_request request_id c.request_id
    && same_role c.role role

-- The unique index over these four columns, which nulls do not fall under.
abbrev pub collides : Conversation → Conversation → Bool
collides row c = elim row.generation [
  | none ↦ false
  | some g ↦ elim row.request_id [
    | none ↦ false
    | some r ↦ is_message row.enrollment_id g r row.role c
  ]
]

-- conversation.create: the row from its new id and the time
unfoldable pub create_conversation : (ℕ → ℕ → Conversation) → Transaction Conversation
create_conversation make w =
    let row = make w.next_id w.now in
    if any (collides row) w.conversations
    then aborted unique_violation
    else committed row (record w { conversations = row ∷ w.conversations; next_id = suc w.next_id })

abbrev speaker_of : ConversationRole → Speaker
speaker_of ConversationRole.user = student
speaker_of ConversationRole.assistant = tutor

abbrev pub to_chat_message : ℕ → Conversation → ChatMessage
to_chat_message user_id row = record {
  id = row.id;
  user_id = user_id;
  thread_id = row.thread_id;
  role = speaker_of row.role;
  text = row.content;
  created_at = row.created_at;
}
