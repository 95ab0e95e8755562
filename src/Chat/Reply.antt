-- ===== src/Chat/Reply.antt =====
-- chat/chat.service.ts: `respondWithFallback`, `saveAgentReply` and `sendMessage`.
use aivirteach_server.Common.{
  ℕ, Bool, false, ◌&&◌, String, Option, none, some, ◌∷◌, if◌then◌else◌, ltb, any, str_eq, ◌==◌,
}
use aivirteach_server.Process.{pure, fail, attempt, transaction, execute, send, ◌>>=◌, ◌>>◌}
use aivirteach_server.Database.{Database, Transaction, ◌>>◌ as and_then}
use aivirteach_server.Database.Rows.{
  Conversation, ConversationRole, DiagnoseContext, DiagnoseResponse, TokenUsage, QuotaLedger,
  LedgerId, generated, stale_agent, LabId,
}
use aivirteach_server.TokenUsage.{TokenWeights, weighted_consumption}
use aivirteach_server.Chat.{
  SendChatMessageInput, ChatMessage, ChatTask, diagnose, DiagnoseRequest, resolved, unresolved,
  ResolvedDiagnoseRequest, AcceptedChat, is_stale_error, assert_current_enrollment,
  create_conversation, to_chat_message,
}
use aivirteach_server.Chat.Prepare.{prepare_message}

-- An assistant's row, with `contextColumns` of the question.
abbrev pub tutor_row :
    ℕ → Conversation → String → Option DiagnoseResponse → Option TokenUsage → ℕ → ℕ → Conversation
tutor_row enrollment_id question content context_ref usage id now = record {
  id = id;
  enrollment_id = enrollment_id;
  thread_id = enrollment_id;
  role = ConversationRole.assistant;
  content = content;
  request_id = question.request_id;
  generation = question.generation;
  course_version_id = question.course_version_id;
  lesson_content_id = question.lesson_content_id;
  context_ref = context_ref;
  accepted_context = question.accepted_context;
  usage = usage;
  created_at = now;
}

abbrev pub agent_row : ℕ → Conversation → DiagnoseResponse → ℕ → ℕ → Conversation
agent_row enrollment_id question response =
    tutor_row enrollment_id question response.answer (some response) response.usage

-- `createCurrentConversation`
unfoldable pub create_current : ℕ → ℕ → (ℕ → ℕ → Conversation) → Transaction Conversation
create_current enrollment_id generation make =
    and_then (assert_current_enrollment enrollment_id generation) (create_conversation make)

unfoldable pub respond_with_fallback :
    ℕ → ℕ → ℕ → Conversation → String → ChatTask (ChatMessage × ChatMessage)
respond_with_fallback user_id enrollment_id generation question message = do
  tutor ←
      transaction (
        create_current enrollment_id generation
          (tutor_row enrollment_id question message none none))
  pure (to_chat_message user_id question, to_chat_message user_id tutor)

abbrev pub same_ledger_id : LedgerId → LedgerId → Bool
same_ledger_id (generated i) (generated j) = i == j
same_ledger_id (stale_agent e g r) (stale_agent f h s) = e == f && g == h && str_eq r s
same_ledger_id _ _ = false

-- quotaLedger.upsert with an empty update
unfoldable pub upsert_charge : LedgerId → ℕ → ℕ → Database → Database
upsert_charge id user_id consumed w =
    if any (λ (l : QuotaLedger). same_ledger_id l.id id) w.quota_ledger then w else record w {
      quota_ledger =
          record { id = id; user_id = user_id; tokens_granted = 0; tokens_taken = consumed }
          ∷ w.quota_ledger;
    }

-- A reply that comes after its generation has ended is charged to the ledger.
unfoldable pub charge_stale :
    TokenWeights → LedgerId → ℕ → Bool → Option TokenUsage → ChatTask (Unit {0})
charge_stale weights id user_id stale none = pure tt
charge_stale weights id user_id stale (some usage) =
    let consumed = weighted_consumption usage weights in
    if stale && ltb 0 consumed then execute (upsert_charge id user_id consumed) else pure tt

unfoldable pub save_agent_reply :
    TokenWeights
    → ℕ
    → ℕ
    → ℕ
    → String
    → DiagnoseResponse
    → (ℕ → ℕ → Conversation)
    → ChatTask Conversation
save_agent_reply weights user_id enrollment_id generation request_id response make =
    attempt (transaction (create_current enrollment_id generation make)) pure (λ e.
      charge_stale weights (stale_agent enrollment_id generation request_id) user_id
        (is_stale_error e) response.usage
      >> fail e)

abbrev pub unavailable : String
unavailable = "助教暂时不可用，请稍后再试。"

abbrev pub diagnose_request : SendChatMessageInput → LabId → DiagnoseContext → DiagnoseRequest
diagnose_request command lab_id context = record {
  request_id = command.request_id;
  question = command.text;
  lab_id = lab_id;
  context = context;
}

abbrev pub answered :
    TokenWeights → AcceptedChat → Option DiagnoseResponse → ChatTask (ChatMessage × ChatMessage)
answered weights chat none =
    respond_with_fallback chat.user_id chat.enrollment_id chat.command.context.generation
      chat.student_row unavailable
answered weights chat (some response) = do
  tutor ←
      save_agent_reply weights chat.user_id chat.enrollment_id chat.command.context.generation
        chat.command.request_id response (agent_row chat.enrollment_id chat.student_row response)
  pure (to_chat_message chat.user_id chat.student_row, to_chat_message chat.user_id tutor)

abbrev pub ask :
    TokenWeights → AcceptedChat → ResolvedDiagnoseRequest → ChatTask (ChatMessage × ChatMessage)
ask weights chat (unresolved message) =
    respond_with_fallback chat.user_id chat.enrollment_id chat.command.context.generation
      chat.student_row message
ask weights chat (resolved lab_id context) = do
  response ← send (diagnose (diagnose_request chat.command lab_id context))
  answered weights chat response

unfoldable pub send_message :
    TokenWeights → ℕ → ℕ → SendChatMessageInput → ChatTask (ChatMessage × ChatMessage)
send_message weights user_id enrollment_id command = do
  chat ← prepare_message user_id enrollment_id command
  ask weights chat chat.request
