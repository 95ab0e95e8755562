-- ===== src/Chat/Stream.antt =====
-- chat/chat.service.ts: `streamMessage` and `streamPrepared`.
use aivirteach_server.Common.{
  ℕ, Bool, true, false, String, Option, none, some, List, [], ◌∷◌, if◌then◌else◌, or_else, str_eq,
}
use aivirteach_server.Process.{pure, fail, attempt, transaction, send, ◌>>=◌, ◌>>◌, HttpError}
use aivirteach_server.Database.Rows.{DiagnoseResponse}
use aivirteach_server.TokenUsage.{TokenWeights}
use aivirteach_server.Chat.{
  SendChatMessageInput, ChatTask, ChatStreamEvent, progress, reply_not_saved, complete,
  reply_persisting, code, forwarded, diagnose_stream, emit, Frame, FrameData, malformed, parsed,
  resolved, unresolved, ResolvedDiagnoseRequest, AcceptedChat, is_stale_error,
  assert_current_enrollment, to_chat_message,
}
use aivirteach_server.Chat.Prepare.{prepare_message}
use aivirteach_server.Chat.Reply.{
  agent_row, respond_with_fallback, save_agent_reply, unavailable, diagnose_request,
}

abbrev generation_of : AcceptedChat → ℕ
generation_of chat = chat.command.context.generation

unfoldable pub is_current_for_progress : ℕ → ℕ → ChatTask Bool
is_current_for_progress enrollment_id generation =
    attempt (transaction (assert_current_enrollment enrollment_id generation)) (λ u. pure true)
      (λ e. if is_stale_error e then pure false else fail e)

-- `response` and `mayForwardProgress`
pub record StreamState : Type 0 where
  pub response : Option DiagnoseResponse
  pub may_forward : Bool

abbrev pub forwarded_event : String → String → ChatStreamEvent
forwarded_event event text =
    if str_eq event "error"
    then progress "answer_failed" (code "AGENT_STREAM_FAILED")
    else progress event (forwarded text)

-- The body of the loop for a frame that is JSON; `next` is the rest of the loop.
abbrev pub forward_frame :
    AcceptedChat
    → String
    → String
    → Option DiagnoseResponse
    → StreamState
    → (StreamState → ChatTask StreamState)
    → ChatTask StreamState
forward_frame chat event text result s next =
    if str_eq event "result"
    then next (record s { response = or_else result s.response })
    else if s.may_forward
    then attempt (is_current_for_progress chat.enrollment_id (generation_of chat))
        (λ may.
          if may
          then (send (emit (forwarded_event event text)) >> next (record s { may_forward = true }))
          else next (record s { may_forward = false }))
        (λ e. pure s)
    else next s

abbrev pub forward_data :
    AcceptedChat
    → String
    → FrameData
    → StreamState
    → (StreamState → ChatTask StreamState)
    → ChatTask StreamState
forward_data chat event malformed s next = pure s
forward_data chat event (parsed text result) s next = forward_frame chat event text result s next

-- The loop over the frames. An exception ends it, with the variables as they are.
unfoldable pub forward_frames : AcceptedChat → List Frame → StreamState → ChatTask StreamState
forward_frames chat [] s = pure s
forward_frames chat (f ∷ fs) s = forward_data chat f.event f.frame_data s (forward_frames chat fs)

-- `if (mayForwardProgress && await isCurrentForProgress()) yield REPLY_PERSISTING`
abbrev pub announce : AcceptedChat → Bool → ChatTask (Unit {0})
announce chat may = do
  current ←
      if may then is_current_for_progress chat.enrollment_id (generation_of chat) else pure false
  if current then send (emit reply_persisting) else pure tt

abbrev pub report_error : HttpError → ChatTask (Unit {0})
report_error e = if is_stale_error e then pure tt else send (emit reply_not_saved)

abbrev pub finish_with_fallback : AcceptedChat → Bool → String → ChatTask (Unit {0})
finish_with_fallback chat may message =
    attempt
      (announce chat may
        >> respond_with_fallback chat.user_id chat.enrollment_id (generation_of chat)
            chat.student_row message)
      (λ messages. send (emit (complete messages.0 messages.1))) report_error

abbrev pub finish_with_reply :
    TokenWeights → AcceptedChat → Bool → DiagnoseResponse → ChatTask (Unit {0})
finish_with_reply weights chat may response =
    attempt
      (announce chat may
        >> save_agent_reply weights chat.user_id chat.enrollment_id (generation_of chat)
            chat.command.request_id response
            (agent_row chat.enrollment_id chat.student_row response))
      (λ tutor. send (
        emit (
          complete (to_chat_message chat.user_id chat.student_row)
            (to_chat_message chat.user_id tutor))))
      report_error

abbrev pub finish_stream :
    TokenWeights → AcceptedChat → Bool → Option DiagnoseResponse → ChatTask (Unit {0})
finish_stream weights chat may none = finish_with_fallback chat may unavailable
finish_stream weights chat may (some response) = finish_with_reply weights chat may response

abbrev pub stream_resolved :
    TokenWeights → AcceptedChat → ResolvedDiagnoseRequest → ChatTask (Unit {0})
stream_resolved weights chat (unresolved message) = finish_with_fallback chat true message
stream_resolved weights chat (resolved lab_id context) = do
  frames ← send (diagnose_stream (diagnose_request chat.command lab_id context))
  s ← forward_frames chat frames (record { response = none; may_forward = true })
  finish_stream weights chat s.may_forward s.response

unfoldable pub stream_prepared : TokenWeights → AcceptedChat → ChatTask (Unit {0})
stream_prepared weights chat = stream_resolved weights chat chat.request

unfoldable pub stream_message : TokenWeights → ℕ → ℕ → SendChatMessageInput → ChatTask (Unit {0})
stream_message weights user_id enrollment_id command = do
  chat ← prepare_message user_id enrollment_id command
  stream_prepared weights chat
