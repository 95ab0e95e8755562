-- ===== src/Chat/Quiet.antt =====
-- Until its last event, a stream of the chat emits only progress.
use aivirteach_server.Common.{
  ℕ, ◌≡◌, refl, Bool, true, false, String, Option, none, some, List, [], ◌∷◌, arith, if◌then◌else◌,
  str_eq, ltb, ◌&&◌,
}
use aivirteach_server.Process.{
  HttpError, pure, fail, attempt, transaction, send, ◌>>=◌, ◌>>◌, Outcome, committed, aborted,
  answer, execute,
}
use aivirteach_server.Database.{Database, Transaction}
use aivirteach_server.Database.Rows.{Conversation, DiagnoseResponse, TokenUsage, LedgerId}
use aivirteach_server.TokenUsage.{TokenWeights, weighted_consumption}
use aivirteach_server.Chat.{
  ChatTask, ChatStreamEvent, reply_not_saved, emit, Frame, FrameData, malformed, parsed, resolved,
  unresolved, ResolvedDiagnoseRequest, AcceptedChat, is_stale_error,
}
use aivirteach_server.Chat.Reply.{
  create_current, respond_with_fallback, save_agent_reply, charge_stale, upsert_charge,
}
use aivirteach_server.Chat.Stream.{
  is_current_for_progress, StreamState, forwarded_event, forward_frame, forward_data,
  forward_frames, announce, report_error, finish_stream, stream_resolved,
}
use aivirteach_server.Chat.Talks.{
  is_progress, IsStream, Talks, Talks-attempt, IsStream-attempt, if-Talks, has_current,
  true_not_false, assert_current-stale, create_current-stale,
}

-- Where the enrollment is not current, the stream may end without a last event.
module _ (R : Database → Type 0) (E : Type 0) (chat : AcceptedChat)
    (stale : (w : Database)
      → R w
      → has_current chat.enrollment_id chat.command.context.generation w ≡ false
      → E) where
  abbrev generation : ℕ
  generation = chat.command.context.generation

  abbrev Anything : {A : Type 0} → A → Type 0
  Anything a = Unit {0}

  abbrev IsFair : HttpError → Type 0
  IsFair e = is_stale_error e ≡ true → E

  abbrev IsQuiet : {A : Type 0} → ChatTask A → Type 0
  IsQuiet = Talks R Anything IsFair

  answer-IsQuiet :
      {A : Type 0} (o : Outcome Database A)
      → ((e : HttpError) → o ≡ aborted e → IsFair e)
      → IsQuiet (answer o)
  answer-IsQuiet (committed a w) h = tt
  answer-IsQuiet (aborted e) h = h e refl

  transaction-IsQuiet :
      {A : Type 0} (t : Transaction A)
      → ((w : Database) (e : HttpError)
          → t w ≡ aborted e
          → is_stale_error e ≡ true
          → has_current chat.enrollment_id chat.command.context.generation w ≡ false)
      → IsQuiet (transaction t)
  unfolding transaction
  transaction-IsQuiet t h = λ w r. answer-IsQuiet (t w) (λ e q s. stale w r (h w e q s))

  stale_or_fail :
      (e : HttpError) (b : Bool) → is_stale_error e ≡ b → IsQuiet (if b then pure false else fail e)
  stale_or_fail e true q = tt
  stale_or_fail e false q = λ s. true_not_false (is_stale_error e) s q

  current-IsQuiet : IsQuiet (is_current_for_progress chat.enrollment_id generation)
  unfolding is_current_for_progress
  current-IsQuiet =
      Talks-attempt R Anything Anything IsFair IsFair _ _ _
        (transaction-IsQuiet _ (λ w e q s. assert_current-stale _ _ w e q)) (λ u t. tt)
        (λ e t. stale_or_fail e (is_stale_error e) refl)

  bind-IsQuiet :
      {A B : Type 0} (m : ChatTask A) (f : A → ChatTask B)
      → IsQuiet m
      → ((a : A) → IsQuiet (f a))
      → IsQuiet (m >>= f)
  bind-IsQuiet m f t tf =
      Talks-attempt R Anything Anything IsFair IsFair m f fail t (λ a u. tf a) (λ e h. h)

  if-IsQuiet :
      {A : Type 0} (b : Bool) (m n : ChatTask A)
      → IsQuiet m
      → IsQuiet n
      → IsQuiet (if b then m else n)
  if-IsQuiet = if-Talks R Anything IsFair

  emit-IsQuiet : (e : ChatStreamEvent) → is_progress e ≡ true → IsQuiet (send (emit e))
  unfolding send
  emit-IsQuiet e p = (p, tt)

  announce-IsQuiet : (may : Bool) → IsQuiet (announce chat may)
  announce-IsQuiet may =
      bind-IsQuiet _ _ (if-IsQuiet may _ _ current-IsQuiet tt)
        (λ current. if-IsQuiet current _ _ (emit-IsQuiet _ refl) tt)

  create-IsQuiet :
      (make : ℕ → ℕ → Conversation)
      → IsQuiet (transaction (create_current chat.enrollment_id generation make))
  create-IsQuiet make = transaction-IsQuiet _ (λ w e q s. create_current-stale _ _ make w e q s)

  fallback-IsQuiet :
      (user_id : ℕ) (question : Conversation) (message : String)
      → IsQuiet (respond_with_fallback user_id chat.enrollment_id generation question message)
  unfolding respond_with_fallback
  fallback-IsQuiet user_id question message = bind-IsQuiet _ _ (create-IsQuiet _) (λ a. tt)

  execute-IsQuiet : (f : Database → Database) → IsQuiet (execute f)
  unfolding execute
  execute-IsQuiet f = λ w r. tt

  charge-IsQuiet :
      (weights : TokenWeights) (id : LedgerId) (user_id : ℕ) (b : Bool) (usage : Option TokenUsage)
      → IsQuiet (charge_stale weights id user_id b usage)
  unfolding charge_stale
  charge-IsQuiet weights id user_id b none = tt
  charge-IsQuiet weights id user_id b (some usage) =
      let consumed = weighted_consumption usage weights in
      if-IsQuiet (b && ltb 0 consumed) (execute (upsert_charge id user_id consumed)) (pure tt)
        (execute-IsQuiet _) tt

  save-IsQuiet :
      (weights : TokenWeights) (user_id : ℕ) (request_id : String) (response : DiagnoseResponse)
      (make : ℕ → ℕ → Conversation)
      → IsQuiet
          (save_agent_reply weights user_id chat.enrollment_id generation request_id response make)
  unfolding save_agent_reply
  save-IsQuiet weights user_id request_id response make =
      Talks-attempt R Anything Anything IsFair IsFair _ _ _ (create-IsQuiet make) (λ a t. tt)
        (λ e h.
          Talks-attempt R Anything Anything IsFair IsFair _ _ _
            (charge-IsQuiet weights _ user_id (is_stale_error e) response.usage) (λ u t. h)
            (λ f g. g))

  forwarded-is_progress : (event text : String) → is_progress (forwarded_event event text) ≡ true
  forwarded-is_progress event text = ground arith

  -- The loop catches what is thrown in it.
  abbrev IsCalm : {A : Type 0} → ChatTask A → Type 0
  IsCalm = Talks R Anything (λ e. ⊥)

  emit_then-IsCalm :
      {A : Type 0} (e : ChatStreamEvent) (m : ChatTask A)
      → is_progress e ≡ true
      → IsCalm m
      → IsCalm (send (emit e) >> m)
  unfolding send attempt
  emit_then-IsCalm e m p t = (p, t)

  frame-IsCalm :
      (event text : String) (result : Option DiagnoseResponse) (s : StreamState)
      (next : StreamState → ChatTask StreamState)
      → ((s : StreamState) → IsCalm (next s))
      → IsCalm (forward_frame chat event text result s next)
  frame-IsCalm event text result s next q =
      if-Talks R Anything (λ e. ⊥) (str_eq event "result") _ _ (q _)
        (if-Talks R Anything (λ e. ⊥) s.may_forward _ _
          (Talks-attempt R Anything Anything IsFair (λ e. ⊥) _ _ _ current-IsQuiet
            (λ may t.
              if-Talks R Anything (λ e. ⊥) may _ _
                (emit_then-IsCalm _ _ (forwarded-is_progress event text) (q _)) (q _))
            (λ e t. tt))
          (q s))

  data-IsCalm :
      (event : String) (d : FrameData) (s : StreamState) (next : StreamState → ChatTask StreamState)
      → ((s : StreamState) → IsCalm (next s))
      → IsCalm (forward_data chat event d s next)
  data-IsCalm event malformed s next q = tt
  data-IsCalm event (parsed text result) s next q = frame-IsCalm event text result s next q

  frames-IsCalm : (fs : List Frame) (s : StreamState) → IsCalm (forward_frames chat fs s)
  unfolding forward_frames
  frames-IsCalm [] s = tt
  frames-IsCalm (f ∷ fs) s =
      data-IsCalm f.event f.frame_data s (forward_frames chat fs) (frames-IsCalm fs)

  report-IsStream :
      (e : HttpError) (b : Bool)
      → is_stale_error e ≡ b
      → IsFair e
      → IsStream R E (if b then pure tt else send (emit reply_not_saved))
  unfolding send
  report-IsStream e true q fair = fair q
  report-IsStream e false q fair = tt

  finishing :
      {A : Type 0} (m : ChatTask A) (f : A → ChatStreamEvent)
      → IsQuiet m
      → ((a : A) → is_progress (f a) ≡ false)
      → IsStream R E (attempt m (λ a. send (emit (f a))) report_error)
  unfolding send
  finishing m f q last =
      IsStream-attempt R E Anything IsFair m _ _ q (λ a t. rw (last a) tt)
        (λ e fair. report-IsStream e (is_stale_error e) refl fair)

  finish-IsStream :
      (weights : TokenWeights) (may : Bool) (o : Option DiagnoseResponse)
      → IsStream R E (finish_stream weights chat may o)
  finish-IsStream weights may none =
      finishing _ _ (bind-IsQuiet _ _ (announce-IsQuiet may) (λ u. fallback-IsQuiet _ _ _))
        (λ a. refl)
  finish-IsStream weights may (some response) =
      finishing _ _
        (bind-IsQuiet _ _ (announce-IsQuiet may) (λ u. save-IsQuiet weights _ _ response _))
        (λ a. refl)

  pub resolved-IsStream :
      (weights : TokenWeights) (d : ResolvedDiagnoseRequest)
      → IsStream R E (stream_resolved weights chat d)
  unfolding send attempt
  resolved-IsStream weights (unresolved message) =
      finishing _ _ (bind-IsQuiet _ _ (announce-IsQuiet true) (λ u. fallback-IsQuiet _ _ _))
        (λ a. refl)
  resolved-IsStream weights (resolved lab_id context) = λ fs.
      IsStream-attempt R E Anything (λ e. ⊥) _ _ _ (frames-IsCalm fs _)
        (λ s t. finish-IsStream weights s.may_forward s.response) (λ e t. t)
