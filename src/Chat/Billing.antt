-- ===== src/Chat/Billing.antt =====
-- A reply of the agent is charged whether or not its generation has ended when it comes.
use aivirteach_server.Common.{
  ℕ, ◌≡◌, refl, ap, sym, ◌∙◌, Bool, true, false, ◌&&◌, Option, none, some, String, ◌∷◌, ◌==◌, ltb,
  if◌then◌else◌, any, count_rows, update_rows, Bool-cases, inl, inr,
}
use aivirteach_server.Process.{
  Outcome, committed, aborted, stale_enrollment, pure, fail, transaction, attempt, execute,
  HttpError, after, answer, ◌>>◌,
}
use aivirteach_server.Process.Drive.{drive}
use aivirteach_server.Database.{Database, update_enrollments}
use aivirteach_server.Database.Rows.{
  Enrollment, Conversation, DiagnoseResponse, TokenUsage, QuotaLedger, LedgerId, stale_agent,
}
use aivirteach_server.TokenUsage.{TokenWeights, weighted_consumption}
use aivirteach_server.Chat.{
  ChatTask, is_stale_error, ChatRequest, ChatReply, is_current, assert_current_enrollment,
  create_conversation, collides,
}
use aivirteach_server.Database.Commits.{bind_commits, abort_apart}
use aivirteach_server.Chat.Commits.{locked, created}
use aivirteach_server.Chat.Reply.{
  agent_row, create_current, same_ledger_id, upsert_charge, charge_stale, save_agent_reply,
}
use aivirteach_server.Chat.Charges.{
  sum_usage-stored, stored-IsSummed, ledger-IsChargedBy, IsCharged,
}

module _ (oracle : (q : ChatRequest) → ChatReply q) (weights : TokenWeights)
    (user_id id generation : ℕ) (request_id : String) (response : DiagnoseResponse)
    (question : Conversation) where
  abbrev saving : ChatTask Conversation
  saving =
      save_agent_reply weights user_id id generation request_id response
        (agent_row id question response)

  abbrev ledger_id : LedgerId
  ledger_id = stale_agent id generation request_id

  abbrev after_charge : Bool → Option TokenUsage → Database → Database
  after_charge b none w = w
  after_charge b (some usage) w =
      if b && ltb 0 (weighted_consumption usage weights)
      then upsert_charge ledger_id user_id (weighted_consumption usage weights) w
      else w

  -- What a finished transaction leads to.
  abbrev after_reply : Database → Outcome Database Conversation → Database
  after_reply w (committed row v) = v
  after_reply w (aborted e) = after_charge (is_stale_error e) response.usage w

  -- what is left after the transaction
  abbrev ending : ChatTask (Unit {0}) → HttpError → ChatTask Conversation
  ending m e = m >> fail e

  abbrev settling : HttpError → ChatTask Conversation
  settling e = ending (charge_stale weights ledger_id user_id (is_stale_error e) response.usage) e

  if_runs :
      (b : Bool) (f : Database → Database) (e : HttpError) (w : Database)
      → (drive oracle 3 w (ending (if b then execute f else pure tt) e)).0 ≡ (if b then f w else w)
  unfolding drive execute attempt
  if_runs true f e w = refl
  if_runs false f e w = refl

  charge_runs :
      (b : Bool) (usage : Option TokenUsage) (e : HttpError) (w : Database)
      → (drive oracle 3 w (ending (charge_stale weights ledger_id user_id b usage) e)).0
        ≡ after_charge b usage w
  unfolding charge_stale drive attempt
  charge_runs b none e w = refl
  charge_runs b (some usage) e w = if_runs (b && ltb 0 (weighted_consumption usage weights)) _ e w

  reply_runs :
      (w : Database) (o : Outcome Database Conversation)
      → (drive oracle 3 (after w o) (attempt (answer o) pure settling)).0 ≡ after_reply w o
  unfolding drive attempt
  reply_runs w (committed row v) = refl
  reply_runs w (aborted e) = charge_runs (is_stale_error e) response.usage e w

  save_runs :
      (w : Database)
      → (drive oracle 4 w saving).0
        ≡ after_reply w (create_current id generation (agent_row id question response) w)
  unfolding drive save_agent_reply transaction attempt
  save_runs w = reply_runs w (create_current id generation (agent_row id question response) w)

-- No row is the enrollment in that generation, so `assertCurrentEnrollment` finds it ended.
abbrev pub is_ended : ℕ → ℕ → Database → Bool
is_ended id generation w = count_rows (is_current id generation) w.enrollments == 0

stored_rows :
    (id generation : ℕ) (make : ℕ → ℕ → Conversation) (w v : Database) (row : Conversation)
    → create_current id generation make w ≡ committed row v
    → (row ≡ make w.next_id w.now)
      × (v.enrollments
          ≡ update_rows (is_current id generation) (λ e. record e { active = true }) w.enrollments)
      × (v.conversations ≡ row ∷ w.conversations)
      × (v.quota_ledger ≡ w.quota_ledger)
      × (is_ended id generation w ≡ false)
unfolding create_current
stored_rows id generation make w v row h =
    let (a, u, lock, h) = bind_commits (assert_current_enrollment id generation) _ w v row h in
    let (current, moved) = locked id generation w u a lock in
    let (same, stored) = created make u v row h in
    let row_is : row ≡ make w.next_id w.now = same ∙ rw moved refl in
    rw stored (rw moved (row_is, refl, rw row_is refl, refl, current))

IsCharged-after :
    (weights : TokenWeights) (user_id id generation : ℕ) (request_id : String)
    (response : DiagnoseResponse) (question : Conversation)
    (oracle : (q : ChatRequest) → ChatReply q) (w : Database) (usage : TokenUsage)
    (o : Outcome Database Conversation)
    → response.usage ≡ some usage
    → any (λ (e : Enrollment). e.id == id && e.user_id == user_id) w.enrollments ≡ true
    → any
        (λ (l : QuotaLedger). same_ledger_id l.id (stale_agent id generation request_id))
        w.quota_ledger
      ≡ false
    → create_current id generation (agent_row id question response) w ≡ o
    → ((e : HttpError) → o ≡ aborted e → (e ≡ stale_enrollment) × (is_ended id generation w ≡ true))
    → IsCharged
        (is_ended id generation w)
        weights
        user_id
        usage
        w
        (after_reply oracle weights user_id id generation request_id response question w o)
IsCharged-after weights user_id id generation request_id response question oracle w usage
      (committed row v) u mine fresh h only =
    let (same, es, cs, ls, current) = stored_rows id generation _ w v row h in
    inl (
      current,
      stored-IsSummed weights user_id w v usage
          (sum_usage-stored user_id w v row usage (ap (λ (c : Conversation). c.usage) same ∙ u)
            (rw (ap (λ (c : Conversation). c.enrollment_id) same) mine) (is_current id generation)
            es cs)
          ls,
    )
IsCharged-after weights user_id id generation request_id response question oracle w usage
      (aborted e) u mine fresh h only =
    inr (
      (only e refl).1,
      rw (only e refl).0 (
          rw u (ledger-IsChargedBy (weighted_consumption usage weights) weights user_id _ w fresh)),
    )

only_stale :
    (id generation : ℕ) (make : ℕ → ℕ → Conversation) (w : Database) (e : HttpError)
    → any (collides (make w.next_id w.now)) w.conversations ≡ false
    → create_current id generation make w ≡ aborted e
    → (e ≡ stale_enrollment) × (is_ended id generation w ≡ true)
unfolding create_current assert_current_enrollment update_enrollments create_conversation
only_stale id generation make w e fresh h = elim (Bool-cases (is_ended id generation w)) [
  | inl t ↦ (cc (rw t at h), t)
  | inr t ↦ abort_apart e _ _ (sym (rw fresh at (rw t at h)))
]

-- Where the enrollment is the user's, the reply has no row yet and its charge no entry in the
-- ledger: saving a reply that reports its usage charges the user for it. Where its generation is
-- current, what the user has spent is then the ledger's part and the weighted sum of all the
-- tokens, the reply's among them. Where its generation has ended, what the user has spent grows by
-- the reply's own weighted tokens.
pub save_agent_reply-IsCharged :
    (oracle : (q : ChatRequest) → ChatReply q) (weights : TokenWeights) (user_id id generation : ℕ)
    (request_id : String) (response : DiagnoseResponse) (question : Conversation) (w : Database)
    (usage : TokenUsage)
    → response.usage ≡ some usage
    → any (λ (e : Enrollment). e.id == id && e.user_id == user_id) w.enrollments ≡ true
    → any
        (λ (l : QuotaLedger). same_ledger_id l.id (stale_agent id generation request_id))
        w.quota_ledger
      ≡ false
    → any (collides (agent_row id question response w.next_id w.now)) w.conversations ≡ false
    → IsCharged
        (is_ended id generation w)
        weights
        user_id
        usage
        w
        (drive oracle 4 w (
          save_agent_reply weights user_id id generation request_id response
            (agent_row id question response))).0
save_agent_reply-IsCharged oracle weights user_id id generation request_id response question w usage
      u mine unbilled fresh =
    rw (save_runs oracle weights user_id id generation request_id response question w) (
      IsCharged-after weights user_id id generation request_id response question oracle w usage _ u
        mine unbilled refl
        (λ e. only_stale id generation (agent_row id question response) w e fresh))
