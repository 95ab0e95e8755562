-- ===== src/Chat/Charges.antt =====
-- What a user has spent after a reply is stored, or its charge is entered in the ledger.
use aivirteach_server.Common.{
  ℕ, zero, suc, ◌+◌, ◌≡◌, ◌⊎◌, refl, Bool, true, false, ◌&&◌, Option, some, List, [], ◌∷◌, arith,
  ◌==◌, ltb, if◌then◌else◌, any, update_rows,
}
use aivirteach_server.Database.{Database}
use aivirteach_server.Database.Rows.{Enrollment, Conversation, TokenUsage, QuotaLedger, LedgerId}
use aivirteach_server.TokenUsage.{
  TokenWeights, weighted_consumption, add_usage, sum_usage_where, is_of_user, sum_usage, sum_taken,
  spent,
}
use aivirteach_server.Chat.Reply.{same_ledger_id, upsert_charge}

-- The locking of an enrollment changes nobody's enrollments but their `active`.
owned_still :
    (p : Enrollment → Bool) (id user_id : ℕ) (es : List Enrollment)
    → any
        (λ (e : Enrollment). e.id == id && e.user_id == user_id)
        (update_rows p (λ e. record e { active = true }) es)
      ≡ any (λ (e : Enrollment). e.id == id && e.user_id == user_id) es
owned_still p id user_id [] = refl
owned_still p id user_id (e ∷ es) = ground (arith, owned_still p id user_id es)

sum_usage_still :
    (p : Enrollment → Bool) (user_id : ℕ) (es : List Enrollment) (cs : List Conversation)
    → sum_usage_where (is_of_user (update_rows p (λ e. record e { active = true }) es) user_id) cs
      ≡ sum_usage_where (is_of_user es user_id) cs
unfolding sum_usage_where
sum_usage_still p user_id es [] = refl
sum_usage_still p user_id es (c ∷ cs) =
    rw (owned_still p c.enrollment_id user_id es, sum_usage_still p user_id es cs) refl

add_stored :
    (o : Option TokenUsage) (usage rest : TokenUsage) (b : Bool)
    → o ≡ some usage
    → b ≡ true
    → (if b then add_usage o rest else rest) ≡ add_usage (some usage) rest
add_stored o usage rest b u t = rw (u, t) refl

-- What a stored reply adds to the usage of the enrollment's user.
pub sum_usage-stored :
    (user_id : ℕ) (w v : Database) (row : Conversation) (usage : TokenUsage)
    → row.usage ≡ some usage
    → is_of_user w.enrollments user_id row ≡ true
    → (p : Enrollment → Bool)
    → v.enrollments ≡ update_rows p (λ e. record e { active = true }) w.enrollments
    → v.conversations ≡ row ∷ w.conversations
    → sum_usage user_id v ≡ add_usage (some usage) (sum_usage user_id w)
unfolding sum_usage sum_usage_where
sum_usage-stored user_id w v row usage u mine p es cs =
    rw
      (
        es,
        cs,
        owned_still p row.enrollment_id user_id w.enrollments,
        sum_usage_still p user_id w.enrollments w.conversations,
      )
      (add_stored row.usage usage _ (is_of_user w.enrollments user_id row) u mine)

-- The reply's tokens count with all the user's tokens, which are weighted and rounded together.
abbrev pub IsSummed : TokenWeights → ℕ → TokenUsage → Database → Database → Type 0
IsSummed weights user_id usage w v =
    spent weights user_id v
    ≡ sum_taken user_id w.quota_ledger
      + weighted_consumption (add_usage (some usage) (sum_usage user_id w)) weights

-- So many units more are spent.
abbrev pub IsChargedBy : ℕ → TokenWeights → ℕ → Database → Database → Type 0
IsChargedBy n weights user_id w v = spent weights user_id v ≡ spent weights user_id w + n

-- A reply of the current generation joins the user's sum, a reply of an ended one is charged its
-- own weighted tokens.
abbrev pub IsCharged : Bool → TokenWeights → ℕ → TokenUsage → Database → Database → Type 0
IsCharged ended weights user_id usage w v =
    ((ended ≡ false) × IsSummed weights user_id usage w v)
    ⊎ ((ended ≡ true) × IsChargedBy (weighted_consumption usage weights) weights user_id w v)

pub stored-IsSummed :
    (weights : TokenWeights) (user_id : ℕ) (w v : Database) (usage : TokenUsage)
    → sum_usage user_id v ≡ add_usage (some usage) (sum_usage user_id w)
    → v.quota_ledger ≡ w.quota_ledger
    → IsSummed weights user_id usage w v
unfolding spent
stored-IsSummed weights user_id w v usage sum ls = rw (sum, ls) refl

pub ledger-IsChargedBy :
    (n : ℕ) (weights : TokenWeights) (user_id : ℕ) (id : LedgerId) (w : Database)
    → any (λ (l : QuotaLedger). same_ledger_id l.id id) w.quota_ledger ≡ false
    → IsChargedBy n weights user_id w (if ltb 0 n then upsert_charge id user_id n w else w)
unfolding spent upsert_charge sum_taken sum_usage
ledger-IsChargedBy zero weights user_id id w fresh = omega arith
ledger-IsChargedBy (suc n) weights user_id id w fresh = rw fresh (ground arith)
