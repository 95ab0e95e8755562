-- ===== src/Enrollments/Settlement.antt =====
-- A restart deletes the chat whose token usage the quota counts, and enters its weight in the ledger.
use aivirteach_server.Common.{
  refl, ℕ, zero, suc, ◌+◌, ◌≡◌, Bool, true, false, ◌&&◌, Option, none, some, List, [], ◌∷◌, arith,
  ◌==◌, any, ==_iff, delete_rows, Bool-cases, inl, inr,
}
use aivirteach_server.Process.{after}
use aivirteach_server.Database.{Database, ◌>>◌}
use aivirteach_server.Database.Rows.{Enrollment, Conversation, TokenUsage}
use aivirteach_server.TokenUsage.{
  TokenWeights, weighted_consumption, sum_usage_where, is_of_user, sum_usage, sum_taken,
  sum_granted, add_usage,
}
use aivirteach_server.Enrollments.Restart.{
  is_in_conversation, charge, delete_conversations, settle_usage,
}

add_usage-left :
    (u : Option TokenUsage) (a b : TokenUsage)
    → add_usage u (add_usage (some a) b) ≡ add_usage (some (add_usage u a)) b
add_usage-left none a b = refl
add_usage-left (some u) a b = grind arith

add_usage-right :
    (u : Option TokenUsage) (a b : TokenUsage)
    → add_usage u (add_usage (some a) b) ≡ add_usage (some a) (add_usage u b)
add_usage-right none a b = refl
add_usage-right (some u) a b = grind arith

-- The rows that are deleted, and those that stay, make the sum.
sum_usage_where-split :
    (p q : Conversation → Bool) (cs : List Conversation)
    → ((c : Conversation) → q c ≡ true → p c ≡ true)
    → sum_usage_where p cs
      ≡ add_usage (some (sum_usage_where q cs)) (sum_usage_where p (delete_rows q cs))
unfolding sum_usage_where
sum_usage_where-split p q [] h = refl
sum_usage_where-split p q (c ∷ cs) h =
    let rest = sum_usage_where-split p q cs h in
    elim (Bool-cases (q c)) [
      | inl t ↦ rw (h c t, t, rest) (add_usage-left c.usage (sum_usage_where q cs) _)
      | inr t ↦ elim (Bool-cases (p c)) [
        | inl s ↦ rw (t, s, rest) (add_usage-right c.usage (sum_usage_where q cs) _)
        | inr s ↦ rw (t, s) rest
      ]
    ]

-- What the charge and the deletion leave, also where there is nothing to pay.
abbrev pub IsSettled : ℕ → ℕ → Enrollment → Database → Database → Type 0
IsSettled n user_id e w v =
    (sum_taken user_id v.quota_ledger ≡ sum_taken user_id w.quota_ledger + n)
    × (sum_granted user_id v.quota_ledger ≡ sum_granted user_id w.quota_ledger)
    × (v.conversations ≡ delete_rows (is_in_conversation e) w.conversations)
    × (v.enrollments ≡ w.enrollments)

charge-IsSettled :
    (user_id n : ℕ) (e : Enrollment) (w : Database)
    → IsSettled n user_id e w (after w ((charge user_id n >> delete_conversations e) w))
unfolding charge delete_conversations sum_taken sum_granted
charge-IsSettled user_id zero e w = (omega arith, refl, refl, refl)
charge-IsSettled user_id (suc n) e w = (ground arith, ground arith, ground arith, ground arith)

any-deleted : (q : Conversation → Bool) (cs : List Conversation) → any q (delete_rows q cs) ≡ false
any-deleted q [] = refl
any-deleted q (c ∷ cs) = ground (arith, any-deleted q cs)

any-same :
    (user_id i j : ℕ) (es : List Enrollment)
    → i ≡ j
    → any (λ (r : Enrollment). r.id == j && r.user_id == user_id) es ≡ true
    → any (λ (r : Enrollment). r.id == i && r.user_id == user_id) es ≡ true
any-same user_id i j es e h = rw e h

-- The tokens that a settlement settles.
abbrev pub settled_usage : Enrollment → Database → TokenUsage
settled_usage e w = sum_usage_where (is_in_conversation e) w.conversations

-- Where the enrollment belongs to the user, the settlement of a restart loses no token. The user's
-- tokens before it are those of the enrollment's conversations and those that are counted after
-- it, none of these conversations is left, what the ledger takes grows by the weighted tokens of
-- these conversations, and what it grants stays.
pub settle_usage-IsConserved :
    (weights : TokenWeights) (user_id : ℕ) (e : Enrollment) (w : Database)
    → any (λ (r : Enrollment). r.id == e.id && r.user_id == user_id) w.enrollments ≡ true
    → let v = after w (settle_usage weights user_id e w) in
      (sum_usage user_id w ≡ add_usage (some (settled_usage e w)) (sum_usage user_id v))
      × (any (is_in_conversation e) v.conversations ≡ false)
      × (sum_taken user_id v.quota_ledger
          ≡ sum_taken user_id w.quota_ledger + weighted_consumption (settled_usage e w) weights)
      × (sum_granted user_id v.quota_ledger ≡ sum_granted user_id w.quota_ledger)
unfolding settle_usage sum_usage
settle_usage-IsConserved weights user_id e w owned =
    let p = is_of_user w.enrollments user_id in
    let q = is_in_conversation e in
    let (taken, granted, cs, es) =
      charge-IsSettled user_id (weighted_consumption (settled_usage e w) weights) e w in
    (
      rw (es, cs)
          (sum_usage_where-split p q w.conversations (λ c t.
            any-same user_id c.enrollment_id e.id w.enrollments ((==_iff c.enrollment_id e.id).0 t)
              owned)),
      rw cs (any-deleted q w.conversations),
      taken,
      granted,
    )
