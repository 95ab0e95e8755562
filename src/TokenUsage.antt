-- ===== src/TokenUsage.antt =====
-- token-usage/domain and application/check-token-quota.ts: what a learner may still spend.
-- The weights, `0.02`, `1` and `4` by default, are doubles, and so is the sum that is rounded up.
pub mod Double
mod Tests
use aivirteach_server.Common.{
  ℕ, ◌+◌, ◌*◌, Bool, true, false, ◌&&◌, Option, none, some, List, [], ◌∷◌, if◌then◌else◌, ◌==◌, ltb,
  leb, any,
}
use aivirteach_server.TokenUsage.Double.{nearest, ceil}
use aivirteach_server.Database.{Database}
use aivirteach_server.Database.Rows.{TokenUsage, Conversation, Enrollment, QuotaLedger}

-- each weight a double, in units of 2^-1074
pub record TokenWeights : Type 0 where
  pub input_cache_hit : ℕ
  pub input_cache_miss : ℕ
  pub output : ℕ

-- `n * weight`, where the count of tokens is below 2^53 and so a double itself
abbrev pub times : ℕ → ℕ → ℕ
times n weight = nearest (n * weight)

abbrev pub plus : ℕ → ℕ → ℕ
plus x y = nearest (x + y)

unfoldable pub weighted_consumption : TokenUsage → TokenWeights → ℕ
weighted_consumption u w = ceil (
    plus
      (plus (times u.input_cache_hit_tokens w.input_cache_hit)
        (times u.input_cache_miss_tokens w.input_cache_miss))
      (times u.output_tokens w.output))

abbrev pub no_usage : TokenUsage
no_usage = record { input_cache_hit_tokens = 0; input_cache_miss_tokens = 0; output_tokens = 0 }

abbrev pub add_usage : Option TokenUsage → TokenUsage → TokenUsage
add_usage none t = t
add_usage (some u) t = record {
  input_cache_hit_tokens = u.input_cache_hit_tokens + t.input_cache_hit_tokens;
  input_cache_miss_tokens = u.input_cache_miss_tokens + t.input_cache_miss_tokens;
  output_tokens = u.output_tokens + t.output_tokens;
}

-- `aggregate({ _sum })` over the rows that pass the test
unfoldable pub sum_usage_where : (Conversation → Bool) → List Conversation → TokenUsage
sum_usage_where p [] = no_usage
sum_usage_where p (c ∷ cs) =
    let rest = sum_usage_where p cs in if p c then add_usage c.usage rest else rest

-- `where: { enrollment: { userId } }`
abbrev pub is_of_user : List Enrollment → ℕ → Conversation → Bool
is_of_user es user_id c =
    any (λ (e : Enrollment). e.id == c.enrollment_id && e.user_id == user_id) es

unfoldable pub sum_usage : ℕ → Database → TokenUsage
sum_usage user_id w = sum_usage_where (is_of_user w.enrollments user_id) w.conversations

-- the two signs of `_sum.tokensDelta`
unfoldable pub sum_granted : ℕ → List QuotaLedger → ℕ
sum_granted user_id [] = 0
sum_granted user_id (l ∷ ls) =
    let rest = sum_granted user_id ls in
    if l.user_id == user_id then l.tokens_granted + rest else rest

unfoldable pub sum_taken : ℕ → List QuotaLedger → ℕ
sum_taken user_id [] = 0
sum_taken user_id (l ∷ ls) =
    let rest = sum_taken user_id ls in if l.user_id == user_id then l.tokens_taken + rest else rest

-- What the balance subtracts from the grants.
unfoldable pub spent : TokenWeights → ℕ → Database → ℕ
unfolding sum_usage sum_taken weighted_consumption
spent weights user_id w =
    sum_taken user_id w.quota_ledger + weighted_consumption (sum_usage user_id w) weights

pub data Verdict : Type 0 where
  allowed exhausted : Verdict

-- `CheckTokenQuota.execute`: `balance > 0`, written without a negative number
unfoldable pub check_token_quota : TokenWeights → ℕ → Database → Verdict
unfolding spent sum_granted
check_token_quota weights user_id w =
    if ltb (spent weights user_id w) (sum_granted user_id w.quota_ledger)
    then allowed
    else exhausted

-- token-quota.guard.ts, `canActivate`: an error of the check lets the request pass
pub can_activate : Bool → Option Verdict → Bool
can_activate enforced verdict =
    if enforced
    then elim verdict [ none ↦ true | some v ↦ elim v [ allowed ↦ true | exhausted ↦ false ] ]
    else true
