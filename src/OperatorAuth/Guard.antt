-- ===== src/OperatorAuth/Guard.antt =====
-- operator-auth/operator-auth.guard.ts: who may call the admin routes.
use aivirteach_server.Common.{
  ℕ, ◌/◌, Bool, ◌||◌, not, String, Option, none, some, if◌then◌else◌, ltb, str_eq, find_first,
  after_prefix, or_default,
}
use aivirteach_server.Process.{pure, fail, ◌>>=◌, query, send, unauthorized}
use aivirteach_server.OperatorAuth.{
  Operator, AdminClaims, OperatorDatabase, OperatorTask, verify_admin_token, has_id, is_active,
}

-- `request.operator`
pub record AdminRequester : Type 0 where
  pub id : ℕ
  pub email : String

-- `header?.startsWith('Bearer ') ? header.slice(7) : ''`
abbrev pub bearer_token : Option String → String
bearer_token none = ""
bearer_token (some header) = or_default (after_prefix "Bearer " header) ""

abbrev pub issued_before_password_change : AdminClaims → Operator → Bool
issued_before_password_change claims o = ltb claims.iat (o.password_changed_at / 1000)

abbrev pub admit : AdminClaims → Option Operator → OperatorTask AdminRequester
admit claims none = fail unauthorized
admit claims (some o) =
    if not (is_active o) || issued_before_password_change claims o
    then fail unauthorized
    else pure (record { id = o.id; email = o.email })

abbrev pub admit_claims : Option AdminClaims → OperatorTask AdminRequester
admit_claims none = fail unauthorized
admit_claims (some claims) = do
  operator ← query (λ (w : OperatorDatabase). find_first (has_id claims.sub) w.operators)
  admit claims operator

unfoldable pub can_activate : Option String → OperatorTask AdminRequester
can_activate header =
    let token = bearer_token header in
    if str_eq token ""
    then fail unauthorized
    else (do claims ← send (verify_admin_token token); admit_claims claims)
