-- ===== src/OperatorAuth.antt =====
-- operator-auth/operator-auth.service.ts: the login of an operator, and its lock after failed
-- attempts. No method runs in a transaction. What argon2 and jose answer is a reply.
pub mod Admin
pub mod Guard
pub mod System
pub mod Barred
pub mod Refusal
pub mod Lock
pub mod Disabled
pub mod Counting
mod Tests
use aivirteach_server.Common.{
  ℕ, ◌+◌, ◌*◌, ◌≡◌, Bool, true, false, ◌&&◌, ◌||◌, not, String, Option, none, some, List, ◌∷◌,
  if◌then◌else◌, ◌==◌, leb, ltb, str_eq, find_first, update_rows, count_rows,
}
use aivirteach_server.Process.{
  Process, pure, fail, ◌>>=◌, ◌>>◌, query, execute, transaction, send, Outcome, committed, aborted,
  unauthorized, not_found,
}

pub data OperatorStatus : Type 0 where
  active disabled : OperatorStatus

pub record Operator : Type 0 where
  pub id : ℕ
  pub email : String
  pub password_hash : String
  pub status : OperatorStatus
  pub failed_login_count : ℕ
  pub locked_until : Option ℕ
  pub password_changed_at : ℕ

pub data OperatorAction : Type 0 where
  login_action locked_action add_action reset_action disable_action : OperatorAction

-- `actor` is the email of the operator that acts.
pub record OperatorEvent : Type 0 where
  pub actor : String
  pub action : OperatorAction
  pub success : Bool
  pub target_id : Option ℕ
  pub reason : Option String

pub record OperatorDatabase : Type 0 where
  pub now : ℕ
  pub next_id : ℕ
  pub operators : List Operator
  pub audit_events : List OperatorEvent

-- tokens.ts, `AccessTokenClaims` with the `iat` that `verifyAdminAccessToken` adds
pub record AdminClaims : Type 0 where
  pub sub : ℕ
  pub email : String
  pub iat : ℕ

pub data OperatorRequest : Type 0 where
  hash_password : String → OperatorRequest
  verify_password : String → String → OperatorRequest
  sign_admin_token : ℕ → String → OperatorRequest
  verify_admin_token : String → OperatorRequest
  generate_password : OperatorRequest

abbrev pub OperatorReply : OperatorRequest → Type 0
OperatorReply (verify_password h p) = Bool
OperatorReply (verify_admin_token t) = Option AdminClaims
OperatorReply _ = String

abbrev pub OperatorTask : Type 0 → Type 0
OperatorTask A = Process OperatorDatabase OperatorRequest OperatorReply A

pub record OperatorSession : Type 0 where
  pub access_token : String
  pub expires_in : ℕ

-- `EmailSchema` of the admin contract, and `OPERATOR_SESSION_TTL` in seconds
pub record OperatorEnv : Type 0 where
  pub parse_email : String → Option String
  pub session_ttl : ℕ

abbrev pub max_failed_logins : ℕ
max_failed_logins = 5

abbrev pub lock_ms : ℕ
lock_ms = 15 * 60000

abbrev pub is_active : Operator → Bool
is_active o = elim o.status [ active ↦ true | disabled ↦ false ]

abbrev pub has_id : ℕ → Operator → Bool
has_id id o = o.id == id

abbrev pub find_operator : String → OperatorDatabase → Option Operator
find_operator email w = find_first (λ (o : Operator). str_eq o.email email) w.operators

-- `{ lockedUntil: { lte: now } }`; a null is no smaller than any date
abbrev pub is_expired : ℕ → Option ℕ → Bool
is_expired now none = false
is_expired now (some t) = leb t now

-- `OR: [{ lockedUntil: null }, { lockedUntil: { lte: now } }]`
abbrev pub is_unlocked : ℕ → Option ℕ → Bool
is_unlocked now none = true
is_unlocked now (some t) = leb t now

-- `!!operator?.lockedUntil && operator.lockedUntil > now`
abbrev pub is_locked : ℕ → Operator → Bool
is_locked now o = not (is_unlocked now o.locked_until)

-- operator.updateMany
unfoldable pub update_operators :
    (Operator → Bool) → (Operator → Operator) → OperatorDatabase → Outcome OperatorDatabase ℕ
update_operators p f w =
    committed (count_rows p w.operators) (record w { operators = update_rows p f w.operators })

unfoldable pub record_event : OperatorEvent → OperatorDatabase → OperatorDatabase
record_event e w = record w { audit_events = e ∷ w.audit_events }

unfoldable pub record_login : String → Bool → OperatorTask (Unit {0})
record_login email success = execute (
    record_event (record {
      actor = email;
      action = login_action;
      success = success;
      target_id = none;
      reason = none;
    }))

abbrev pub deny : String → OperatorTask OperatorSession
deny email = do record_login email false; fail unauthorized

-- the three statements of `registerFailure`
abbrev pub restart_count : Operator → Operator
restart_count o = record o { failed_login_count = 1; locked_until = none }

abbrev pub restart_expired : ℕ → ℕ → OperatorDatabase → Outcome OperatorDatabase ℕ
restart_expired id now =
    update_operators (λ o. has_id id o && is_expired now o.locked_until) restart_count

abbrev pub one_more : Operator → Operator
one_more o = record o { failed_login_count = o.failed_login_count + 1 }

abbrev pub incremented : OperatorDatabase → ℕ → Option Operator → Outcome OperatorDatabase ℕ
incremented w id none = aborted not_found
incremented w id (some o) =
    committed (o.failed_login_count + 1)
      (record w { operators = update_rows (has_id id) one_more w.operators })

-- operator.update, which returns the new count; a row that is gone is an error
unfoldable pub increment_count : ℕ → OperatorDatabase → Outcome OperatorDatabase ℕ
increment_count id w = incremented w id (find_first (has_id id) w.operators)

abbrev pub set_lock : ℕ → Operator → Operator
set_lock now o = record o { locked_until = some (now + lock_ms) }

abbrev pub lock : ℕ → ℕ → OperatorDatabase → Outcome OperatorDatabase ℕ
lock id now = update_operators (λ o. has_id id o && is_unlocked now o.locked_until) (set_lock now)

abbrev pub locked_event : Operator → OperatorEvent
locked_event operator = record {
  actor = operator.email;
  action = locked_action;
  success = true;
  target_id = some operator.id;
  reason = none;
}

abbrev pub record_locked : Operator → OperatorTask (Unit {0})
record_locked operator = execute (record_event (locked_event operator))

unfoldable pub register_failure : Operator → ℕ → OperatorTask (Unit {0})
register_failure operator now = do
  restarted ← transaction (restart_expired operator.id now)
  if restarted == 1 then pure tt else (do
    failed_login_count ← transaction (increment_count operator.id)
    if ltb failed_login_count max_failed_logins then pure tt else (do
      locked ← transaction (lock operator.id now)
      if locked == 0 then pure tt else record_locked operator))

abbrev pub reset_count : Operator → Operator
reset_count o = record o { failed_login_count = 0; locked_until = none }

abbrev pub release : ℕ → ℕ → OperatorDatabase → Outcome OperatorDatabase ℕ
release id now = update_operators (λ o. has_id id o && is_unlocked now o.locked_until) reset_count

abbrev pub start_session : OperatorEnv → String → Operator → OperatorTask OperatorSession
start_session env email operator = do
  record_login email true
  access_token ← send (sign_admin_token operator.id operator.email)
  pure (record { access_token = access_token; expires_in = env.session_ttl })

-- `login`, once the password is checked
abbrev pub login_matching : OperatorEnv → String → Operator → ℕ → OperatorTask OperatorSession
login_matching env email operator now = do
  released ← transaction (release operator.id now)
  if released == 0 then deny email else start_session env email operator

abbrev pub login_failing : String → Operator → ℕ → OperatorTask OperatorSession
login_failing email operator now = do register_failure operator now; deny email

abbrev pub login_known :
    OperatorEnv → String → Bool → ℕ → Option Operator → OperatorTask OperatorSession
login_known env email password_matches now none = deny email
login_known env email password_matches now (some operator) =
    if not (is_active operator) || is_locked now operator
    then deny email
    else (if password_matches
        then login_matching env email operator now
        else login_failing email operator now)

-- `operator?.passwordHash ?? (await getDummyHash())`; the module keeps the hash of the dummy, which
-- is computed here each time
abbrev pub stored_hash : Option Operator → OperatorTask String
stored_hash none = send (hash_password "operator-auth-dummy-password")
stored_hash (some o) = pure o.password_hash

unfoldable pub login : OperatorEnv → String → String → OperatorTask OperatorSession
login env email password = do
  operator ← query (find_operator email)
  hash ← stored_hash operator
  password_matches ← send (verify_password hash password)
  now ← query (λ w. w.now)
  login_known env email password_matches now operator
