-- ===== src/Auth.antt =====
-- auth/auth.service.ts: invitations, login, and the rotation of refresh tokens. No method runs in a
-- transaction, so another request may come between any two statements. What argon2, jose and the
-- random generator answer is a reply; the digest of an opaque token is the parameter `hash`.
pub mod Accounts
pub mod Revocation
pub mod System
pub mod Replay
mod Tests
use aivirteach_server.Common.{
  ℕ, suc, ◌+◌, ◌*◌, ◌≡◌, Bool, true, false, ◌&&◌, ◌||◌, not, String, Option, none, some, List, ◌∷◌,
  if◌then◌else◌, ◌==◌, leb, str_eq, is_some, find_first, update_rows, any,
}
use aivirteach_server.Process.{
  Process, pure, fail, ◌>>=◌, ◌>>◌, query, execute, transaction, send, Outcome, committed, aborted,
  unauthorized, not_found, unique_violation,
}

pub data UserStatus : Type 0 where
  invited active suspended : UserStatus

pub record User : Type 0 where
  pub id : ℕ
  pub email : String
  pub password_hash : Option String
  pub status : UserStatus

pub record Invitation : Type 0 where
  pub id : ℕ
  pub user_id : ℕ
  pub token_hash : String
  pub expires_at : ℕ
  pub accepted_at : Option ℕ

pub record RefreshToken : Type 0 where
  pub id : ℕ
  pub user_id : ℕ
  pub token_hash : String
  pub expires_at : ℕ
  pub revoked_at : Option ℕ
  pub replaced_by : Option ℕ

pub data AuthAction : Type 0 where
  accept_invitation_action login_action refresh_action logout_action : AuthAction

pub record AuthEvent : Type 0 where
  pub actor : Option ℕ
  pub action : AuthAction
  pub success : Bool
  pub replayed : Bool

pub record AuthDatabase : Type 0 where
  pub now : ℕ
  pub next_id : ℕ
  pub users : List User
  pub invitations : List Invitation
  pub refresh_tokens : List RefreshToken
  pub audit_events : List AuthEvent

pub data AuthRequest : Type 0 where
  hash_password : String → AuthRequest
  verify_password : String → String → AuthRequest
  sign_access_token : ℕ → String → AuthRequest
  generate_opaque_token : AuthRequest

abbrev pub AuthReply : AuthRequest → Type 0
AuthReply (verify_password h p) = Bool
AuthReply _ = String

abbrev pub AuthTask : Type 0 → Type 0
AuthTask A = Process AuthDatabase AuthRequest AuthReply A

-- the part of `Env` that the service reads; the lifetime of an access token is in seconds
pub record AuthEnv : Type 0 where
  pub hash : String → String
  pub access_token_ttl : ℕ
  pub refresh_token_ttl_days : ℕ

abbrev pub day_ms : ℕ
day_ms = 24 * 60 * 60 * 1000

pub record TokenPair : Type 0 where
  pub access_token : String
  pub refresh_token : String
  pub expires_in : ℕ

abbrev pub is_active : User → Bool
is_active u = elim u.status [ active ↦ true | _ ↦ false ]

unfoldable pub record_event : AuthEvent → AuthDatabase → AuthDatabase
record_event e w = record w { audit_events = e ∷ w.audit_events }

unfoldable pub audit : Option ℕ → AuthAction → Bool → AuthTask (Unit {0})
audit actor action success =
    execute (
      record_event (record { actor = actor; action = action; success = success; replayed = false }))

abbrev pub deny : {A : Type 0} → Option ℕ → AuthAction → AuthTask A
deny actor action = do audit actor action false; fail unauthorized

abbrev pub is_hash : String → RefreshToken → Bool
is_hash h t = str_eq t.token_hash h

-- `include: { user: true }`: the foreign key keeps the user there
abbrev pub with_user : RefreshToken → Option User → Option (RefreshToken × User)
with_user t none = none
with_user t (some u) = some (t, u)

abbrev pub include_user : List User → Option RefreshToken → Option (RefreshToken × User)
include_user us none = none
include_user us (some t) = with_user t (find_first (λ (u : User). u.id == t.user_id) us)

-- refreshToken.findUnique({ where: { tokenHash }, include: { user: true } })
unfoldable pub find_token : String → AuthDatabase → Option (RefreshToken × User)
find_token h w = include_user w.users (find_first (is_hash h) w.refresh_tokens)

abbrev pub new_token : AuthEnv → ℕ → String → AuthDatabase → RefreshToken
new_token env user_id h w = record {
  id = w.next_id;
  user_id = user_id;
  token_hash = h;
  expires_at = w.now + env.refresh_token_ttl_days * day_ms;
  revoked_at = none;
  replaced_by = none;
}

-- refreshToken.create, under the unique index on the hash; returns the id
unfoldable pub create_token : AuthEnv → ℕ → String → AuthDatabase → Outcome AuthDatabase ℕ
create_token env user_id h w =
    if any (is_hash h) w.refresh_tokens
    then aborted unique_violation
    else committed w.next_id (record w {
      refresh_tokens = new_token env user_id h w ∷ w.refresh_tokens;
      next_id = suc w.next_id;
    })

abbrev pub revoke : ℕ → Option ℕ → RefreshToken → RefreshToken
revoke now replaced_by t = record t { revoked_at = some now; replaced_by = replaced_by }

-- refreshToken.update by id; a row that is gone is an error
unfoldable pub revoke_token :
    ℕ → (RefreshToken → Option ℕ) → AuthDatabase → Outcome AuthDatabase (Unit {0})
revoke_token id replaced_by w =
    if any (λ (t : RefreshToken). t.id == id) w.refresh_tokens
    then committed tt (record w {
      refresh_tokens =
          update_rows (λ (t : RefreshToken). t.id == id) (λ t. revoke w.now (replaced_by t) t)
            w.refresh_tokens;
    })
    else aborted not_found

abbrev pub is_live : ℕ → RefreshToken → Bool
is_live user_id t = t.user_id == user_id && not (is_some t.revoked_at)

-- refreshToken.updateMany({ where: { userId, revokedAt: null }, ... })
unfoldable pub revoke_family : ℕ → AuthDatabase → AuthDatabase
revoke_family user_id w = record w {
  refresh_tokens =
      update_rows (is_live user_id) (λ (t : RefreshToken). revoke w.now t.replaced_by t)
        w.refresh_tokens;
}

-- `issueTokensWithId`
unfoldable pub issue_tokens_with_id : AuthEnv → ℕ → String → AuthTask (TokenPair × ℕ)
issue_tokens_with_id env user_id email = do
  access_token ← send (sign_access_token user_id email)
  refresh_token ← send generate_opaque_token
  id ← transaction (create_token env user_id (env.hash refresh_token))
  pure (
    record {
      access_token = access_token;
      refresh_token = refresh_token;
      expires_in = env.access_token_ttl;
    },
    id,
  )

unfoldable pub issue_tokens : AuthEnv → ℕ → String → AuthTask TokenPair
issue_tokens env user_id email = do issued ← issue_tokens_with_id env user_id email; pure issued.0

-- `refresh`, once the row is found
abbrev pub refresh_replayed : RefreshToken → AuthTask TokenPair
refresh_replayed stored = do
  execute (revoke_family stored.user_id)
  execute (
      record_event (record {
        actor = some stored.user_id;
        action = refresh_action;
        success = false;
        replayed = true;
      }))
  fail unauthorized

abbrev pub rotate : AuthEnv → RefreshToken → User → AuthTask TokenPair
rotate env stored user = do
  issued ← issue_tokens_with_id env user.id user.email
  transaction (revoke_token stored.id (λ t. some issued.1))
  audit (some stored.user_id) refresh_action true
  pure issued.0

abbrev pub refresh_current : AuthEnv → RefreshToken → User → AuthTask TokenPair
refresh_current env stored user = do
  now ← query (λ w. w.now)
  if leb stored.expires_at now || not (is_active user)
      then deny (some stored.user_id) refresh_action
      else rotate env stored user

abbrev pub refresh_found : AuthEnv → Option (RefreshToken × User) → AuthTask TokenPair
refresh_found env none = deny none refresh_action
refresh_found env (some (stored, user)) =
    if is_some stored.revoked_at then refresh_replayed stored else refresh_current env stored user

unfoldable pub refresh : AuthEnv → String → AuthTask TokenPair
refresh env refresh_token = do
  found ← query (find_token (env.hash refresh_token))
  refresh_found env found
