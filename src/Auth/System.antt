-- ===== src/Auth/System.antt =====
-- The requests of the auth service, interleaved at every statement and every external call.
use aivirteach_server.Common.{
  [], arith, ℕ, ◌≤◌, ◌≡◌, Bool, true, false, not, ◌||◌, String, Option, none, some, leb, is_some,
  find_first, str_eq,
}
use aivirteach_server.Process.{after, pure, ◌>>=◌, ◌>>◌}
use aivirteach_server.Process.Contract.{
  Contract, Safe, Safe-bind, Safe-query, Safe-execute, Safe-execute_last, Safe-transaction,
  Safe-send, Safe-if, Config, Reaches, Reaches-IsSafe,
}
use aivirteach_server.Auth.{
  User, Invitation, RefreshToken, AuthDatabase, AuthRequest, AuthReply, AuthTask, AuthEnv,
  TokenPair, AuthAction, record_event, audit, deny, create_token, revoke_token, hash_password,
  verify_password, issue_tokens_with_id, issue_tokens, find_token, refresh_found, refresh,
  refresh_action, sign_access_token, generate_opaque_token, is_active, login_action, logout_action,
  accept_invitation_action,
}
use aivirteach_server.Auth.Accounts.{
  accept_found, accept_invitation, update_user, accept_row, login_checked, login_with, usable_hash,
  login_found, login, logout_found, logout,
}
use aivirteach_server.Auth.Revocation.{
  is_revoked, create_token-revoked, revoke_token-revoked, revoke_family-revoked,
}

abbrev pub auth_contract : String → Contract AuthDatabase AuthRequest AuthReply
auth_contract h = record {
  inv = λ w. is_revoked h w ≡ true;
  allowed = λ q. Unit {0};
  good = λ q r. Unit {0};
}

pub data AuthCall : Type 0 where
  accepts logs_in : String → String → AuthCall
  refreshes logs_out : String → AuthCall

abbrev forget : {A : Type 0} → AuthTask A → AuthTask (Unit {0})
forget m = m >>= λ a. pure tt

unfoldable pub handler : AuthEnv → AuthCall → AuthTask (Unit {0})
handler env (accepts token password) = forget (accept_invitation env token password)
handler env (logs_in email password) = forget (login env email password)
handler env (refreshes token) = forget (refresh env token)
handler env (logs_out token) = logout env token

abbrev pub Starts : AuthEnv → AuthDatabase → AuthTask (Unit {0}) → Type 0
Starts env w p = (c : AuthCall) × (p ≡ handler env c)

abbrev pub Moves : AuthDatabase → AuthDatabase → Type 0
Moves w w' = (later : ℕ) × (w.now ≤ later) × (w' ≡ record w { now = later })

abbrev pub idle_config : AuthDatabase → Config AuthDatabase AuthRequest AuthReply
idle_config w = record { world = w; running = [] }

module _ (h : String) where
  abbrev IsSafe : {A : Type 0} → AuthTask A → Type 0
  IsSafe = Safe (auth_contract h)

  audit-IsSafe : (a : Option ℕ) (c : AuthAction) (b : Bool) → IsSafe (audit a c b)
  unfolding audit record_event
  audit-IsSafe a c b = Safe-execute_last (auth_contract h) _ (λ w i. i)

  audited-IsSafe :
      {A : Type 0} (a : Option ℕ) (c : AuthAction) (b : Bool) (m : AuthTask A)
      → IsSafe m
      → IsSafe (audit a c b >> m)
  audited-IsSafe a c b m s = Safe-bind (auth_contract h) _ _ (audit-IsSafe a c b) (λ u. s)

  deny-IsSafe : (a : Option ℕ) (c : AuthAction) → IsSafe (deny {A = TokenPair} a c)
  deny-IsSafe a c = audited-IsSafe a c false _ tt

  issued-IsSafe :
      (env : AuthEnv) (user_id : ℕ) (email : String)
      → IsSafe (issue_tokens_with_id env user_id email)
  unfolding issue_tokens_with_id
  issued-IsSafe env user_id email =
      Safe-send (auth_contract h) (sign_access_token user_id email) _ tt (λ a g.
        Safe-send (auth_contract h) generate_opaque_token _ tt (λ t g'.
          Safe-transaction (auth_contract h) (create_token env user_id (env.hash t)) _
            (λ w i. create_token-revoked h env user_id (env.hash t) w i) (λ id. tt)))

  issue_tokens-IsSafe :
      (env : AuthEnv) (user_id : ℕ) (email : String) → IsSafe (issue_tokens env user_id email)
  unfolding issue_tokens
  issue_tokens-IsSafe env user_id email =
      Safe-bind (auth_contract h) _ _ (issued-IsSafe env user_id email) (λ a. tt)

  refresh_found-IsSafe :
      (env : AuthEnv) (o : Option (RefreshToken × User)) → IsSafe (refresh_found env o)
  unfolding record_event
  refresh_found-IsSafe env none = deny-IsSafe none refresh_action
  refresh_found-IsSafe env (some (stored, user)) =
      Safe-if (auth_contract h) (is_some stored.revoked_at) _ _
        (λ t.
          Safe-execute (auth_contract h) _ _ (λ w i. revoke_family-revoked h stored.user_id w i)
            (Safe-execute (auth_contract h) _ _ (λ w i. i) tt))
        (λ t. Safe-query (auth_contract h) _ _ (λ w i.
          Safe-if (auth_contract h) (leb stored.expires_at w.now || not (is_active user)) _ _
            (λ e. deny-IsSafe (some stored.user_id) refresh_action)
            (λ e. Safe-bind (auth_contract h) _ _ (issued-IsSafe env user.id user.email) (λ issued.
              Safe-transaction (auth_contract h) (revoke_token stored.id (λ t. some issued.1)) _
                (λ w i. revoke_token-revoked h stored.id _ w i)
                (λ u. audited-IsSafe (some stored.user_id) refresh_action true _ tt)))))

  refresh-IsSafe : (env : AuthEnv) (token : String) → IsSafe (refresh env token)
  unfolding refresh
  refresh-IsSafe env token =
      Safe-query (auth_contract h) _ _
        (λ w i. refresh_found-IsSafe env (find_token (env.hash token) w))

  update_user-revoked :
      (id : ℕ) (f : User → User) (w : AuthDatabase)
      → is_revoked h w ≡ true
      → is_revoked h (after w (update_user id f w)) ≡ true
  unfolding update_user
  update_user-revoked id f w i = ground arith

  accept_row-revoked :
      (id : ℕ) (w : AuthDatabase)
      → is_revoked h w ≡ true
      → is_revoked h (after w (accept_row id w)) ≡ true
  unfolding accept_row
  accept_row-revoked id w i = ground arith

  accept_found-IsSafe :
      (env : AuthEnv) (password : String) (o : Option (Invitation × User))
      → IsSafe (accept_found env password o)
  accept_found-IsSafe env password none = deny-IsSafe none accept_invitation_action
  accept_found-IsSafe env password (some (invitation, user)) =
      Safe-query (auth_contract h) _ _ (λ w i.
        Safe-if (auth_contract h)
          (is_some invitation.accepted_at || leb invitation.expires_at w.now) _ _
          (λ t. deny-IsSafe (some invitation.user_id) accept_invitation_action)
          (λ t. Safe-send (auth_contract h) (hash_password password) _ tt (λ p g.
            Safe-transaction (auth_contract h) _ _
              (λ w i. update_user-revoked invitation.user_id _ w i)
              (λ u.
                Safe-transaction (auth_contract h) _ _ (λ w i. accept_row-revoked invitation.id w i)
                  (λ v.
                    audited-IsSafe (some user.id) accept_invitation_action true _
                      (issue_tokens-IsSafe env user.id user.email))))))

  login_checked-IsSafe :
      (env : AuthEnv) (user : User) (b : Bool) → IsSafe (login_checked env user b)
  login_checked-IsSafe env user false = deny-IsSafe (some user.id) login_action
  login_checked-IsSafe env user true =
      audited-IsSafe (some user.id) login_action true _ (issue_tokens-IsSafe env user.id user.email)

  login_with-IsSafe :
      (env : AuthEnv) (user : User) (password : String) (o : Option String)
      → IsSafe (login_with env user password o)
  login_with-IsSafe env user password none = deny-IsSafe (some user.id) login_action
  login_with-IsSafe env user password (some p) =
      Safe-if (auth_contract h) (is_active user) _ _
        (λ t.
          Safe-send (auth_contract h) (verify_password p password) _ tt
            (λ b g. login_checked-IsSafe env user b))
        (λ t. deny-IsSafe (some user.id) login_action)

  login_found-IsSafe :
      (env : AuthEnv) (password : String) (o : Option User) → IsSafe (login_found env password o)
  login_found-IsSafe env password none = deny-IsSafe none login_action
  login_found-IsSafe env password (some user) =
      login_with-IsSafe env user password (usable_hash user.password_hash)

  logout_found-IsSafe : (o : Option (RefreshToken × User)) → IsSafe (logout_found o)
  logout_found-IsSafe none = tt
  logout_found-IsSafe (some (stored, user)) =
      Safe-if (auth_contract h) (is_some stored.revoked_at) _ _ (λ t. tt)
        (λ t.
          Safe-transaction (auth_contract h) _ _ (λ w i. revoke_token-revoked h stored.id _ w i)
            (λ u. audit-IsSafe (some stored.user_id) logout_action true))

  forget-IsSafe : {A : Type 0} (m : AuthTask A) → IsSafe m → IsSafe (forget m)
  forget-IsSafe m s = Safe-bind (auth_contract h) m _ s (λ a. tt)

  handler-IsSafe : (env : AuthEnv) (c : AuthCall) → IsSafe (handler env c)
  unfolding handler accept_invitation login logout
  handler-IsSafe env (accepts token password) =
      forget-IsSafe _ (Safe-query (auth_contract h) _ _ (λ w i. accept_found-IsSafe env password _))
  handler-IsSafe env (logs_in email password) = forget-IsSafe _ (
      Safe-query (auth_contract h) _ _ (λ w i.
        login_found-IsSafe env password (find_first (λ (u : User). str_eq u.email email) w.users)))
  handler-IsSafe env (refreshes token) = forget-IsSafe _ (refresh-IsSafe env token)
  handler-IsSafe env (logs_out token) =
      Safe-query (auth_contract h) _ _ (λ w i. logout_found-IsSafe _)

-- A refresh token whose hash is stored as revoked stays revoked, whatever invitations, logins, refreshes and
-- logouts run and however their statements interleave.
pub runs_keep_revoked :
    (h : String) (env : AuthEnv) (w : AuthDatabase) (d : Config AuthDatabase AuthRequest AuthReply)
    → is_revoked h w ≡ true
    → Reaches (auth_contract h) (Starts env) Moves (idle_config w) d
    → is_revoked h d.world ≡ true
runs_keep_revoked h env w d e r =
    (Reaches-IsSafe (auth_contract h) (Starts env) Moves
      (λ w p i s. rw s.1 (handler-IsSafe h env s.0)) (λ w w' i m. rw m.2 i)
      (record { inv = e; all_safe = tt }) r).inv
