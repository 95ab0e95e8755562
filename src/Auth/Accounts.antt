-- ===== src/Auth/Accounts.antt =====
-- auth/auth.service.ts: `acceptInvitation`, `login` and `logout`.
use aivirteach_server.Common.{
  ℕ, Bool, true, false, ◌||◌, String, Option, none, some, List, if◌then◌else◌, ◌==◌, leb, str_eq,
  is_some, find_first, update_rows, any,
}
use aivirteach_server.Process.{
  pure, ◌>>=◌, ◌>>◌, query, transaction, send, Outcome, committed, aborted, not_found,
}
use aivirteach_server.Auth.{
  User, active, Invitation, RefreshToken, AuthDatabase, hash_password, verify_password, AuthTask,
  AuthEnv, TokenPair, is_active, audit, deny, find_token, revoke_token, issue_tokens,
  accept_invitation_action, login_action, logout_action,
}

abbrev with_invited : List User → Invitation → Option (Invitation × User)
with_invited us i = elim (find_first (λ (u : User). u.id == i.user_id) us) [
  | none ↦ none
  | some u ↦ some (i, u)
]

-- invitation.findUnique({ where: { tokenHash }, include: { user: true } })
unfoldable pub find_invitation : String → AuthDatabase → Option (Invitation × User)
find_invitation h w = elim (find_first (λ (i : Invitation). str_eq i.token_hash h) w.invitations) [
  | none ↦ none
  | some i ↦ with_invited w.users i
]

-- user.update and invitation.update by id; a row that is gone is an error
unfoldable pub update_user : ℕ → (User → User) → AuthDatabase → Outcome AuthDatabase (Unit {0})
update_user id f w =
    if any (λ (u : User). u.id == id) w.users
    then committed tt (record w { users = update_rows (λ (u : User). u.id == id) f w.users })
    else aborted not_found

unfoldable pub accept_row : ℕ → AuthDatabase → Outcome AuthDatabase (Unit {0})
accept_row id w =
    if any (λ (i : Invitation). i.id == id) w.invitations
    then committed tt (record w {
      invitations =
          update_rows (λ (i : Invitation). i.id == id)
            (λ (i : Invitation). record i { accepted_at = some w.now }) w.invitations;
    })
    else aborted not_found

abbrev pub accept : AuthEnv → Invitation → User → String → AuthTask TokenPair
accept env invitation user password = do
  password_hash ← send (hash_password password)
  transaction (
      update_user invitation.user_id
        (λ (u : User). record u { password_hash = some password_hash; status = active }))
  transaction (accept_row invitation.id)
  audit (some user.id) accept_invitation_action true
  issue_tokens env user.id user.email

abbrev pub accept_found : AuthEnv → String → Option (Invitation × User) → AuthTask TokenPair
accept_found env password none = deny none accept_invitation_action
accept_found env password (some (invitation, user)) = do
  now ← query (λ w. w.now)
  if is_some invitation.accepted_at || leb invitation.expires_at now
      then deny (some invitation.user_id) accept_invitation_action
      else accept env invitation user password

unfoldable pub accept_invitation : AuthEnv → String → String → AuthTask TokenPair
accept_invitation env token password = do
  found ← query (find_invitation (env.hash token))
  accept_found env password found

-- `!user?.passwordHash`: an empty hash is none
abbrev pub usable_hash : Option String → Option String
usable_hash none = none
usable_hash (some h) = if str_eq h "" then none else some h

abbrev pub login_checked : AuthEnv → User → Bool → AuthTask TokenPair
login_checked env user false = deny (some user.id) login_action
login_checked env user true = do
  audit (some user.id) login_action true
  issue_tokens env user.id user.email

abbrev pub login_with : AuthEnv → User → String → Option String → AuthTask TokenPair
login_with env user password none = deny (some user.id) login_action
login_with env user password (some password_hash) =
    if is_active user
    then (do
      verified ← send (verify_password password_hash password)
      login_checked env user verified)
    else deny (some user.id) login_action

abbrev pub login_found : AuthEnv → String → Option User → AuthTask TokenPair
login_found env password none = deny none login_action
login_found env password (some user) = login_with env user password (usable_hash user.password_hash)

unfoldable pub login : AuthEnv → String → String → AuthTask TokenPair
login env email password = do
  found ← query (λ w. find_first (λ (u : User). str_eq u.email email) w.users)
  login_found env password found

abbrev pub logout_found : Option (RefreshToken × User) → AuthTask (Unit {0})
logout_found none = pure tt
logout_found (some (stored, user)) = if is_some stored.revoked_at then pure tt else (do
  transaction (revoke_token stored.id (λ t. t.replaced_by))
  audit (some stored.user_id) logout_action true)

unfoldable pub logout : AuthEnv → String → AuthTask (Unit {0})
logout env refresh_token = do
  found ← query (find_token (env.hash refresh_token))
  logout_found found
