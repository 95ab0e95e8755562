-- ===== src/Auth/Replay.antt =====
-- A refresh with a token that was revoked before.
use aivirteach_server.Common.{
  ℕ, ◌≡◌, refl, true, String, Option, none, some, List, [], ◌∷◌, arith, is_some, find_first,
  update_rows, count_rows,
}
use aivirteach_server.Process.{unauthorized, pure, fail, atomic, request, attempt, query, execute}
use aivirteach_server.Process.Drive.{drive}
use aivirteach_server.Auth.{
  User, RefreshToken, AuthDatabase, AuthRequest, AuthReply, AuthTask, AuthEnv, is_hash,
  record_event, audit, revoke_family, revoke, is_live, find_token, with_user, include_user,
  refresh_found, refresh,
}
use aivirteach_server.Auth.Revocation.{is_revoked, row_revoked}

-- While the token is revoked, the process neither returns nor asks for anything.
abbrev pub Refuses : {A : Type 0} → String → AuthTask A → Type 0
Refuses h (pure a) = ⊥
Refuses h (fail e) = e ≡ unauthorized
Refuses h (atomic f k) = (w : AuthDatabase) → is_revoked h w ≡ true → Refuses h (k w)
Refuses h (request q k) = ⊥

Refuses-none : (h : String) (env : AuthEnv) → Refuses h (refresh_found env none)
unfolding audit execute attempt
Refuses-none h env = λ w i. refl

Refuses-some :
    (h : String) (env : AuthEnv) (stored : RefreshToken) (user : User)
    → is_some stored.revoked_at ≡ true
    → Refuses h (refresh_found env (some (stored, user)))
unfolding execute attempt
Refuses-some h env stored user e = rw e (λ w i w' i'. refl)

Refuses-with :
    (h : String) (env : AuthEnv) (t : RefreshToken) (o : Option User)
    → is_some t.revoked_at ≡ true
    → Refuses h (refresh_found env (with_user t o))
Refuses-with h env t none e = Refuses-none h env
Refuses-with h env t (some u) e = Refuses-some h env t u e

Refuses-row :
    (h : String) (env : AuthEnv) (us : List User) (o : Option RefreshToken)
    → row_revoked o ≡ true
    → Refuses h (refresh_found env (include_user us o))
Refuses-row h env us none e = Refuses-none h env
Refuses-row h env us (some t) e = Refuses-with h env t _ e

-- A refresh with a revoked token ends in `unauthorized` and never asks for an access token,
-- whatever the others do between its statements, as long as the token stays revoked.
pub refresh-Refuses :
    (env : AuthEnv) (token : String) → Refuses (env.hash token) (refresh env token)
unfolding refresh query attempt find_token
refresh-Refuses env token = λ w i.
    Refuses-row (env.hash token) env w.users
      (find_first (is_hash (env.hash token)) w.refresh_tokens) i

none_live :
    (user_id now : ℕ) (ts : List RefreshToken)
    → count_rows
        (is_live user_id)
        (update_rows (is_live user_id) (λ (t : RefreshToken). revoke now t.replaced_by t) ts)
      ≡ 0
none_live user_id now [] = refl
none_live user_id now (t ∷ ts) = ground (arith, none_live user_id now ts)

replayed :
    (oracle : (q : AuthRequest) → AuthReply q) (env : AuthEnv) (w : AuthDatabase)
    (o : Option (RefreshToken × User)) (stored : RefreshToken) (user : User)
    → o ≡ some (stored, user)
    → is_some stored.revoked_at ≡ true
    → ((drive oracle 4 w (refresh_found env o)).1 ≡ fail unauthorized)
      × (count_rows
            (is_live stored.user_id)
            (drive oracle 4 w (refresh_found env o)).0.refresh_tokens
          ≡ 0)
unfolding execute attempt drive revoke_family record_event
replayed oracle env w o stored user found revoked =
    rw found (rw (revoked, drive) (refl, none_live stored.user_id w.now w.refresh_tokens))

-- Where nobody else comes in between, a refresh with a revoked token is refused, and leaves its
-- user without any refresh token that is not revoked.
pub refresh-revokes_family :
    (oracle : (q : AuthRequest) → AuthReply q) (env : AuthEnv) (token : String) (w : AuthDatabase)
    (stored : RefreshToken) (user : User)
    → find_token (env.hash token) w ≡ some (stored, user)
    → is_some stored.revoked_at ≡ true
    → ((drive oracle 5 w (refresh env token)).1 ≡ fail unauthorized)
      × (count_rows (is_live stored.user_id) (drive oracle 5 w (refresh env token)).0.refresh_tokens
          ≡ 0)
unfolding refresh query attempt drive
refresh-revokes_family oracle env token w stored user found revoked =
    replayed oracle env w (find_token (env.hash token) w) stored user found revoked
