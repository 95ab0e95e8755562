-- ===== src/Auth/Revocation.antt =====
-- A revoked refresh token, whatever the other requests do.
use aivirteach_server.Common.{
  ℕ, ◌≡◌, refl, Bool, true, false, String, Option, none, some, List, [], ◌∷◌, arith, ◌==◌, str_eq,
  eq_iff, is_some, find_first, update_rows, any,
}
use aivirteach_server.Process.{after}
use aivirteach_server.Auth.{
  RefreshToken, AuthDatabase, AuthEnv, is_hash, create_token, revoke_token, revoke_family, revoke,
  is_live,
}

-- The row of the token is there, and it is revoked.
abbrev pub row_revoked : Option RefreshToken → Bool
row_revoked none = false
row_revoked (some t) = is_some t.revoked_at

abbrev pub is_revoked : String → AuthDatabase → Bool
is_revoked h w = row_revoked (find_first (is_hash h) w.refresh_tokens)

-- A change that keeps the hash and revokes keeps what is revoked.
update-revoked :
    (h : String) (p : RefreshToken → Bool) (now : ℕ) (by : RefreshToken → Option ℕ)
    (ts : List RefreshToken)
    → row_revoked (find_first (is_hash h) ts) ≡ true
    → row_revoked (find_first (is_hash h) (update_rows p (λ t. revoke now (by t) t) ts)) ≡ true
update-revoked h p now by [] e = e
update-revoked h p now by (t ∷ ts) e = ground (arith, update-revoked h p now by ts)

no_hash :
    (h k : String) (ts : List RefreshToken)
    → str_eq k h ≡ true
    → any (is_hash k) ts ≡ false
    → row_revoked (find_first (is_hash h) ts) ≡ false
no_hash h k [] s e = refl
no_hash h k (t ∷ ts) s e =
    ground (arith, eq_iff k h, eq_iff t.token_hash h, eq_iff t.token_hash k, no_hash h k ts s)

pub create_token-revoked :
    (h : String) (env : AuthEnv) (user_id : ℕ) (k : String) (w : AuthDatabase)
    → is_revoked h w ≡ true
    → is_revoked h (after w (create_token env user_id k w)) ≡ true
unfolding create_token
create_token-revoked h env user_id k w e = ground (arith, no_hash h k w.refresh_tokens)

pub revoke_token-revoked :
    (h : String) (id : ℕ) (by : RefreshToken → Option ℕ) (w : AuthDatabase)
    → is_revoked h w ≡ true
    → is_revoked h (after w (revoke_token id by w)) ≡ true
unfolding revoke_token
revoke_token-revoked h id by w e =
    ground (arith, update-revoked h (λ (t : RefreshToken). t.id == id) w.now by w.refresh_tokens)

pub revoke_family-revoked :
    (h : String) (user_id : ℕ) (w : AuthDatabase)
    → is_revoked h w ≡ true
    → is_revoked h (revoke_family user_id w) ≡ true
unfolding revoke_family
revoke_family-revoked h user_id w e =
    update-revoked h (is_live user_id) w.now (λ (t : RefreshToken). t.replaced_by) w.refresh_tokens
      e
