-- ===== src/OperatorAuth/Refusal.antt =====
-- Logins with a wrong password, and the guard of the admin routes after a reset or a disabling.
use aivirteach_server.Common.{
  ℕ, ◌/◌, ◌<◌, ◌≡◌, refl, ◌∙◌, Bool, true, false, ◌||◌, not, String, Option, none, some, List, [],
  ◌∷◌, arith, ltb, str_eq, find_first, update_rows, All, All-find_first, All-update_rows, ==_iff,
  any, if◌then◌else◌,
}
use aivirteach_server.Process.{attempt, query, execute, send, transaction}
use aivirteach_server.Process.Contract.{Contract}
use aivirteach_server.Process.Drive.{drive}
use aivirteach_server.Process.Refusal.{
  Refuses, Refuses-bind, Refuses-query, Refuses-send, Refuses-if,
}
use aivirteach_server.OperatorAuth.{
  Operator, OperatorDatabase, OperatorRequest, OperatorReply, OperatorEnv, AdminClaims,
  verify_password, verify_admin_token, hash_password, generate_password, is_active, is_locked,
  has_id, find_operator, deny, login_known, login, record_event,
}
use aivirteach_server.OperatorAuth.Admin.{
  OperatorChangeContext, reset, update_operator, new_password, stamp_password_changed,
  record_change,
}
use aivirteach_server.OperatorAuth.Guard.{admit, admit_claims, can_activate, bearer_token}

-- Any world; argon2 finds that no password matches.
abbrev pub wrong_password : Contract OperatorDatabase OperatorRequest OperatorReply
wrong_password = record { inv = λ w. Unit {0}; allowed = λ q. Unit {0}; good = good }
  where
    good : (q : OperatorRequest) → OperatorReply q → Type 0
    good (verify_password h p) r = r ≡ false
    good _ r = Unit {0}

deny-Refuses : (email : String) → Refuses wrong_password (deny email)
deny-Refuses email = Refuses-bind wrong_password _ _ (λ u. tt)

login_known-Refuses :
    (env : OperatorEnv) (email : String) (now : ℕ) (o : Option Operator)
    → Refuses wrong_password (login_known env email false now o)
login_known-Refuses env email now none = deny-Refuses email
login_known-Refuses env email now (some o) =
    Refuses-if wrong_password (not (is_active o) || is_locked now o) _ _ (λ t. deny-Refuses email)
      (λ t. Refuses-bind wrong_password _ _ (λ u. deny-Refuses email))

-- A login whose password does not match the stored hash never returns a session, whatever the
-- other requests change between its statements.
pub login-Refuses :
    (env : OperatorEnv) (email password : String)
    → Refuses wrong_password (login env email password)
unfolding login
login-Refuses env email password = Refuses-query wrong_password _ _ (λ w i.
    Refuses-bind wrong_password _ _ (λ h.
      Refuses-send wrong_password (verify_password h password) _ (λ m g.
        rw g (Refuses-query wrong_password _ _ (λ w' i'. login_known-Refuses env email w'.now _)))))

-- The operator is disabled, or got the password after this time (in seconds).
abbrev pub is_refused : ℕ → Operator → Bool
is_refused iat o = not (is_active o) || ltb iat (o.password_changed_at / 1000)

abbrev pub IsRevoked : ℕ → ℕ → OperatorDatabase → Type 0
IsRevoked id iat w = All (λ (o : Operator). o.id ≡ id → is_refused iat o ≡ true) w.operators

-- A token of this operator, issued at this time.
abbrev pub revoked_contract : ℕ → ℕ → Contract OperatorDatabase OperatorRequest OperatorReply
revoked_contract id iat = record { inv = IsRevoked id iat; allowed = λ q. Unit {0}; good = good }
  where
    good : (q : OperatorRequest) → OperatorReply q → Type 0
    good (verify_admin_token t) r = (c : AdminClaims) → r ≡ some c → (c.sub ≡ id) × (c.iat ≡ iat)
    good _ r = Unit {0}

module _ (id iat : ℕ) where
  same_id : (i : ℕ) (o : Operator) → has_id i o ≡ true → o.id ≡ i
  same_id i o h = ground (arith, h)

  admit-Refuses :
      (claims : AdminClaims) (w : OperatorDatabase) (o : Option Operator)
      → (claims.sub ≡ id) × (claims.iat ≡ iat)
      → find_first (has_id claims.sub) w.operators ≡ o
      → IsRevoked id iat w
      → Refuses (revoked_contract id iat) (admit claims o)
  admit-Refuses claims w none c e i = tt
  admit-Refuses claims w (some o) c e i =
      let found =
        All-find_first (λ (o : Operator). o.id ≡ id → is_refused iat o ≡ true) (has_id claims.sub)
          w.operators o e i in
      rw (c.1) (rw (found.0 (same_id claims.sub o found.1 ∙ c.0)) tt)

  admit_claims-Refuses :
      (r : Option AdminClaims)
      → ((c : AdminClaims) → r ≡ some c → (c.sub ≡ id) × (c.iat ≡ iat))
      → Refuses (revoked_contract id iat) (admit_claims r)
  admit_claims-Refuses none g = tt
  admit_claims-Refuses (some c) g =
      Refuses-query (revoked_contract id iat) _ _ (λ w i. admit-Refuses c w _ (g c refl) refl i)

  pub can_activate-Refuses :
      (header : Option String) → Refuses (revoked_contract id iat) (can_activate header)
  unfolding can_activate
  can_activate-Refuses header =
      Refuses-if (revoked_contract id iat) (str_eq (bearer_token header) "") _ _ (λ t. tt)
        (λ t.
          Refuses-send (revoked_contract id iat) (verify_admin_token (bearer_token header)) _
            (λ r g. admit_claims-Refuses r g))

found_present :
    (email : String) (os : List Operator) (o : Operator)
    → find_first (λ (r : Operator). str_eq r.email email) os ≡ some o
    → any (has_id o.id) os ≡ true
found_present email [] o e = cc
found_present email (x ∷ xs) o e = ground (arith, ==_iff o.id o.id, found_present email xs o)

module _ (oracle : (q : OperatorRequest) → OperatorReply q) (env : OperatorEnv) (raw email : String)
    (ctx : OperatorChangeContext) (w : OperatorDatabase) (o : Operator)
    (valid : env.parse_email raw ≡ some email) (found : find_operator email w ≡ some o)
    (asked : ctx.execute_it ≡ true) where
  abbrev reset_row : Operator → Operator
  reset_row = new_password (oracle (hash_password (oracle generate_password)))

  reset_operators :
      any (has_id o.id) w.operators ≡ true
      → (drive oracle 6 w (reset env raw ctx)).0.operators
        ≡ (stamp_password_changed email
            (record w { operators = update_rows (has_id o.id) reset_row w.operators })).operators
  unfolding drive reset query transaction execute send attempt update_operator record_change
      record_event
  reset_operators present =
      rw valid (rw (found, drive) (rw (asked, drive) (rw (present, drive) (rw present refl))))

  -- The rows with the id of the operator have its email: they are one row.
  abbrev IsUnique : Type 0
  IsUnique = All (λ (r : Operator). r.id ≡ o.id → str_eq r.email email ≡ true) w.operators

  stamped_row :
      (iat : ℕ) (r : Operator)
      → iat < w.now / 1000
      → is_refused iat (record r { password_changed_at = w.now }) ≡ true
  stamped_row iat r h = or_true (is_active r) (ltb iat (w.now / 1000)) (ground (arith, h))
    where
      or_true : (a b : Bool) → b ≡ true → (not a || b) ≡ true
      or_true a b t = ground arith

  stamped_rows :
      (iat : ℕ) (os : List Operator)
      → iat < w.now / 1000
      → All (λ (r : Operator). r.id ≡ o.id → str_eq r.email email ≡ true) os
      → All
          (λ (r : Operator). r.id ≡ o.id → is_refused iat r ≡ true)
          (update_rows
            (λ (r : Operator). str_eq r.email email)
            (λ (r : Operator). record r { password_changed_at = w.now })
            os)
  stamped_rows iat [] h one = tt
  stamped_rows iat (r ∷ rs) h one = (this (str_eq r.email email) refl, stamped_rows iat rs h one.1)
    where
      clash : {A : Type 0} (b : Bool) → b ≡ true → b ≡ false → A
      clash b t f = ground arith

      this :
          (b : Bool)
          → str_eq r.email email ≡ b
          → (if b then record r { password_changed_at = w.now } else r).id ≡ o.id
          → is_refused iat (if b then record r { password_changed_at = w.now } else r) ≡ true
      this true e same = stamped_row iat r h
      this false e same = clash (str_eq r.email email) (one.0 same) e

  -- After the reset of an operator, run alone, the guard never admits a token that was issued to it
  -- in an earlier second, in whatever worlds follow where the account is still as old.
  pub reset-Refuses :
      (iat : ℕ) (header : Option String)
      → iat < w.now / 1000
      → IsUnique
      → IsRevoked o.id iat (drive oracle 6 w (reset env raw ctx)).0
        × Refuses (revoked_contract o.id iat) (can_activate header)
  reset-Refuses iat header h one = (
    rw (reset_operators (found_present email w.operators o found)) (
        stamped_rows iat (update_rows (has_id o.id) reset_row w.operators) h (
          All-update_rows (λ (r : Operator). r.id ≡ o.id → str_eq r.email email ≡ true)
            (has_id o.id) reset_row w.operators (λ r t u. u) one)),
    can_activate-Refuses o.id iat header,
  )
