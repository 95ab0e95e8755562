-- ===== src/OperatorAuth/Barred/Login.antt =====
-- No login lifts the bar, and none signs a session of the barred operator.
use aivirteach_server.Common.{
  ℕ, ◌≡◌, refl, sym, ◌∙◌, Bool, true, false, not, ◌&&◌, ◌||◌, String, Option, none, some, arith,
  inl, inr, Option-cases, find_first, ◌==◌, ltb,
}
use aivirteach_server.Process.{after, send}
use aivirteach_server.Process.Contract.{
  Contract, Safe, Safe-bind, Safe-query, Safe-execute_last, Safe-transaction, Safe-send, Safe-if,
}
use aivirteach_server.OperatorAuth.{
  Operator, OperatorDatabase, OperatorRequest, OperatorReply, OperatorTask, OperatorEnv,
  verify_password, sign_admin_token, is_active, has_id, find_operator, is_expired, is_unlocked,
  is_locked, update_operators, record_login, deny, restart_count, one_more, increment_count,
  set_lock, register_failure, reset_count, login_matching, login_known, stored_hash, login,
  max_failed_logins,
}
use aivirteach_server.OperatorAuth.Barred.{
  Bar, IsKept, IsBarred, bar_contract, IsBarred-update_rows, IsBarred-record_event,
  IsKept-find_operator,
}

module _ (window : ℕ → Type 0) (barred : Operator → Type 0) (with_resets : Bool)
    (bar : Bar window barred with_resets) (id : ℕ) where
  abbrev C : Contract OperatorDatabase OperatorRequest OperatorReply
  C = bar_contract window barred id

  abbrev IsSafe : {A : Type 0} → OperatorTask A → Type 0
  IsSafe = Safe C

  record_login-IsSafe : (email : String) (b : Bool) → IsSafe (record_login email b)
  unfolding record_login
  record_login-IsSafe email b =
      Safe-execute_last C _ (λ w i. IsBarred-record_event window barred id _ w i)

  deny-IsSafe : (email : String) → IsSafe (deny email)
  deny-IsSafe email = Safe-bind C _ _ (record_login-IsSafe email false) (λ u. tt)

  conditional-keeps :
      (i : ℕ) (p : Option ℕ → Bool) (f : Operator → Operator) (w : OperatorDatabase)
      → ((o : Operator) → (f o).id ≡ o.id)
      → ((o : Operator) → p o.locked_until ≡ true → barred o → barred (f o))
      → IsBarred window barred id w
      → IsBarred window barred id
          (after w (update_operators (λ o. has_id i o && p o.locked_until) f w))
  unfolding update_operators
  conditional-keeps i p f w same keeps h =
      IsBarred-update_rows window barred id _ f w same (λ o t. keeps o (ground (arith, t))) h

  increment_count-keeps :
      (i : ℕ) (w : OperatorDatabase)
      → IsBarred window barred id w
      → IsBarred window barred id (after w (increment_count i w))
  unfolding increment_count
  increment_count-keeps i w h = elim (Option-cases (find_first (has_id i) w.operators)) [
    | inl e ↦ rw e h
    | inr (o, e) ↦
        rw e
          (IsBarred-update_rows window barred id _ one_more w (λ o. refl) (λ o t. bar.counted o) h)
  ]

  register_failure-IsSafe : (o : Operator) (now : ℕ) → window now → IsSafe (register_failure o now)
  unfolding register_failure
  register_failure-IsSafe o now at_now =
      Safe-transaction C _ _
        (λ w i.
          conditional-keeps o.id (is_expired now) restart_count w (λ o. refl)
            (λ o t b. bar.restarted now o at_now b t) i)
        (λ n.
          Safe-if C (n == 1) _ _ (λ t. tt)
            (λ t.
              Safe-transaction C _ _ (λ w i. increment_count-keeps o.id w i)
                (λ count.
                  Safe-if C (ltb count max_failed_logins) _ _ (λ t. tt)
                    (λ t.
                      Safe-transaction C _ _
                        (λ w i.
                          conditional-keeps o.id (is_unlocked now) (set_lock now) w (λ o. refl)
                            (λ o t b. bar.locked now o at_now b t) i)
                        (λ n.
                          Safe-if C (n == 0) _ _ (λ t. tt)
                            (λ t.
                              Safe-execute_last C _
                                (λ w i. IsBarred-record_event window barred id _ w i)))))))

  login_matching-IsSafe :
      (env : OperatorEnv) (email : String) (o : Operator) (now : ℕ)
      → window now
      → ¬ (o.id ≡ id)
      → IsSafe (login_matching env email o now)
  login_matching-IsSafe env email o now at_now other =
      Safe-transaction C _ _
        (λ w i.
          conditional-keeps o.id (is_unlocked now) reset_count w (λ o. refl)
            (λ o t b. bar.released now o at_now b t) i)
        (λ n.
          Safe-if C (n == 0) _ _ (λ t. deny-IsSafe email)
            (λ t.
              Safe-bind C _ _ (record_login-IsSafe email true)
                (λ u. Safe-send C (sign_admin_token o.id o.email) _ other (λ r g. tt))))

  login_known-IsSafe :
      (env : OperatorEnv) (email : String) (b : Bool) (now : ℕ) (o : Option Operator)
      → window now
      → ((a : Operator) → o ≡ some a → IsKept window barred id a)
      → IsSafe (login_known env email b now o)
  login_known-IsSafe env email b now none at_now kept = deny-IsSafe email
  login_known-IsSafe env email b now (some o) at_now kept =
      Safe-if C (not (is_active o) || is_locked now o) _ _ (λ t. deny-IsSafe email)
        (λ t.
          Safe-if C b _ _
            (λ m.
              login_matching-IsSafe env email o now at_now
                (λ e. clash (sym t ∙ bar.denied now o at_now (kept o refl e))))
            (λ m. Safe-bind C _ _ (register_failure-IsSafe o now at_now) (λ u. deny-IsSafe email)))
    where
      clash : false ≡ true → ⊥
      clash e = cc

  stored_hash-IsSafe : (o : Option Operator) → IsSafe (stored_hash o)
  unfolding send
  stored_hash-IsSafe none = (tt, λ r g. tt)
  stored_hash-IsSafe (some o) = tt

  pub login-IsSafe :
      (env : OperatorEnv) (email password : String) → IsSafe (login env email password)
  unfolding login
  login-IsSafe env email password = Safe-query C _ _ (λ w i.
      Safe-bind C _ _ (stored_hash-IsSafe (find_operator email w)) (λ h.
        Safe-send C (verify_password h password) _ tt (λ m g. Safe-query C _ _ (λ w' i'.
          login_known-IsSafe env email m w'.now (find_operator email w) i'.now_in
            (λ a e. IsKept-find_operator window barred id email w a e i)))))
