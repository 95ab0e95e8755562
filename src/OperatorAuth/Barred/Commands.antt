-- ===== src/OperatorAuth/Barred/Commands.antt =====
-- No command lifts the bar, and so no run of the system does.
use aivirteach_server.Common.{
  ℕ, suc, ◌<◌, ◌≡◌, refl, Bool, true, false, not, ◌&&◌, String, Option, none, some, ◌∷◌, arith, inl,
  inr, Bool-cases, Option-cases, All, All-map, str_eq, any,
}
use aivirteach_server.Process.{after, pure, fail, atomic, request}
use aivirteach_server.Process.Contract.{
  Contract, Safe, Safe-bind, Safe-query, Safe-execute_last, Safe-transaction, Safe-send, Safe-if,
  Config, Reaches, Reaches-IsSafe,
}
use aivirteach_server.OperatorAuth.{
  Operator, OperatorDatabase, OperatorRequest, OperatorReply, OperatorTask, OperatorEnv,
  OperatorAction, hash_password, verify_password, sign_admin_token, verify_admin_token,
  generate_password, has_id, find_operator,
}
use aivirteach_server.OperatorAuth.Admin.{
  OperatorChangeContext, or_fail, parsed, record_change, stamp_password_changed, new_operator,
  create_operator, add_to, add, update_operator, new_password, reset, disable_row, disable,
}
use aivirteach_server.OperatorAuth.System.{
  OperatorCall, logs_in, adds, disables, resets, forget, handler, is_reset, Starts, Moves,
  idle_config, SignsNotFor,
}
use aivirteach_server.OperatorAuth.Barred.{
  Bar, IsBarred, bar_contract, IsBarred-update_rows, IsBarred-record_event,
}
use aivirteach_server.OperatorAuth.Barred.Login.{login-IsSafe}

module _ (window : ℕ → Type 0) (barred : Operator → Type 0) (with_resets : Bool)
    (bar : Bar window barred with_resets) (id : ℕ) where
  abbrev C : Contract OperatorDatabase OperatorRequest OperatorReply
  C = bar_contract window barred id

  abbrev IsSafe : {A : Type 0} → OperatorTask A → Type 0
  IsSafe = Safe C

  record_change-IsSafe :
      (a : OperatorAction) (i : ℕ) (ctx : OperatorChangeContext) → IsSafe (record_change a i ctx)
  unfolding record_change
  record_change-IsSafe a i ctx =
      Safe-execute_last C _ (λ w i. IsBarred-record_event window barred id _ w i)

  stamp_password_changed-keeps :
      (email : String) (w : OperatorDatabase)
      → IsBarred window barred id w
      → IsBarred window barred id (stamp_password_changed email w)
  stamp_password_changed-keeps email w i =
      IsBarred-update_rows window barred id _
        (λ (o : Operator). record o { password_changed_at = w.now }) w (λ o. refl)
        (λ o t. bar.stamped w.now o) i

  create_operator-keeps :
      (email h : String) (w : OperatorDatabase)
      → IsBarred window barred id w
      → IsBarred window barred id (after w (create_operator email h w))
  unfolding create_operator
  create_operator-keeps email h w i =
      elim (Bool-cases (any (λ (o : Operator). str_eq o.email email) w.operators)) [
        | inl t ↦ rw t i
        | inr t ↦ rw t (
            stamp_password_changed-keeps email
              (record w {
                operators = new_operator email h w ∷ w.operators;
                next_id = suc w.next_id;
              })
              (record {
                now_in = i.now_in;
                given = omega (arith, i.given);
                rows = (λ e. absurd (fresh w.next_id i.given e), i.rows);
              }))
      ]
    where
      fresh : (n : ℕ) → id < n → n ≡ id → ⊥
      fresh n l e = omega (arith, l, e)

  update_operator-keeps :
      (i : ℕ) (f : Operator → Operator) (g : OperatorDatabase → OperatorDatabase)
      (w : OperatorDatabase)
      → ((o : Operator) → (f o).id ≡ o.id)
      → ((o : Operator) → barred o → barred (f o))
      → ((w : OperatorDatabase) → IsBarred window barred id w → IsBarred window barred id (g w))
      → IsBarred window barred id w
      → IsBarred window barred id (after w (update_operator i f g w))
  unfolding update_operator
  update_operator-keeps i f g w same keeps more h = elim (Bool-cases (any (has_id i) w.operators)) [
    | inl t ↦ rw t (more _ (IsBarred-update_rows window barred id _ f w same (λ o u. keeps o) h))
    | inr t ↦ rw t h
  ]

  parsed-IsSafe : (env : OperatorEnv) (raw : String) → IsSafe (parsed env raw)
  parsed-IsSafe env raw = elim (Option-cases (env.parse_email raw)) [
    | inl e ↦ rw e tt
    | inr (email, e) ↦ rw e tt
  ]

  or_fail-IsSafe : {A : Type 0} (o : Option A) → IsSafe (or_fail o)
  or_fail-IsSafe none = tt
  or_fail-IsSafe (some a) = tt

  add_to-IsSafe :
      (email : String) (ctx : OperatorChangeContext) (o : Option Operator)
      → IsSafe (add_to email ctx o)
  add_to-IsSafe email ctx (some o) = tt
  add_to-IsSafe email ctx none =
      Safe-if C ctx.execute_it _ _
        (λ t. Safe-send C generate_password _ tt (λ p g. Safe-send C (hash_password p) _ tt (λ h g'.
          Safe-transaction C _ _ (λ w i. create_operator-keeps email h w i)
            (λ n. Safe-bind C _ _ (record_change-IsSafe _ n ctx) (λ u. tt)))))
        (λ t. tt)

  add-IsSafe :
      (env : OperatorEnv) (raw : String) (ctx : OperatorChangeContext) → IsSafe (add env raw ctx)
  unfolding add
  add-IsSafe env raw ctx =
      Safe-bind C _ _ (parsed-IsSafe env raw)
        (λ email. Safe-query C _ _ (λ w i. add_to-IsSafe email ctx (find_operator email w)))

  disable-IsSafe :
      (env : OperatorEnv) (raw : String) (ctx : OperatorChangeContext)
      → IsSafe (disable env raw ctx)
  unfolding disable
  disable-IsSafe env raw ctx = Safe-bind C _ _ (parsed-IsSafe env raw) (λ email.
      Safe-query C _ _ (λ w i. Safe-bind C _ _ (or_fail-IsSafe (find_operator email w)) (λ o.
        Safe-if C ctx.execute_it _ _
          (λ t.
            Safe-transaction C _ _
              (λ w i.
                update_operator-keeps o.id disable_row (λ w. w) w (λ o. refl)
                  (λ o b. bar.disabled_too o b) (λ w i. i) i)
              (λ u. Safe-bind C _ _ (record_change-IsSafe _ o.id ctx) (λ v. tt)))
          (λ t. tt))))

  reset-IsSafe :
      (env : OperatorEnv) (raw : String) (ctx : OperatorChangeContext)
      → with_resets ≡ true
      → IsSafe (reset env raw ctx)
  unfolding reset
  reset-IsSafe env raw ctx with_them = Safe-bind C _ _ (parsed-IsSafe env raw) (λ email.
      Safe-query C _ _ (λ w i. Safe-bind C _ _ (or_fail-IsSafe (find_operator email w)) (λ o.
        Safe-if C ctx.execute_it _ _
          (λ t. Safe-send C generate_password _ tt (λ p g.
            Safe-send C (hash_password p) _ tt (λ h g'.
              Safe-transaction C _ _
                (λ w i.
                  update_operator-keeps o.id (new_password h) (stamp_password_changed email) w
                    (λ o. refl) (λ o b. bar.reset_too with_them h o b)
                    (λ w i. stamp_password_changed-keeps email w i) i)
                (λ u. Safe-bind C _ _ (record_change-IsSafe _ o.id ctx) (λ v. tt)))))
          (λ t. tt))))

  forget-IsSafe : {A : Type 0} (m : OperatorTask A) → IsSafe m → IsSafe (forget m)
  forget-IsSafe m s = Safe-bind C m _ s (λ a. tt)

  handler-IsSafe :
      (env : OperatorEnv) (c : OperatorCall)
      → (is_reset c && not with_resets) ≡ false
      → IsSafe (handler env c)
  unfolding handler
  handler-IsSafe env (logs_in email password) h =
      forget-IsSafe _ (login-IsSafe window barred with_resets bar id env email password)
  handler-IsSafe env (adds email ctx) h = forget-IsSafe _ (add-IsSafe env email ctx)
  handler-IsSafe env (disables email ctx) h = forget-IsSafe _ (disable-IsSafe env email ctx)
  handler-IsSafe env (resets email ctx) h =
      forget-IsSafe _ (reset-IsSafe env email ctx (not_false with_resets h))
    where
      not_false : (b : Bool) → not b ≡ false → b ≡ true
      not_false b e = ground arith

  Safe-SignsNotFor : (p : OperatorTask (Unit {0})) → IsSafe p → SignsNotFor id p
  Safe-SignsNotFor (pure a) s = tt
  Safe-SignsNotFor (fail e) s = tt
  Safe-SignsNotFor (atomic f k) s = tt
  Safe-SignsNotFor (request (hash_password p) k) s = tt
  Safe-SignsNotFor (request (verify_password h p) k) s = tt
  Safe-SignsNotFor (request (sign_admin_token i e) k) s = s.0
  Safe-SignsNotFor (request (verify_admin_token t) k) s = tt
  Safe-SignsNotFor (request generate_password k) s = tt

  -- Where the clock stays in the window: each row with the id is barred, and no process signs for it.
  pub runs-IsBarred :
      (env : OperatorEnv) (w : OperatorDatabase)
      (d : Config OperatorDatabase OperatorRequest OperatorReply)
      → IsBarred window barred id w
      → Reaches C (Starts with_resets env) (Moves window) (idle_config w) d
      → IsBarred window barred id d.world × All (SignsNotFor id) d.running
  runs-IsBarred env w d i r =
      let safe =
        Reaches-IsSafe C (Starts with_resets env) (Moves window)
          (λ w p i s. rw s.2 (handler-IsSafe env s.0 s.1))
          (λ w w' i m. rw m.3 (record { now_in = m.2; given = i.given; rows = i.rows }))
          (record { inv = i; all_safe = tt }) r in
      (
        safe.inv,
        All-map (Safe C) (SignsNotFor id) d.running (λ p s. Safe-SignsNotFor p s) safe.all_safe,
      )
