-- ===== src/OperatorAuth/Barred.antt =====
-- An operator who is barred from logging in stays barred, whatever is interleaved.
pub mod Login
pub mod Commands
use aivirteach_server.Common.{
  ℕ, suc, ◌≤◌, ◌<◌, ◌≡◌, refl, sym, ap, ◌∙◌, Bool, true, false, not, ◌&&◌, ◌||◌, String, Option,
  none, some, List, [], ◌∷◌, arith, inl, inr, Bool-cases, Option-cases, find_first, update_rows,
  All, All-update_rows, All-find_first, All-map, ◌==◌, ==_iff, str_eq, ltb, any, if◌then◌else◌,
}
use aivirteach_server.Process.{
  Outcome, committed, aborted, after, pure, fail, atomic, request, ◌>>=◌, ◌>>◌, transaction, query,
  send, execute,
}
use aivirteach_server.Process.Contract.{
  Contract, Safe, Safe-bind, Safe-query, Safe-execute, Safe-execute_last, Safe-transaction,
  Safe-transaction_last, Safe-send, Safe-if, Config, Reaches, Reaches-IsSafe,
}
use aivirteach_server.OperatorAuth.{
  Operator, OperatorDatabase, OperatorRequest, OperatorReply, OperatorTask, OperatorEnv,
  OperatorEvent, OperatorAction, OperatorSession, hash_password, verify_password, sign_admin_token,
  verify_admin_token, generate_password, is_active, has_id, find_operator, is_expired, is_unlocked,
  is_locked, update_operators, record_event, record_login, deny, restart_count, restart_expired,
  one_more, incremented, increment_count, set_lock, lock, record_locked, register_failure,
  reset_count, release, start_session, login_matching, login_failing, login_known, stored_hash,
  login, max_failed_logins,
}
use aivirteach_server.OperatorAuth.Admin.{
  OperatorChangeContext, OperatorChangeResult, or_fail, parsed, record_change,
  stamp_password_changed, new_operator, create_operator, created_account, dry_run_of, add_to, add,
  update_operator, new_password, reset_account, reset, disable_row, disable_account, disable,
}
use aivirteach_server.OperatorAuth.System.{
  OperatorCall, logs_in, adds, disables, resets, forget, handler, is_reset, Starts, Moves,
  idle_config, SignsNotFor,
}

-- What bars an operator at the times of a window, and that no statement of a login or a command
-- lifts it.
pub record Bar (window : ℕ → Type 0) (barred : Operator → Type 0) (with_resets : Bool)
    : Type 0 where
  pub denied :
      (now : ℕ) (o : Operator)
      → window now
      → barred o
      → (not (is_active o) || is_locked now o) ≡ true
  pub restarted :
      (now : ℕ) (o : Operator)
      → window now
      → barred o
      → is_expired now o.locked_until ≡ true
      → barred (restart_count o)
  pub counted : (o : Operator) → barred o → barred (one_more o)
  pub locked :
      (now : ℕ) (o : Operator)
      → window now
      → barred o
      → is_unlocked now o.locked_until ≡ true
      → barred (set_lock now o)
  pub released :
      (now : ℕ) (o : Operator)
      → window now
      → barred o
      → is_unlocked now o.locked_until ≡ true
      → barred (reset_count o)
  pub stamped :
      (now : ℕ) (o : Operator) → barred o → barred (record o { password_changed_at = now })
  pub disabled_too : (o : Operator) → barred o → barred (disable_row o)
  pub reset_too :
      with_resets ≡ true → (h : String) (o : Operator) → barred o → barred (new_password h o)

module _ (window : ℕ → Type 0) (barred : Operator → Type 0) (id : ℕ) where
  -- a row of another operator, or a barred one
  abbrev pub IsKept : Operator → Type 0
  IsKept o = o.id ≡ id → barred o

  -- Each row with the id is barred; the id has been given, so no new row gets it.
  pub record IsBarred (w : OperatorDatabase) : Type 0 where
    pub now_in : window w.now
    pub given : id < w.next_id
    pub rows : All IsKept w.operators

  abbrev pub bar_contract : Contract OperatorDatabase OperatorRequest OperatorReply
  bar_contract = record { inv = IsBarred; allowed = allowed; good = λ q r. Unit {0} }
    where
      allowed : OperatorRequest → Type 0
      allowed (sign_admin_token i email) = ¬ (i ≡ id)
      allowed _ = Unit {0}

  pub IsBarred-rows :
      (w : OperatorDatabase) (os : List Operator)
      → IsBarred w
      → All IsKept os
      → IsBarred (record w { operators = os })
  IsBarred-rows w os i a = record { now_in = i.now_in; given = i.given; rows = a }

  pub IsBarred-update_rows :
      (p : Operator → Bool) (f : Operator → Operator) (w : OperatorDatabase)
      → ((o : Operator) → (f o).id ≡ o.id)
      → ((o : Operator) → p o ≡ true → barred o → barred (f o))
      → IsBarred w
      → IsBarred (record w { operators = update_rows p f w.operators })
  IsBarred-update_rows p f w same keeps i =
      IsBarred-rows w _ i (
        All-update_rows IsKept p f w.operators (λ o t h e. keeps o t (h (sym (same o) ∙ e))) i.rows)

  pub IsBarred-record_event :
      (e : OperatorEvent) (w : OperatorDatabase) → IsBarred w → IsBarred (record_event e w)
  unfolding record_event
  IsBarred-record_event e w i = record { now_in = i.now_in; given = i.given; rows = i.rows }

  pub IsKept-find_operator :
      (email : String) (w : OperatorDatabase) (o : Operator)
      → find_operator email w ≡ some o
      → IsBarred w
      → IsKept o
  IsKept-find_operator email w o e i = (All-find_first IsKept _ w.operators o e i.rows).0
