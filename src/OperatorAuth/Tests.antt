-- ===== src/OperatorAuth/Tests.antt =====
-- A locked operator, and one whose account is disabled.
use aivirteach_server.Common.{◌*◌, ◌≡◌, refl, true, false, none, some, [], ◌∷◌, arith, All}
use aivirteach_server.Process.{query, transaction, execute, send, attempt}
use aivirteach_server.Process.Contract.{Reaches, Step}
use aivirteach_server.Process.Drive.{drive, drive-Reaches}
use aivirteach_server.Process.Refusal.{Refuses}
use aivirteach_server.OperatorAuth.{
  Operator, active, disabled, OperatorDatabase, OperatorRequest, OperatorReply, OperatorTask,
  OperatorEnv, hash_password, verify_password, sign_admin_token, verify_admin_token,
  generate_password, login, register_failure, update_operators, increment_count, record_login,
  record_event,
}
use aivirteach_server.OperatorAuth.Admin.{OperatorChangeContext, reset}
use aivirteach_server.OperatorAuth.Guard.{can_activate}
use aivirteach_server.Process.{pure}
use aivirteach_server.OperatorAuth.Counting.{
  fail_at, state_of, with_state, register_failure-fail_at,
}
use aivirteach_server.OperatorAuth.System.{
  handler, logs_in, resets, Starts, Moves, idle_config, SignsNotFor,
}
use aivirteach_server.OperatorAuth.Barred.{bar_contract}
use aivirteach_server.OperatorAuth.Lock.{Before, LockedAt, IsLockedUntil, runs_keep-IsLockedUntil}
use aivirteach_server.OperatorAuth.Disabled.{AnyTime, Inactive, IsDisabled, runs_keep-IsDisabled}
use aivirteach_server.OperatorAuth.Refusal.{
  wrong_password, login-Refuses, revoked_contract, IsRevoked, reset-Refuses,
}

abbrev test_env : OperatorEnv
test_env = record { parse_email = λ s. some s; session_ttl = 8 * 3600 }

abbrev anna : Operator
anna = record {
  id = 1;
  email = "anna";
  password_hash = "h";
  status = active;
  failed_login_count = 4;
  locked_until = none;
  password_changed_at = 0;
}

abbrev office : OperatorDatabase
office = record { now = 5000; next_id = 2; operators = anna ∷ []; audit_events = [] }

abbrev locked_office : OperatorDatabase
locked_office = record office {
  operators = record anna { failed_login_count = 5; locked_until = some 905000 } ∷ [];
}

abbrev closed_office : OperatorDatabase
closed_office = record office { operators = record anna { status = disabled } ∷ [] }

abbrev external : (q : OperatorRequest) → OperatorReply q
external (hash_password p) = p
external (verify_password h p) = true
external (sign_admin_token i e) = "jwt"
external (verify_admin_token t) = none
external generate_password = "fresh"

abbrev mistaken : (q : OperatorRequest) → OperatorReply q
mistaken (hash_password p) = p
mistaken (verify_password h p) = false
mistaken (sign_admin_token i e) = "jwt"
mistaken (verify_admin_token t) = none
mistaken generate_password = "fresh"

-- The fifth failure locks the account for fifteen minutes.
fifth_failure :
    (drive mistaken 20 office (login test_env "anna" "p")).0.operators ≡ locked_office.operators
unfolding drive login register_failure update_operators increment_count record_login record_event
    query transaction execute send attempt
fifth_failure = refl

tried : OperatorDatabase × OperatorTask (Unit {0})
unfolding drive
tried = drive external 20 locked_office (handler test_env (logs_in "anna" "p"))

tried_runs :
    Reaches
      (bar_contract (Before 905000) (LockedAt 905000) 1)
      (Starts false test_env)
      (Moves (Before 905000))
      (idle_config locked_office)
      (record { world = tried.0; running = tried.1 ∷ [] })
unfolding tried
tried_runs =
    drive-Reaches external (bar_contract (Before 905000) (LockedAt 905000) 1)
      (Starts false test_env) (Moves (Before 905000)) (λ q. tt) 20 locked_office
      (handler test_env (logs_in "anna" "p")) []
      (Reaches.next Reaches.here
        (Step.start (handler test_env (logs_in "anna" "p")) (logs_in "anna" "p", refl, refl) refl))

runs_keep-IsLockedUntil_example :
    IsLockedUntil 905000 1 tried.0 × All (SignsNotFor 1) (tried.1 ∷ [])
runs_keep-IsLockedUntil_example =
    runs_keep-IsLockedUntil 905000 1 test_env locked_office
      (record { world = tried.0; running = tried.1 ∷ [] })
      (record { now_in = omega arith; given = omega arith; rows = (λ e. refl, tt) }) tried_runs

abbrev change : OperatorChangeContext
change = record { operator = "root"; reason = "lost"; execute_it = true }

reset_closed : OperatorDatabase × OperatorTask (Unit {0})
unfolding drive
reset_closed = drive external 20 closed_office (handler test_env (resets "anna" change))

reset_closed_runs :
    Reaches
      (bar_contract AnyTime Inactive 1)
      (Starts true test_env)
      (Moves AnyTime)
      (idle_config closed_office)
      (record { world = reset_closed.0; running = reset_closed.1 ∷ [] })
unfolding reset_closed
reset_closed_runs =
    drive-Reaches external (bar_contract AnyTime Inactive 1) (Starts true test_env) (Moves AnyTime)
      (λ q. tt) 20 closed_office (handler test_env (resets "anna" change)) []
      (Reaches.next Reaches.here (
        Step.start (handler test_env (resets "anna" change)) (resets "anna" change, refl, refl)
          refl))

runs_keep-IsDisabled_example :
    IsDisabled 1 reset_closed.0 × All (SignsNotFor 1) (reset_closed.1 ∷ [])
runs_keep-IsDisabled_example =
    runs_keep-IsDisabled 1 test_env closed_office
      (record { world = reset_closed.0; running = reset_closed.1 ∷ [] })
      (record { now_in = tt; given = omega arith; rows = (λ e. refl, tt) }) reset_closed_runs

login-Refuses_example : Refuses wrong_password (login test_env "anna" "p")
login-Refuses_example = login-Refuses test_env "anna" "p"

reset-Refuses_example :
    IsRevoked 1 4 (drive external 6 office (reset test_env "anna" change)).0
    × Refuses (revoked_contract 1 4) (can_activate (some "Bearer x"))
reset-Refuses_example =
    reset-Refuses external test_env "anna" "anna" change office anna refl refl refl 4
      (some "Bearer x") (omega arith) (λ e. refl, tt)

register_failure-fail_at_example :
    (w' : OperatorDatabase) × (drive mistaken 5 office (register_failure anna 5000) ≡ (w', pure tt))
    × (w'.operators ≡ with_state anna (fail_at 5000 (state_of anna)) ∷ [])
register_failure-fail_at_example =
    register_failure-fail_at mistaken office anna anna [] [] 5000 tt tt refl

-- A failure after the lock has run out is the first again.
first_again :
    fail_at 905000 (record { failures = 5; until = some 905000 })
    ≡ record { failures = 1; until = none }
first_again = refl
