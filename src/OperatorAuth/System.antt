-- ===== src/OperatorAuth/System.antt =====
-- The logins and the admin commands, interleaved at every statement and every external call.
use aivirteach_server.Common.{ℕ, ◌≤◌, ◌≡◌, Bool, true, false, not, ◌&&◌, String, []}
use aivirteach_server.Process.{pure, request, ◌>>=◌}
use aivirteach_server.Process.Contract.{Config}
use aivirteach_server.OperatorAuth.{
  OperatorDatabase, OperatorRequest, OperatorReply, OperatorTask, OperatorEnv, login,
  sign_admin_token,
}
use aivirteach_server.OperatorAuth.Admin.{OperatorChangeContext, add, reset, disable}

pub data OperatorCall : Type 0 where
  logs_in : String → String → OperatorCall
  adds disables resets : String → OperatorChangeContext → OperatorCall

abbrev pub forget : {A : Type 0} → OperatorTask A → OperatorTask (Unit {0})
forget m = m >>= λ a. pure tt

unfoldable pub handler : OperatorEnv → OperatorCall → OperatorTask (Unit {0})
handler env (logs_in email password) = forget (login env email password)
handler env (adds email ctx) = forget (add env email ctx)
handler env (disables email ctx) = forget (disable env email ctx)
handler env (resets email ctx) = forget (reset env email ctx)

abbrev pub is_reset : OperatorCall → Bool
is_reset (resets email ctx) = true
is_reset _ = false

-- Any call may start, a reset only where `with_resets` holds.
abbrev pub Starts : Bool → OperatorEnv → OperatorDatabase → OperatorTask (Unit {0}) → Type 0
Starts with_resets env w p =
    (c : OperatorCall) × ((is_reset c && not with_resets) ≡ false) × (p ≡ handler env c)

-- The clock moves while it stays within a bound.
abbrev pub Moves : (ℕ → Type 0) → OperatorDatabase → OperatorDatabase → Type 0
Moves h w w' = (later : ℕ) × (w.now ≤ later) × h later × (w' ≡ record w { now = later })

abbrev pub idle_config : OperatorDatabase → Config OperatorDatabase OperatorRequest OperatorReply
idle_config w = record { world = w; running = [] }

-- The next step of the process is not to sign a session of this operator.
abbrev pub SignsNotFor : ℕ → OperatorTask (Unit {0}) → Type 0
SignsNotFor id (request (sign_admin_token i email) k) = ¬ (i ≡ id)
SignsNotFor id _ = Unit {0}
