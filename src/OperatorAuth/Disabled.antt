-- ===== src/OperatorAuth/Disabled.antt =====
-- An operator whose account is disabled.
use aivirteach_server.Common.{ℕ, ◌≡◌, refl, true, false, All}
use aivirteach_server.Process.Contract.{Config, Reaches}
use aivirteach_server.OperatorAuth.{
  Operator, OperatorDatabase, OperatorRequest, OperatorReply, OperatorEnv, is_active,
}
use aivirteach_server.OperatorAuth.System.{Starts, Moves, idle_config, SignsNotFor}
use aivirteach_server.OperatorAuth.Barred.{Bar, IsBarred, bar_contract}
use aivirteach_server.OperatorAuth.Barred.Commands.{runs-IsBarred}

abbrev pub AnyTime : ℕ → Type 0
AnyTime now = Unit {0}

abbrev pub Inactive : Operator → Type 0
Inactive o = is_active o ≡ false

-- Each row with the id is disabled; the id has been given.
abbrev pub IsDisabled : ℕ → OperatorDatabase → Type 0
IsDisabled = IsBarred AnyTime Inactive

disabled-Bar : Bar AnyTime Inactive true
disabled-Bar = record {
  denied = λ now o h b. rw b refl;
  restarted = λ now o h b t. b;
  counted = λ o b. b;
  locked = λ now o h b t. b;
  released = λ now o h b t. b;
  stamped = λ now o b. b;
  disabled_too = λ o b. refl;
  reset_too = λ e h o b. b;
}

-- Where the operator is disabled and no login or command is under way at the start: it stays
-- disabled, whatever logins, additions, disablings and resets start from then on and however their
-- statements interleave; and none of these is about to sign a session for it. A login that was under
-- way when the operator was disabled is not among them.
pub runs_keep-IsDisabled :
    (id : ℕ) (env : OperatorEnv) (w : OperatorDatabase)
    (d : Config OperatorDatabase OperatorRequest OperatorReply)
    → IsDisabled id w
    → Reaches (bar_contract AnyTime Inactive id) (Starts true env) (Moves AnyTime) (idle_config w) d
    → IsDisabled id d.world × All (SignsNotFor id) d.running
runs_keep-IsDisabled id env w d i r =
    runs-IsBarred AnyTime Inactive true disabled-Bar id env w d i r
