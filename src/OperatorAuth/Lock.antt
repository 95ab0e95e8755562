-- ===== src/OperatorAuth/Lock.antt =====
-- A lock that failed logins have set on an operator's account.
use aivirteach_server.Common.{
  ℕ, ◌<◌, ◌≡◌, ◌||◌, not, Bool, true, false, Option, none, some, arith, leb, All,
}
use aivirteach_server.Process.Contract.{Config, Reaches}
use aivirteach_server.OperatorAuth.{
  Operator, OperatorDatabase, OperatorRequest, OperatorReply, OperatorEnv, is_active, is_expired,
  is_unlocked,
}
use aivirteach_server.OperatorAuth.System.{Starts, Moves, idle_config, SignsNotFor}
use aivirteach_server.OperatorAuth.Barred.{Bar, IsBarred, bar_contract}
use aivirteach_server.OperatorAuth.Barred.Commands.{runs-IsBarred}

abbrev pub Before : ℕ → ℕ → Type 0
Before until now = now < until

abbrev pub LockedAt : ℕ → Operator → Type 0
LockedAt until o = o.locked_until ≡ some until

-- The time has not come, and each row with the id is locked until then; the id has been given.
abbrev pub IsLockedUntil : ℕ → ℕ → OperatorDatabase → Type 0
IsLockedUntil until = IsBarred (Before until) (LockedAt until)

later-ltb : (until now : ℕ) → now < until → leb until now ≡ false
later-ltb until now h = ground (arith, h)

still_expired :
    {A : Type 0} (until now : ℕ) (o : Option ℕ)
    → now < until
    → o ≡ some until
    → is_expired now o ≡ true
    → A
still_expired until now none h e t = cc
still_expired until now (some u) h e t = ground (arith, h, e, t)

still_unlocked :
    {A : Type 0} (until now : ℕ) (o : Option ℕ)
    → now < until
    → o ≡ some until
    → is_unlocked now o ≡ true
    → A
still_unlocked until now none h e t = cc
still_unlocked until now (some u) h e t = ground (arith, h, e, t)

lock-Bar : (until : ℕ) → Bar (Before until) (LockedAt until) false
lock-Bar until = record {
  denied = λ now o h b. rw b (rw (later-ltb until now h) (or_true (is_active o)));
  restarted = λ now o h b t. still_expired until now o.locked_until h b t;
  counted = λ o b. b;
  locked = λ now o h b t. still_unlocked until now o.locked_until h b t;
  released = λ now o h b t. still_unlocked until now o.locked_until h b t;
  stamped = λ now o b. b;
  disabled_too = λ o b. b;
  reset_too = λ e. clash e;
}
  where
    or_true : (b : Bool) → (not b || true) ≡ true
    or_true b = ground arith

    clash : {A : Type 0} → false ≡ true → A
    clash e = cc

-- Where the operator is locked and no login or command is under way at the start: it stays locked,
-- until the same time, while the time has not come, whatever logins, additions and disablings start
-- from then on, with right or wrong passwords, and however their statements interleave; and none of
-- these is about to sign a session for that operator. A login that was under way when the lock was
-- set is not among them.
pub runs_keep-IsLockedUntil :
    (until id : ℕ) (env : OperatorEnv) (w : OperatorDatabase)
    (d : Config OperatorDatabase OperatorRequest OperatorReply)
    → IsLockedUntil until id w
    → Reaches
        (bar_contract (Before until) (LockedAt until) id)
        (Starts false env)
        (Moves (Before until))
        (idle_config w)
        d
    → IsLockedUntil until id d.world × All (SignsNotFor id) d.running
runs_keep-IsLockedUntil until id env w d i r =
    runs-IsBarred (Before until) (LockedAt until) false (lock-Bar until) id env w d i r
