-- ===== src/Workspace/System.antt =====
-- The workspace service as a system: requests, background tasks and sweeps that interleave at every
-- commit and every call of Labs.
use aivirteach_server.Common.{
  ℕ, ◌≤◌, ◌≡◌, refl, Bool, true, false, String, List, [], ◌∷◌, ◌++◌, All, All-at, not, Option, none,
  some,
}
use mathlib.Core.List.{Memᴰ}
use aivirteach_server.Process.{pure, request, ◌>>=◌}
use aivirteach_server.Process.Contract.{
  Config, Reaches, IsSafe as IsSafeConfig, Reaches-IsSafe, Safe, Safe-bind,
}
use aivirteach_server.Database.{Database, ProvisionTask}
use aivirteach_server.Database.Rows.{Workspace, LabId, StopReason}
use aivirteach_server.Workspace.{Task, LabsRequest, LabsReply}
use aivirteach_server.Workspace.Provision.{provision_in_background}
use aivirteach_server.Workspace.Reset.{finish_reset, sweep_resets}
use aivirteach_server.Workspace.Create.{get_for_enrollment, create}
use aivirteach_server.Workspace.Power.{stop, start, heartbeat, sweep_idle}
use aivirteach_server.Workspace.Console.{create_console_session, exchange_console_token}
use aivirteach_server.Workspace.Invariant.{is_up, is_kept, is_recorded, IsOwnTask, Inv}
use aivirteach_server.Workspace.Safety.{workspace_contract, IsSafe, NamesVm}
use aivirteach_server.Workspace.Safety.Provision.{provision_in_background-IsSafe}
use aivirteach_server.Workspace.Safety.Reset.{finish_reset-IsSafe, sweep_resets-IsSafe}
use aivirteach_server.Workspace.Safety.Create.{get_for_enrollment-IsSafe, create-IsSafe}
use aivirteach_server.Workspace.Safety.Power.{stop-IsSafe, heartbeat-IsSafe}
use aivirteach_server.Workspace.Safety.Start.{start-IsSafe, sweep_idle-IsSafe}
use aivirteach_server.Workspace.Safety.Console.{
  create_console_session-IsSafe, exchange_console_token-IsSafe,
}

-- The calls of the service, by the controller, the enrollments and the sweeps.
pub data Call : Type 0 where
  gets creates starts beats : ℕ → ℕ → Call
  stops : ℕ → ℕ → StopReason → Call
  opens_console : ℕ → ℕ → Call
  exchanges_token : ℕ → ℕ → String → Call
  finishes_reset : ℕ → Call
  sweeps_resets : Call
  sweeps_idle : ℕ → Call

abbrev forget : {A : Type 0} → Task A → Task (Unit {0})
forget m = m >>= λ a. pure tt

unfoldable pub handler : Call → Task (Unit {0})
handler (gets u e) = forget (get_for_enrollment u e)
handler (creates u e) = forget (create u e)
handler (starts u e) = forget (start u e)
handler (beats u e) = forget (heartbeat u e)
handler (stops u e r) = forget (stop u e r)
handler (opens_console u e) = forget (create_console_session u e)
handler (exchanges_token u e d) = forget (exchange_console_token u e d)
handler (finishes_reset e) = forget (finish_reset e)
handler sweeps_resets = forget sweep_resets
handler (sweeps_idle minutes) = sweep_idle minutes

-- What may start: any call, and any task that `waitUntil` has taken over.
pub data Starts (w : Database) (p : Task (Unit {0})) : Type 0 where
  called : (c : Call) → p ≡ handler c → Starts w p
  scheduled : (t : ProvisionTask) → Memᴰ t w.background → p ≡ provision_in_background t → Starts w p

-- What moves by itself: the clock.
abbrev pub Moves : Database → Database → Type 0
Moves w w' = (later : ℕ) × (w.now ≤ later) × (w' ≡ record w { now = later })

abbrev pub Runs :
    Config Database LabsRequest LabsReply → Config Database LabsRequest LabsReply → Type 0
Runs = Reaches workspace_contract Starts Moves

forget-IsSafe : {A : Type 0} (m : Task A) → IsSafe m → IsSafe (forget m)
forget-IsSafe m s = Safe-bind workspace_contract m _ s (λ a. tt)

handler-IsSafe : (c : Call) → IsSafe (handler c)
unfolding handler
handler-IsSafe (gets u e) = forget-IsSafe _ (get_for_enrollment-IsSafe u e)
handler-IsSafe (creates u e) = forget-IsSafe _ (create-IsSafe u e)
handler-IsSafe (starts u e) = forget-IsSafe _ (start-IsSafe u e)
handler-IsSafe (beats u e) = forget-IsSafe _ (heartbeat-IsSafe u e)
handler-IsSafe (stops u e r) = forget-IsSafe _ (stop-IsSafe u e r)
handler-IsSafe (opens_console u e) = forget-IsSafe _ (create_console_session-IsSafe u e)
handler-IsSafe (exchanges_token u e d) = forget-IsSafe _ (exchange_console_token-IsSafe u e d)
handler-IsSafe (finishes_reset e) = forget-IsSafe _ (finish_reset-IsSafe e)
handler-IsSafe sweeps_resets = forget-IsSafe _ sweep_resets-IsSafe
handler-IsSafe (sweeps_idle minutes) = sweep_idle-IsSafe minutes

of_member : {A : Type 0} (P : A → Type 0) (x : A) (xs : List A) → Memᴰ x xs → All P xs → P x
of_member P x [] m a = elim m [ ]
of_member P x (y ∷ ys) (Memᴰ.head e) a = rw e a.0
of_member P x (y ∷ ys) (Memᴰ.tail m) a = of_member P x ys m a.1

Starts-IsSafe : (w : Database) (p : Task (Unit {0})) → Inv w → Starts w p → IsSafe p
Starts-IsSafe w p v (called c e) = rw e (handler-IsSafe c)
Starts-IsSafe w p v (scheduled t m e) =
    rw e (provision_in_background-IsSafe t (of_member IsOwnTask t w.background m v.tasks))

Moves-Inv : (w w' : Database) → Inv w → Moves w w' → Inv w'
Moves-Inv w w' v (later, h, e) = rw e (record {
  sound = v.sound;
  distinct = v.distinct;
  fresh = v.fresh;
  labs = v.labs;
  tasks = v.tasks;
})

abbrev pub idle_config : Database → Config Database LabsRequest LabsReply
idle_config w = record { world = w; running = [] }

Runs-safely :
    (w : Database) (d : Config Database LabsRequest LabsReply)
    → Inv w
    → Runs (idle_config w) d
    → IsSafeConfig workspace_contract d
Runs-safely w d v r =
    Reaches-IsSafe workspace_contract Starts Moves Starts-IsSafe Moves-Inv
      (record { inv = v; all_safe = tt }) r

not-true : (b : Bool) → not b ≡ true → b ≡ false
not-true true h = cc
not-true false h = refl

-- From a world with the invariant, whatever calls, background tasks and sweeps run and however
-- their commits and calls of Labs interleave, the invariant holds in every world reached.
pub Runs-Inv :
    (w : Database) (d : Config Database LabsRequest LabsReply)
    → Inv w
    → Runs (idle_config w) d
    → Inv d.world
Runs-Inv w d v r = (Runs-safely w d v r).inv

-- From a world with the invariant, in every world that calls, background tasks and sweeps reach by
-- interleaving, a workspace that is running or stopped has a VM, and no cleanup record names it.
pub Runs-keep_vm :
    (w : Database) (d : Config Database LabsRequest LabsReply) (r : Workspace)
    → Inv w
    → Runs (idle_config w) d
    → Memᴰ r d.world.workspaces
    → is_up r ≡ true
    → (l : LabId) × (r.lab_id ≡ some l) × (is_recorded d.world.provisions l ≡ false)
Runs-keep_vm w d r v run m up =
    kept_vm r.lab_id ((of_member _ r d.world.workspaces m (Runs-Inv w d v run).sound).0 up)
  where
    kept_vm :
        (o : Option LabId)
        → is_kept d.world.provisions o ≡ true
        → (l : LabId) × (o ≡ some l) × (is_recorded d.world.provisions l ≡ false)
    kept_vm none k = cc
    kept_vm (some l) k = (l, refl, not-true _ k)

-- From a world with the invariant, in every configuration that calls, background tasks and sweeps
-- reach by interleaving, a handler that waits for Labs has asked about a VM by a real name: no
-- request carries the text of a null id.
pub Runs-name_vms :
    (w : Database) (d : Config Database LabsRequest LabsReply) (xs ys : List (Task (Unit {0})))
    (q : LabsRequest) (k : LabsReply q → Task (Unit {0}))
    → Inv w
    → Runs (idle_config w) d
    → d.running ≡ xs ++ request q k ∷ ys
    → NamesVm q
Runs-name_vms w d xs ys q k v run e =
    (All-at (Safe workspace_contract) xs (request q k) ys
      (rw e at (Runs-safely w d v run).all_safe)).0
