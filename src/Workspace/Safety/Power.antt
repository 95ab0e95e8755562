-- ===== src/Workspace/Safety/Power.antt =====
-- `stop`, `start`, `heartbeat` and `sweepIdle` are safe.
use aivirteach_server.Common.{
  ℕ, ◌≡◌, refl, true, false, String, Option, none, some, ◌==◌, arith, if◌then◌else◌, or_default,
  is_some, ◌||◌, str_eq,
}
use aivirteach_server.Process.{not_found}
use aivirteach_server.Process.Contract.{Safe-transaction_last, Safe-if, Safe-send}
use aivirteach_server.Database.{is_status}
use aivirteach_server.Database.Rows.{
  Workspace, WorkspaceStatus, LabId, null_text, running, stopped, error, plain, vm_missing,
  vm_state, AuditActor, StopReason, Metadata,
}
use aivirteach_server.Workspace.{
  LabsResult, ok, failed, VmState, present, missing, stop_vm, get_vm_state, is_at, asserted_lab_id,
  by_user, Task,
}
use aivirteach_server.Workspace.Power.{
  observed, unless_changed, mark_vm_missing, mark_stopped, stop_failed, stop_observed,
  stop_answered, stop_workspace, stop, heartbeat,
}
use aivirteach_server.Workspace.Invariant.{is_named, is_up, owned}
use aivirteach_server.Workspace.Invariant.Attach.{touch-Inv}
use aivirteach_server.Workspace.Invariant.Reserve.{owns_named}
use aivirteach_server.Workspace.Safety.{
  workspace_contract, IsSafe, IsUsable, Safe-require_by_id, Safe-require_by_enrollment,
  Safe-require_owned, Safe-update, Safe-audit, Safe-broadcast,
}

named_of :
    (id : ℕ) (l : Option LabId)
    → is_some l ≡ true
    → owned id l ≡ true
    → is_named (or_default l null_text) ≡ true
named_of id none h o = cc
named_of id (some l) h o = owns_named id l o

-- The `!` of `workspace.labId!` is right on a row that was up when it was read.
pub asserted-is_named :
    (r : Workspace) → IsUsable r → is_up r ≡ true → is_named (asserted_lab_id r) ≡ true
asserted-is_named r u up = named_of r.id r.lab_id (u.0 up) u.1

-- The common end of the changes: a lost race returns the row, and a won one is reported.
pub reported :
    (n : ℕ) (s : WorkspaceStatus) (r : Workspace) (m : Task Workspace)
    → IsSafe m
    → IsSafe (unless_changed n s r m)
reported n s r m safe =
    Safe-if workspace_contract (n == 0 || (if is_status s r then false else true)) _ _ (λ t. tt)
      (λ t. safe)

mark_vm_missing-IsSafe :
    (r : Workspace) (actor : AuditActor) (reason : StopReason)
    → IsSafe (mark_vm_missing r actor reason)
mark_vm_missing-IsSafe r actor reason =
    Safe-update (is_at r.id running) _ _ (λ now x. refl) (λ ps now x m h. (λ up. cc, h.1))
      (λ n. Safe-require_by_id r.id not_found _ (λ x u. reported n error x _ (
        Safe-audit actor "workspace.stop" false r.id (some reason) vm_missing _
          (Safe-broadcast x _ tt))))

mark_stopped-IsSafe :
    (r : Workspace) (actor : AuditActor) (reason : StopReason) (meta : Metadata)
    → IsSafe (mark_stopped r actor reason meta)
mark_stopped-IsSafe r actor reason meta =
    Safe-update (is_at r.id running) _ _ (λ now x. refl)
      (λ ps now x m h. (λ up. h.0 (ground arith), h.1))
      (λ n. Safe-require_by_id r.id not_found _ (λ x u.
        reported n stopped x _ (
          Safe-audit actor "workspace.stop" true r.id (some reason) meta _
            (Safe-broadcast x _ tt))))

stop_failed-IsSafe :
    (r : Workspace) (actor : AuditActor) (reason : StopReason) (message state : String)
    → IsSafe (stop_failed r actor reason message state)
stop_failed-IsSafe r actor reason message state =
    Safe-audit actor "workspace.stop" false r.id (some reason) (vm_state state) _ tt

stop_observed-IsSafe :
    (r : Workspace) (actor : AuditActor) (reason : StopReason) (message : String)
    (o : Option VmState)
    → IsSafe (stop_observed r actor reason message o)
stop_observed-IsSafe r actor reason message none =
    stop_failed-IsSafe r actor reason message "unknown"
stop_observed-IsSafe r actor reason message (some missing) = mark_vm_missing-IsSafe r actor reason
stop_observed-IsSafe r actor reason message (some (present state)) =
    Safe-if workspace_contract (str_eq state "shut off") _ _
      (λ t. mark_stopped-IsSafe r actor reason (vm_state state))
      (λ t. stop_failed-IsSafe r actor reason message state)

stop_answered-IsSafe :
    (r : Workspace) (actor : AuditActor) (reason : StopReason) (o : LabsResult (Unit {0}))
    → is_named (asserted_lab_id r) ≡ true
    → IsSafe (stop_answered r actor reason o)
stop_answered-IsSafe r actor reason (ok u) named = mark_stopped-IsSafe r actor reason plain
stop_answered-IsSafe r actor reason (failed message) named =
    Safe-send workspace_contract (get_vm_state (asserted_lab_id r)) _ named
      (λ s g. stop_observed-IsSafe r actor reason message (observed s))

pub stop_workspace-IsSafe :
    (r : Workspace) (actor : AuditActor) (reason : StopReason)
    → is_named (asserted_lab_id r) ≡ true
    → IsSafe (stop_workspace r actor reason)
unfolding stop_workspace
stop_workspace-IsSafe r actor reason named =
    Safe-send workspace_contract (stop_vm (asserted_lab_id r)) _ named
      (λ o g. stop_answered-IsSafe r actor reason o named)

pub up_of_running : (r : Workspace) → is_status running r ≡ true → is_up r ≡ true
up_of_running r h = ground arith

pub up_of_stopped : (r : Workspace) → is_status stopped r ≡ true → is_up r ≡ true
up_of_stopped r h = ground arith

pub stop-IsSafe :
    (user_id enrollment_id : ℕ) (reason : StopReason) → IsSafe (stop user_id enrollment_id reason)
unfolding stop
stop-IsSafe user_id enrollment_id reason = Safe-require_owned user_id enrollment_id _ (λ e.
    Safe-require_by_enrollment e.id not_found _ (λ r u.
      Safe-if workspace_contract (is_status running r) _ _
        (λ t.
          stop_workspace-IsSafe r (by_user user_id) reason
            (asserted-is_named r u (up_of_running r t)))
        (λ t. tt)))

pub heartbeat-IsSafe : (user_id enrollment_id : ℕ) → IsSafe (heartbeat user_id enrollment_id)
unfolding heartbeat
heartbeat-IsSafe user_id enrollment_id = Safe-require_owned user_id enrollment_id _ (λ e.
    Safe-require_by_enrollment e.id not_found _ (λ r u.
      Safe-if workspace_contract (is_status running r) _ _
        (λ t. Safe-transaction_last workspace_contract _ (λ w v. touch-Inv w v r.id)) (λ t. tt)))
