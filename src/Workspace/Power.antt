-- ===== src/Workspace/Power.antt =====
-- workspace.service.ts: `stop`, `start`, `heartbeat` and `sweepIdle`.
use aivirteach_server.Common.{
  ℕ, ◌+◌, ◌*◌, Bool, true, false, String, Option, none, some, List, [], ◌∷◌, if◌then◌else◌, ◌==◌,
  ltb, ◌&&◌, ◌||◌, keep, str_eq,
}
use aivirteach_server.Process.{
  pure, fail, attempt, ◌>>=◌, ◌>>◌, query, transaction, send, not_found, HttpError,
}
use aivirteach_server.Database.{is_status, update_workspaces}
use aivirteach_server.Database.Rows.{
  Workspace, WorkspaceStatus, creating, running, stopped, error, AuditActor, StopReason, idle,
  Metadata, plain, vm_missing, vm_state,
}
use aivirteach_server.Workspace.{
  Task, LabsResult, ok, failed, VmState, present, missing, stop_vm, start_vm, get_vm_state, is_at,
  asserted_lab_id, find_by_enrollment, find_by_id, or_throw, by_user, audit, broadcast_status,
  require_owned_enrollment,
}
use aivirteach_server.Workspace.Create.{provision}
use aivirteach_server.Workspace.Transactions.{touch}

-- `observeVmState`: an error of the query itself is an unknown state
abbrev pub observed : LabsResult VmState → Option VmState
observed (ok s) = some s
observed (failed message) = none

-- `if (changed.count === 0 || updated.status !== expected) return updated;` and then the rest
abbrev pub unless_changed : ℕ → WorkspaceStatus → Workspace → Task Workspace → Task Workspace
unless_changed changed expected updated rest =
    if changed == 0 || (if is_status expected updated then false else true)
    then pure updated
    else rest

abbrev pub mark_vm_missing : Workspace → AuditActor → StopReason → Task Workspace
mark_vm_missing workspace actor reason = do
  changed ← transaction (
      update_workspaces (is_at workspace.id running)
        (λ now r. record r { status = error; error_message = some "学习环境已失效，请重新创建。" }))
  found ← find_by_id workspace.id
  updated ← or_throw not_found found
  unless_changed changed error updated (do
    audit actor "workspace.stop" false workspace.id (some reason) vm_missing
    broadcast_status updated
    pure updated)

abbrev pub mark_stopped : Workspace → AuditActor → StopReason → Metadata → Task Workspace
mark_stopped workspace actor reason metadata = do
  changed ←
      transaction
        (update_workspaces (is_at workspace.id running) (λ now r. record r { status = stopped }))
  found ← find_by_id workspace.id
  updated ← or_throw not_found found
  unless_changed changed stopped updated (do
    audit actor "workspace.stop" true workspace.id (some reason) metadata
    broadcast_status updated
    pure updated)

abbrev pub stop_failed : Workspace → AuditActor → StopReason → String → String → Task Workspace
stop_failed workspace actor reason message state = do
  audit actor "workspace.stop" false workspace.id (some reason) (vm_state state)
  fail (HttpError.bad_gateway message)

abbrev pub stop_observed :
    Workspace → AuditActor → StopReason → String → Option VmState → Task Workspace
stop_observed workspace actor reason message none =
    stop_failed workspace actor reason message "unknown"
stop_observed workspace actor reason message (some missing) = mark_vm_missing workspace actor reason
stop_observed workspace actor reason message (some (present state)) =
    if str_eq state "shut off"
    then mark_stopped workspace actor reason (vm_state state)
    else stop_failed workspace actor reason message state

abbrev pub stop_answered :
    Workspace → AuditActor → StopReason → LabsResult (Unit {0}) → Task Workspace
stop_answered workspace actor reason (ok u) = mark_stopped workspace actor reason plain
stop_answered workspace actor reason (failed message) = do
  state ← send (get_vm_state (asserted_lab_id workspace))
  stop_observed workspace actor reason message (observed state)

unfoldable pub stop_workspace : Workspace → AuditActor → StopReason → Task Workspace
stop_workspace workspace actor reason = do
  answer ← send (stop_vm (asserted_lab_id workspace))
  stop_answered workspace actor reason answer

unfoldable pub stop : ℕ → ℕ → StopReason → Task Workspace
stop user_id enrollment_id reason = do
  enrollment ← require_owned_enrollment user_id enrollment_id
  found ← find_by_enrollment enrollment.id
  workspace ← or_throw not_found found
  if is_status running workspace
      then stop_workspace workspace (by_user user_id) reason
      else pure workspace

abbrev pub rebuild_missing_vm : Workspace → ℕ → ℕ → Task Workspace
rebuild_missing_vm workspace user_id enrollment_generation = do
  changed ← transaction (
      update_workspaces (is_at workspace.id stopped) (λ now r. record r {
        status = creating;
        error_message = none;
        provision_started_at = some now;
        provision_generation = r.provision_generation + 1;
      }))
  found ← find_by_id workspace.id
  rebuilding ← or_throw not_found found
  unless_changed changed creating rebuilding (do
    audit (by_user user_id) "workspace.start" false workspace.id none vm_missing
    broadcast_status rebuilding
    provision rebuilding user_id workspace.enrollment_id enrollment_generation)

abbrev pub mark_started : Workspace → ℕ → Task Workspace
mark_started workspace user_id = do
  changed ← transaction (
      update_workspaces (is_at workspace.id stopped)
        (λ now r. record r { status = running; last_seen_at = some now }))
  found ← find_by_id workspace.id
  updated ← or_throw not_found found
  unless_changed changed running updated (do
    audit (by_user user_id) "workspace.start" true workspace.id none plain
    broadcast_status updated
    pure updated)

abbrev pub start_failed : Workspace → ℕ → String → Task Workspace
start_failed workspace user_id message = do
  audit (by_user user_id) "workspace.start" false workspace.id none plain
  fail (HttpError.bad_gateway message)

abbrev pub start_observed : Workspace → ℕ → ℕ → String → Option VmState → Task Workspace
start_observed workspace user_id generation message (some missing) =
    rebuild_missing_vm workspace user_id generation
start_observed workspace user_id generation message (some (present state)) =
    start_failed workspace user_id message
start_observed workspace user_id generation message none = start_failed workspace user_id message

abbrev pub start_answered : Workspace → ℕ → ℕ → LabsResult (Unit {0}) → Task Workspace
start_answered workspace user_id generation (ok u) = mark_started workspace user_id
start_answered workspace user_id generation (failed message) = do
  state ← send (get_vm_state (asserted_lab_id workspace))
  start_observed workspace user_id generation message (observed state)

unfoldable pub start : ℕ → ℕ → Task Workspace
start user_id enrollment_id = do
  enrollment ← require_owned_enrollment user_id enrollment_id
  found ← find_by_enrollment enrollment.id
  workspace ← or_throw not_found found
  if is_status stopped workspace
      then (do
        answer ← send (start_vm (asserted_lab_id workspace))
        start_answered workspace user_id enrollment.generation answer)
      else pure workspace

unfoldable pub heartbeat : ℕ → ℕ → Task Workspace
heartbeat user_id enrollment_id = do
  enrollment ← require_owned_enrollment user_id enrollment_id
  found ← find_by_enrollment enrollment.id
  workspace ← or_throw not_found found
  if is_status running workspace then transaction (touch workspace.id) else pure workspace

unfoldable pub stop_each : List Workspace → Task (Unit {0})
stop_each [] = pure tt
stop_each (r ∷ rs) =
    attempt (stop_workspace r AuditActor.system idle) (λ done. stop_each rs) (λ e. stop_each rs)

-- `lastSeenAt` null, or before `now - timeout`
abbrev pub is_idle : ℕ → ℕ → Workspace → Bool
is_idle timeout now r =
    is_status running r
    && elim r.last_seen_at [ none ↦ true | some seen ↦ ltb (seen + timeout) now ]

unfoldable pub sweep_idle : ℕ → Task (Unit {0})
sweep_idle idle_timeout_minutes = do
  idle_workspaces ←
      query (λ w. keep (is_idle (idle_timeout_minutes * 60 * 1000) w.now) w.workspaces)
  stop_each idle_workspaces
