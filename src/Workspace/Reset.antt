-- ===== src/Workspace/Reset.antt =====
-- workspace.service.ts: `finishReset` and `sweepResets`, which carry the durable cleanup tasks out.
use aivirteach_server.Common.{
  ℕ, suc, ◌+◌, Bool, true, false, Option, none, some, List, [], ◌∷◌, if◌then◌else◌, ltb, leb, ◌&&◌,
  or_default, length, keep, take, order_rows,
}
use aivirteach_server.Process.{
  pure, fail, attempt, ◌>>=◌, ◌>>◌, query, transaction, send, HttpError,
}
use aivirteach_server.Database.{is_status, update_workspaces, delete_workspaces}
use aivirteach_server.Database.Rows.{
  Workspace, WorkspaceProvision, initial, resetting, AuditActor, plain,
}
use aivirteach_server.Workspace.{
  Task, LabsResult, ok, failed, delete_vm, is_at, find_by_enrollment, audit, create_vm_settle_ms,
  reset_retry_ms,
}
use aivirteach_server.Workspace.Provision.{cleanup_provision}

abbrev pub after_reset_delete : Workspace → LabsResult (Unit {0}) → Task Bool
after_reset_delete workspace (ok u) = do
  transaction (delete_workspaces (is_at workspace.id resetting))
  audit AuditActor.system "workspace.reset" true workspace.id none plain
  pure true
after_reset_delete workspace (failed message) = do
  transaction (
      update_workspaces (is_at workspace.id resetting)
        (λ now r. record r { reset_retry_at = some (now + reset_retry_ms) }))
  audit AuditActor.system "workspace.reset" false workspace.id none plain
  fail (HttpError.bad_gateway message)

-- `Date.now() - provisionStartedAt < CREATE_VM_SETTLE_MS`: an old request may still make the VM
abbrev pub is_settling : ℕ → Option ℕ → Bool
is_settling now none = false
is_settling now (some started) = ltb now (started + create_vm_settle_ms)

abbrev pub postpone : Workspace → ℕ → Task Bool
postpone workspace started = do
  transaction (
      update_workspaces (is_at workspace.id resetting)
        (λ now r. record r { reset_retry_at = some (started + create_vm_settle_ms) }))
  pure false

abbrev pub reset_found : ℕ → Option Workspace → Task Bool
reset_found now none = pure true
reset_found now (some workspace) =
    if is_status resetting workspace
    then (if is_settling now workspace.provision_started_at
        then postpone workspace (or_default workspace.provision_started_at 0)
        else (do
          deleted ← send (delete_vm (or_default workspace.lab_id (initial workspace.id)))
          after_reset_delete workspace deleted))
    else pure true

unfoldable pub finish_reset : ℕ → Task Bool
finish_reset enrollment_id = do
  workspace ← find_by_enrollment enrollment_id
  now ← query (λ w. w.now)
  reset_found now workspace

-- `for (...) { try { await finishReset(...) } catch { failed += 1 } }`: the number of failures
unfoldable pub reset_each : List Workspace → ℕ → Task ℕ
reset_each [] failures = pure failures
reset_each (r ∷ rs) failures =
    attempt (finish_reset r.enrollment_id) (λ done. reset_each rs failures)
      (λ e. reset_each rs (suc failures))

unfoldable pub cleanup_each : List WorkspaceProvision → ℕ → Task ℕ
cleanup_each [] failures = pure failures
cleanup_each (p ∷ ps) failures =
    attempt (cleanup_provision p.lab_id) (λ done. cleanup_each ps failures)
      (λ e. cleanup_each ps (suc failures))

abbrev pub is_reset_due : ℕ → Workspace → Bool
is_reset_due now r = is_status resetting r && leb (or_default r.reset_retry_at 0) now

-- The ten oldest tasks of each kind; returns how many were tried, and how many failed.
unfoldable pub sweep_resets : Task (ℕ × ℕ)
sweep_resets = do
  waiting ← query (λ w. take 10 (
      order_rows (λ (a b : Workspace). leb a.updated_at b.updated_at)
        (keep (is_reset_due w.now) w.workspaces)))
  failures ← reset_each waiting 0
  provisions ← query (λ w. take 10 (
      order_rows (λ (a b : WorkspaceProvision). leb a.cleanup_at b.cleanup_at)
        (keep (λ (p : WorkspaceProvision). leb p.cleanup_at w.now) w.provisions)))
  all_failures ← cleanup_each provisions failures
  pure (length waiting + length provisions, all_failures)
