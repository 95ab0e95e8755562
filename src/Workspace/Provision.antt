-- ===== src/Workspace/Provision.antt =====
-- workspace.service.ts: `scheduleProvision`, `provisionInBackground` and `cleanupProvision`.
use aivirteach_server.Common.{
  ℕ, ◌+◌, Bool, true, false, String, Option, none, some, ◌∷◌, if◌then◌else◌, ◌==◌, leb, ◌&&◌, ◌||◌,
  find_first,
}
use aivirteach_server.Process.{
  pure, fail, attempt, ◌>>=◌, ◌>>◌, query, execute, transaction, send, HttpError, stale_provision,
}
use aivirteach_server.Database.{
  Database, ProvisionTask, is_status, same_lab, is_pending, update_workspaces, update_provisions,
  delete_provisions,
}
use aivirteach_server.Database.Rows.{
  Workspace, WorkspaceProvision, LabId, running, error, cleanup, plain,
}
use aivirteach_server.Workspace.{
  Task, LabsResult, ok, failed, CreateVmResult, create_vm, delete_vm, lab_id_of, is_creating_at,
  find_by_id, by_user, audit, broadcast_status, reset_retry_ms, unknown_create_recheck_ms,
}
use aivirteach_server.Workspace.Transactions.{reserve, attach}

-- `waitUntil(this.provisionInBackground(...))`
unfoldable pub wait_until : ProvisionTask → Database → Database
wait_until t w = record w { background = t ∷ w.background }

unfoldable pub schedule_provision : Workspace → ℕ → ℕ → Task Bool
schedule_provision workspace user_id enrollment_generation = do
  let generation = workspace.provision_generation
  let lab_id = lab_id_of workspace.id generation
  scheduled ←
      transaction
        (reserve workspace.id workspace.enrollment_id enrollment_generation generation lab_id)
  if scheduled
      then (do
        execute (
            wait_until (record {
              workspace_id = workspace.id;
              user_id = user_id;
              generation = generation;
              lab_id = lab_id;
            }))
        pure true)
      else pure false

-- `cleanup_at` is moved whichever way the call of Labs ends, and the record stays unless the VM's
-- creation is known to be over.
abbrev pub is_claimable : LabId → ℕ → WorkspaceProvision → Bool
is_claimable lab_id now p = same_lab p.lab_id lab_id && (is_pending p || leb p.cleanup_at now)

abbrev pub is_claimed : LabId → WorkspaceProvision → Bool
is_claimed lab_id p = same_lab p.lab_id lab_id && (if is_pending p then false else true)

abbrev pub retry_cleanup : LabId → ℕ → Task ℕ
retry_cleanup lab_id delay = transaction (
    update_provisions (λ now. is_claimed lab_id)
      (λ now p. record p { status = cleanup; cleanup_at = now + delay }))

abbrev pub settled : Option WorkspaceProvision → Bool
settled none = false
settled (some p) = p.create_settled

abbrev pub after_delete :
    LabId → Option WorkspaceProvision → LabsResult (Unit {0}) → Task (Unit {0})
after_delete lab_id provision (ok u) =
    if settled provision
    then transaction (delete_provisions (is_claimed lab_id)) >> pure tt
    else retry_cleanup lab_id unknown_create_recheck_ms >> pure tt
after_delete lab_id provision (failed message) = do
  retry_cleanup lab_id reset_retry_ms
  fail (HttpError.bad_gateway message)

unfoldable pub cleanup_provision : LabId → Task (Unit {0})
cleanup_provision lab_id = do
  claimed ← transaction (
      update_provisions (is_claimable lab_id)
        (λ now p. record p { status = cleanup; cleanup_at = now + reset_retry_ms }))
  if claimed == 0 then pure tt else (do
    provision ←
        query (λ w. find_first (λ (p : WorkspaceProvision). same_lab p.lab_id lab_id) w.provisions)
    deleted ← send (delete_vm lab_id)
    after_delete lab_id provision deleted)

-- `if (!updated || updated.status !== expected) return;` and then the audit and the broadcast
abbrev pub report_created : ℕ → ℕ → Bool → Option Workspace → Task (Unit {0})
report_created workspace_id user_id success none = pure tt
report_created workspace_id user_id success (some updated) =
    if is_status (if success then running else error) updated
    then (do
      audit (by_user user_id) "workspace.create" success workspace_id none plain
      broadcast_status updated)
    else pure tt

abbrev pub create_failed : ℕ → ℕ → ℕ → String → Task (Unit {0})
create_failed workspace_id user_id generation message = do
  changed ← transaction (
      update_workspaces (is_creating_at workspace_id generation)
        (λ now r. record r { status = error; error_message = some message }))
  if changed == 0
      then pure tt
      else find_by_id workspace_id >>= report_created workspace_id user_id false

-- What follows the transaction that attaches the VM, or its failure.
abbrev pub attached : ℕ → ℕ → LabId → ℕ → Task (Unit {0})
attached workspace_id user_id lab_id changed =
    if changed == 0
    then cleanup_provision lab_id
    else find_by_id workspace_id >>= report_created workspace_id user_id true

abbrev pub attach_failed : LabId → HttpError → Task (Unit {0})
attach_failed lab_id stale_provision = cleanup_provision lab_id
attach_failed lab_id e = fail e

abbrev pub created : ℕ → ℕ → ℕ → LabId → LabsResult CreateVmResult → Task (Unit {0})
created workspace_id user_id generation lab_id (failed message) =
    create_failed workspace_id user_id generation message
created workspace_id user_id generation lab_id (ok result) = do
  transaction (
      update_provisions (λ now p. same_lab p.lab_id lab_id)
        (λ now p. record p { create_settled = true }))
  attempt (transaction (attach workspace_id generation lab_id result))
      (attached workspace_id user_id lab_id) (attach_failed lab_id)

unfoldable pub provision_in_background : ProvisionTask → Task (Unit {0})
provision_in_background t = do
  result ← send (create_vm t.lab_id)
  created t.workspace_id t.user_id t.generation t.lab_id result
