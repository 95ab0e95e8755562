-- ===== src/Workspace/Transactions.antt =====
-- The two transactions of a VM's creation: the reservation before Labs is called, and the attachment
-- of the VM that it made.
use aivirteach_server.Common.{
  ℕ, find_first, Bool, true, false, Option, none, some, if◌then◌else◌, ◌==◌, ◌&&◌,
}
use aivirteach_server.Process.{stale_provision, not_found}
use aivirteach_server.Database.{
  Transaction, ◌>>=◌, ◌>>◌, return, throw, read, same_lab, is_pending, update_workspaces,
  update_enrollments, delete_provisions, create_provision,
}
use aivirteach_server.Database.Rows.{Workspace, LabId, creating, running, resetting}
use aivirteach_server.Workspace.{CreateVmResult, create_vm_settle_ms, is_creating_at}

abbrev pub to_resetting : ℕ → Workspace → Workspace
to_resetting now r = record r {
  status = resetting;
  provision_started_at = none;
  reset_retry_at = none;
}

abbrev pub to_creating : ℕ → Workspace → Workspace
to_creating now r = record r { status = creating }

abbrev pub to_running : CreateVmResult → ℕ → Workspace → Workspace
to_running result now r = record r {
  status = running;
  provision_started_at = none;
  lab_id = some result.lab_id;
  rdp_username = some result.username;
  rdp_port = some result.rdp_port;
  error_message = none;
  last_seen_at = some now;
}

abbrev pub seen_now : ℕ → Workspace → Workspace
seen_now now r = record r { last_seen_at = some now }

abbrev pub row_or_throw : Option Workspace → Transaction Workspace
row_or_throw none = throw not_found
row_or_throw (some r) = return r

-- The transaction of `scheduleProvision`: it locks the enrollment's generation, then the workspace,
-- and leaves a cleanup record before the VM exists.
unfoldable pub reserve : ℕ → ℕ → ℕ → ℕ → LabId → Transaction Bool
reserve workspace_id enrollment_id enrollment_generation generation lab_id = do
  current ←
      update_enrollments
        (λ e. e.id == enrollment_id && e.generation == enrollment_generation && e.active)
        (λ e. record e { active = true })
  if current == 0
      then (do
        update_workspaces (is_creating_at workspace_id generation) to_resetting
        return false)
      else (do
        live ← update_workspaces (is_creating_at workspace_id generation) to_creating
        if live == 0 then return false else (do
          create_provision lab_id workspace_id generation create_vm_settle_ms
          return true))

-- The transaction of `provisionInBackground`. `StaleProvisionError` rolls it back.
unfoldable pub attach : ℕ → ℕ → LabId → CreateVmResult → Transaction ℕ
attach workspace_id generation lab_id result = do
  claimed ← delete_provisions (λ p. same_lab p.lab_id lab_id && is_pending p)
  if claimed == 0 then return 0 else (do
    updated ← update_workspaces (is_creating_at workspace_id generation) (to_running result)
    if updated == 0 then throw stale_provision else return updated)

-- prisma.workspace.update of `heartbeat`, which fails on a row that is gone
unfoldable pub touch : ℕ → Transaction Workspace
touch id = do
  updated ← update_workspaces (λ r. r.id == id) seen_now
  row ← read (λ w. find_first (λ (r : Workspace). r.id == id) w.workspaces)
  row_or_throw row
