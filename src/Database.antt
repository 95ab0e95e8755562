-- ===== src/Database.antt =====
-- The world that the handlers share: the database, the clock, the background tasks that `waitUntil`
-- has taken over, and what was sent to the sockets of the clients. A statement is a transaction of
-- its own unless it stands in a larger one.
pub mod Rows
pub mod Commits
use aivirteach_server.Common.{
  ℕ, suc, ◌+◌, Bool, true, false, ◌&&◌, Option, none, some, List, [], ◌∷◌, if◌then◌else◌, ◌==◌, any,
  update_rows, count_rows, delete_rows,
}
use aivirteach_server.Process.{HttpError, unique_violation, Outcome, committed, aborted}
use Rows.{
  WorkspaceStatus, creating, running, stopped, error, resetting, destroyed, LabId, initial,
  numbered, null_text, Workspace, WorkspaceProvision, Course, Enrollment, LearningSnapshot,
  Conversation, QuotaLedger, Activity, AuditEvent, ProvisionStatus, pending, cleanup,
}

-- The arguments of `provisionInBackground`.
pub record ProvisionTask : Type 0 where
  pub workspace_id : ℕ
  pub user_id : ℕ
  pub generation : ℕ
  pub lab_id : LabId

pub record Database : Type 0 where
  pub now : ℕ
  pub next_id : ℕ
  pub courses : List Course
  pub enrollments : List Enrollment
  pub workspaces : List Workspace
  pub provisions : List WorkspaceProvision
  pub snapshots : List LearningSnapshot
  pub conversations : List Conversation
  pub quota_ledger : List QuotaLedger
  pub activities : List Activity
  pub audit_events : List AuditEvent
  pub background : List ProvisionTask
  pub broadcasts : List Workspace

abbrev pub Transaction : Type 0 → Type 0
Transaction A = Database → Outcome Database A

module _ {A B : Type 0} where
  abbrev pub continue : Outcome Database A → (A → Transaction B) → Outcome Database B
  continue (committed a w) f = f a w
  continue (aborted e) f = aborted e

  infixl 5 ◌>>=◌ ◌>>◌
  abbrev pub ◌>>=◌ : Transaction A → (A → Transaction B) → Transaction B
  ◌>>=◌ t f w = continue (t w) f

  abbrev pub ◌>>◌ : Transaction A → Transaction B → Transaction B
  t >> u = t >>= λ _. u

module _ {A : Type 0} where
  abbrev pub return : A → Transaction A
  return a w = committed a w

  abbrev pub throw : HttpError → Transaction A
  throw e w = aborted e

  abbrev pub read : (Database → A) → Transaction A
  read f w = committed (f w) w

abbrev pub write : (Database → Database) → Transaction (Unit {0})
write f w = committed tt (f w)

abbrev pub status_index : WorkspaceStatus → ℕ
status_index creating = 0
status_index running = 1
status_index stopped = 2
status_index error = 3
status_index resetting = 4
status_index destroyed = 5

abbrev pub is_status : WorkspaceStatus → Workspace → Bool
is_status s w = status_index w.status == status_index s

abbrev pub same_lab : LabId → LabId → Bool
same_lab (initial i) (initial j) = i == j
same_lab (numbered i g) (numbered j h) = i == j && g == h
same_lab null_text null_text = true
same_lab _ _ = false

abbrev pub is_pending : WorkspaceProvision → Bool
is_pending p = elim p.status [ pending ↦ true | cleanup ↦ false ]

-- prisma.workspace.updateMany: the change may read the clock, and `updatedAt` follows it
unfoldable pub update_workspaces : (Workspace → Bool) → (ℕ → Workspace → Workspace) → Transaction ℕ
update_workspaces p f w = committed (count_rows p w.workspaces) (record w {
  workspaces = update_rows p (λ r. record (f w.now r) { updated_at = w.now }) w.workspaces;
})

unfoldable pub delete_workspaces : (Workspace → Bool) → Transaction ℕ
delete_workspaces p w =
    committed (count_rows p w.workspaces) (record w { workspaces = delete_rows p w.workspaces })

unfoldable pub update_provisions :
    (ℕ → WorkspaceProvision → Bool) → (ℕ → WorkspaceProvision → WorkspaceProvision) → Transaction ℕ
update_provisions p f w =
    committed (count_rows (p w.now) w.provisions)
      (record w { provisions = update_rows (p w.now) (f w.now) w.provisions })

unfoldable pub delete_provisions : (WorkspaceProvision → Bool) → Transaction ℕ
delete_provisions p w =
    committed (count_rows p w.provisions) (record w { provisions = delete_rows p w.provisions })

unfoldable pub update_enrollments : (Enrollment → Bool) → (Enrollment → Enrollment) → Transaction ℕ
update_enrollments p f w =
    committed (count_rows p w.enrollments)
      (record w { enrollments = update_rows p f w.enrollments })

abbrev pub new_provision : LabId → ℕ → ℕ → ℕ → WorkspaceProvision
new_provision lab_id workspace_id generation cleanup_at = record {
  lab_id = lab_id;
  workspace_id = workspace_id;
  generation = generation;
  status = pending;
  create_settled = false;
  cleanup_at = cleanup_at;
}

-- `labId` is the primary key.
unfoldable pub create_provision : LabId → ℕ → ℕ → ℕ → Transaction (Unit {0})
create_provision lab_id workspace_id generation delay w =
    if any (λ p. same_lab p.lab_id lab_id) w.provisions
    then aborted unique_violation
    else committed tt (record w {
      provisions = new_provision lab_id workspace_id generation (w.now + delay) ∷ w.provisions;
    })

-- audit/audit.service.ts: events are only added
unfoldable pub record_audit : AuditEvent → Database → Database
record_audit e w = record w { audit_events = e ∷ w.audit_events }

-- workspace.gateway.ts, `broadcastStatus`: every socket of the workspace's enrollment gets the row
unfoldable pub broadcast : Workspace → Database → Database
broadcast r w = record w { broadcasts = r ∷ w.broadcasts }
