-- ===== src/Workspace/Invariant.antt =====
-- What holds of the workspaces, the cleanup records and the background tasks between two commits.
pub mod Statements
pub mod Attach
pub mod Reserve
use aivirteach_server.Common.{
  ℕ, ◌<◌, ◌≡◌, ◌≢◌, Bool, true, false, not, ◌||◌, Option, none, some, List, [], ◌∷◌, ◌==◌, any, All,
  is_some,
}
use aivirteach_server.Database.{Database, ProvisionTask, is_status, same_lab}
use aivirteach_server.Database.Rows.{
  Workspace, WorkspaceProvision, running, stopped, LabId, initial, numbered, null_text,
}

-- The VM's name is one of the workspace's own.
abbrev pub owns : ℕ → LabId → Bool
owns id (initial i) = i == id
owns id (numbered i g) = i == id
owns id null_text = false

abbrev pub is_named : LabId → Bool
is_named null_text = false
is_named _ = true

abbrev pub owned : ℕ → Option LabId → Bool
owned id none = true
owned id (some l) = owns id l

-- A cleanup record stands for the VM.
abbrev pub is_recorded : List WorkspaceProvision → LabId → Bool
is_recorded ps l = any (λ p. same_lab p.lab_id l) ps

abbrev pub is_up : Workspace → Bool
is_up r = is_status running r || is_status stopped r

-- There is a VM, and nothing is going to delete it.
abbrev pub is_kept : List WorkspaceProvision → Option LabId → Bool
is_kept ps none = false
is_kept ps (some l) = not (is_recorded ps l)

abbrev pub IsSound : List WorkspaceProvision → Workspace → Type 0
IsSound ps r = (is_up r ≡ true → is_kept ps r.lab_id ≡ true) × (owned r.id r.lab_id ≡ true)

abbrev pub has_id : ℕ → List Workspace → Bool
has_id id = any (λ r. r.id == id)

abbrev pub DistinctIds : List Workspace → Type 0
DistinctIds [] = Unit {0}
DistinctIds (r ∷ rs) = (has_id r.id rs ≡ false) × DistinctIds rs

-- The primary key, and that each record names a VM.
abbrev pub DistinctLabs : List WorkspaceProvision → Type 0
DistinctLabs [] = Unit {0}
DistinctLabs (p ∷ ps) =
    (is_recorded ps p.lab_id ≡ false) × (is_named p.lab_id ≡ true) × DistinctLabs ps

abbrev pub IsOwnTask : ProvisionTask → Type 0
IsOwnTask t = owns t.workspace_id t.lab_id ≡ true

pub record Inv (w : Database) : Type 0 where
  pub sound : All (IsSound w.provisions) w.workspaces
  pub distinct : DistinctIds w.workspaces
  pub fresh : All (λ r. r.id < w.next_id) w.workspaces
  pub labs : DistinctLabs w.provisions
  pub tasks : All IsOwnTask w.background
