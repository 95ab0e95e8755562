-- ===== src/Workspace/Safety.antt =====
-- What every method of the workspace service keeps, and what it asks of Labs, whatever the other
-- handlers do between its commits. The rules here follow the shapes of the methods.
pub mod Provision
pub mod Reset
pub mod Create
pub mod Power
pub mod Console
pub mod Start
use aivirteach_server.Common.{
  ℕ, suc, ◌≤◌, ◌<◌, ◌≡◌, refl, Bool, true, false, String, Option, none, some, List, [], ◌∷◌, ◌==◌,
  arith, if◌then◌else◌, is_some, find_first, All, All-find_first, All-map, Option-cases, inl, inr,
  Bool-cases,
}
use aivirteach_server.Process.{
  HttpError, pure, fail, ◌>>=◌, ◌>>◌, attempt, query, execute, transaction,
}
use aivirteach_server.Process.Contract.{
  Contract, Safe, Safe-query, Safe-execute, Safe-execute_last, Safe-transaction, Safe-bind,
}
use aivirteach_server.Database.{Database, record_audit, broadcast, update_workspaces}
use aivirteach_server.Database.Rows.{
  Workspace, WorkspaceProvision, LabId, AuditActor, Metadata, StopReason, Enrollment,
}
use aivirteach_server.Workspace.{
  Task, LabsRequest, LabsReply, create_vm, delete_vm, stop_vm, start_vm, get_vm_state,
  create_browser_session, exchange_guacamole_token, ok, failed, find_by_enrollment, find_by_id,
  or_throw, audit, broadcast_status, require_owned_enrollment, owned_by,
}
use aivirteach_server.Workspace.Invariant.{IsSound, is_named, is_up, is_kept, owned, owns, Inv}
use aivirteach_server.Workspace.Invariant.Statements.{update_workspaces-Inv}

-- The request names a VM that some workspace may have: its name is not the text of a null.
abbrev pub names_vm : LabsRequest → Bool
names_vm (create_vm l) = is_named l
names_vm (delete_vm l) = is_named l
names_vm (stop_vm l) = is_named l
names_vm (start_vm l) = is_named l
names_vm (get_vm_state l) = is_named l
names_vm (create_browser_session l u) = is_named l
names_vm (exchange_guacamole_token d) = true

abbrev pub NamesVm : LabsRequest → Type 0
NamesVm q = names_vm q ≡ true

-- What Labs promises: the VM that it has made has the name that it was asked for.
abbrev pub IsFaithful : (q : LabsRequest) → LabsReply q → Type 0
IsFaithful (create_vm l) (ok r) = r.lab_id ≡ l
IsFaithful (create_vm l) (failed m) = Unit {0}
IsFaithful (delete_vm l) r = Unit {0}
IsFaithful (stop_vm l) r = Unit {0}
IsFaithful (start_vm l) r = Unit {0}
IsFaithful (get_vm_state l) r = Unit {0}
IsFaithful (create_browser_session l u) r = Unit {0}
IsFaithful (exchange_guacamole_token d) r = Unit {0}

abbrev pub workspace_contract : Contract Database LabsRequest LabsReply
workspace_contract = record { inv = Inv; allowed = NamesVm; good = IsFaithful }

abbrev pub IsSafe : {A : Type 0} → Task A → Type 0
IsSafe = Safe workspace_contract

-- What stays true of a row once it is read: it names a VM of its own, and has one if it was up.
abbrev pub IsUsable : Workspace → Type 0
IsUsable r = (is_up r ≡ true → is_some r.lab_id ≡ true) × (owned r.id r.lab_id ≡ true)

pub IsUsable-of : (ps : List WorkspaceProvision) (r : Workspace) → IsSound ps r → IsUsable r
IsUsable-of ps r h = (λ up. has_vm r.lab_id (h.0 up), h.1)
  where
    has_vm : (l : Option LabId) → is_kept ps l ≡ true → is_some l ≡ true
    has_vm none k = cc
    has_vm (some l) k = refl

module _ {B : Type 0} where
  read_row :
      (p : Workspace → Bool) (f : Option Workspace → Task B)
      → IsSafe (f none)
      → ((r : Workspace) → IsUsable r → IsSafe (f (some r)))
      → (w : Database) → Inv w
      → IsSafe (f (find_first p w.workspaces))
  read_row p f missing found w v = elim (Option-cases (find_first p w.workspaces)) [
    | inl e ↦ rw e missing
    | inr (r, e) ↦ rw e (
        found r (
          IsUsable-of w.provisions r
            (All-find_first (IsSound w.provisions) p w.workspaces r e v.sound).0))
  ]

  pub Safe-find_by_id :
      (id : ℕ) (f : Option Workspace → Task B)
      → IsSafe (f none)
      → ((r : Workspace) → IsUsable r → IsSafe (f (some r)))
      → IsSafe (find_by_id id >>= f)
  unfolding find_by_id
  Safe-find_by_id id f missing found =
      Safe-query workspace_contract _ f (read_row (λ r. r.id == id) f missing found)

  pub Safe-find_by_enrollment :
      (id : ℕ) (f : Option Workspace → Task B)
      → IsSafe (f none)
      → ((r : Workspace) → IsUsable r → IsSafe (f (some r)))
      → IsSafe (find_by_enrollment id >>= f)
  unfolding find_by_enrollment
  Safe-find_by_enrollment id f missing found =
      Safe-query workspace_contract _ f (read_row (λ r. r.enrollment_id == id) f missing found)

  -- A row that must be there.
  pub Safe-require_by_id :
      (id : ℕ) (e : HttpError) (f : Workspace → Task B)
      → ((r : Workspace) → IsUsable r → IsSafe (f r))
      → IsSafe (find_by_id id >>= λ found. or_throw e found >>= f)
  unfolding attempt
  Safe-require_by_id id e f s = Safe-find_by_id id _ tt s

  pub Safe-require_by_enrollment :
      (id : ℕ) (e : HttpError) (f : Workspace → Task B)
      → ((r : Workspace) → IsUsable r → IsSafe (f r))
      → IsSafe (find_by_enrollment id >>= λ found. or_throw e found >>= f)
  unfolding attempt
  Safe-require_by_enrollment id e f s = Safe-find_by_enrollment id _ tt s

  Safe-owned_by :
      (user_id : ℕ) (e : Option Enrollment) (f : Enrollment → Task B)
      → ((e : Enrollment) → IsSafe (f e))
      → IsSafe (owned_by user_id e >>= f)
  unfolding attempt
  Safe-owned_by user_id none f s = tt
  Safe-owned_by user_id (some e) f s = elim (Bool-cases (e.user_id == user_id)) [
    | inl t ↦ rw (t, attempt) (s e)
    | inr t ↦ rw (t, attempt) tt
  ]

  -- The rest runs only for an enrollment of the caller's.
  pub Safe-require_owned :
      (user_id enrollment_id : ℕ) (f : Enrollment → Task B)
      → ((e : Enrollment) → IsSafe (f e))
      → IsSafe (require_owned_enrollment user_id enrollment_id >>= f)
  unfolding require_owned_enrollment query attempt
  Safe-require_owned user_id enrollment_id f s = λ w v. (v, Safe-owned_by user_id _ f s)

  -- A change of rows that keeps their ids and their soundness, whatever the cleanup records.
  pub Safe-update :
      (p : Workspace → Bool) (g : ℕ → Workspace → Workspace) (f : ℕ → Task B)
      → ((now : ℕ) (r : Workspace) → (g now r).id ≡ r.id)
      → ((ps : List WorkspaceProvision) (now : ℕ) (r : Workspace)
          → p r ≡ true
          → IsSound ps r
          → IsSound ps (g now r))
      → ((n : ℕ) → IsSafe (f n))
      → IsSafe (transaction (update_workspaces p g) >>= f)
  Safe-update p g f same keeps s =
      Safe-transaction workspace_contract _ f
        (λ w v. update_workspaces-Inv w v p g (same w.now) (keeps w.provisions w.now)) s

audit-Inv :
    (actor : AuditActor) (action : String) (success : Bool) (target : ℕ)
    (reason : Option StopReason) (metadata : Metadata)
    → IsSafe (audit actor action success target reason metadata)
unfolding audit execute record_audit
audit-Inv actor action success target reason metadata w v = (
  record {
    sound = v.sound;
    distinct = v.distinct;
    fresh = v.fresh;
    labs = v.labs;
    tasks = v.tasks;
  },
  tt,
)

broadcast-Inv : (r : Workspace) → IsSafe (broadcast_status r)
unfolding broadcast_status execute broadcast
broadcast-Inv r w v = (
  record {
    sound = v.sound;
    distinct = v.distinct;
    fresh = v.fresh;
    labs = v.labs;
    tasks = v.tasks;
  },
  tt,
)

module _ {B : Type 0} where
  pub Safe-audit :
      (actor : AuditActor) (action : String) (success : Bool) (target : ℕ)
      (reason : Option StopReason) (metadata : Metadata) (m : Task B)
      → IsSafe m
      → IsSafe (audit actor action success target reason metadata >> m)
  Safe-audit actor action success target reason metadata m s =
      Safe-bind workspace_contract _ _ (audit-Inv actor action success target reason metadata)
        (λ u. s)

  pub Safe-broadcast : (r : Workspace) (m : Task B) → IsSafe m → IsSafe (broadcast_status r >> m)
  Safe-broadcast r m s = Safe-bind workspace_contract _ _ (broadcast-Inv r) (λ u. s)

pub Safe-broadcast_last : (r : Workspace) → IsSafe (broadcast_status r)
Safe-broadcast_last r = broadcast-Inv r
