-- ===== src/Workspace/Safety/Provision.antt =====
-- `scheduleProvision`, `provisionInBackground` and `cleanupProvision` are safe.
use aivirteach_server.Common.{
  ℕ, ◌≡◌, refl, Bool, true, false, String, Option, none, some, ◌==◌, arith, if◌then◌else◌,
  find_first,
}
use aivirteach_server.Process.{HttpError, stale_provision, pure, ◌>>=◌, ◌>>◌, execute, transaction}
use aivirteach_server.Process.Contract.{
  Safe-query, Safe-execute, Safe-transaction, Safe-if, Safe-send, Safe-attempt,
  Safe-transaction_last,
}
use aivirteach_server.Database.{ProvisionTask, update_provisions, same_lab, is_status}
use aivirteach_server.Database.Rows.{Workspace, WorkspaceProvision, LabId, running, error, plain}
use aivirteach_server.Workspace.{
  Task, LabsResult, ok, failed, CreateVmResult, create_vm, delete_vm, lab_id_of, is_creating_at,
  by_user, reset_retry_ms, unknown_create_recheck_ms,
}
use aivirteach_server.Workspace.Transactions.{attach}
use aivirteach_server.Workspace.Provision.{
  wait_until, schedule_provision, is_claimable, is_claimed, retry_cleanup, settled, after_delete,
  cleanup_provision, report_created, create_failed, attached, attach_failed, created,
  provision_in_background,
}
use aivirteach_server.Workspace.Invariant.{owns, is_named, IsOwnTask}
use aivirteach_server.Workspace.Invariant.Statements.{update_provisions-Inv, delete_provisions-Inv}
use aivirteach_server.Workspace.Invariant.Reserve.{reserve-Inv, owns_named}
use aivirteach_server.Workspace.Invariant.Attach.{attach-Inv}
use aivirteach_server.Workspace.Safety.{
  workspace_contract, IsSafe, Safe-find_by_id, Safe-update, Safe-audit, Safe-broadcast_last,
}

own_lab_id : (id generation : ℕ) → owns id (lab_id_of id generation) ≡ true
own_lab_id id generation = ground arith

module _ {B : Type 0} where
  Safe-update_provisions :
      (p : ℕ → WorkspaceProvision → Bool) (g : ℕ → WorkspaceProvision → WorkspaceProvision)
      (f : ℕ → Task B)
      → ((now : ℕ) (q : WorkspaceProvision) → (g now q).lab_id ≡ q.lab_id)
      → ((n : ℕ) → IsSafe (f n))
      → IsSafe (transaction (update_provisions p g) >>= f)
  Safe-update_provisions p g f same s =
      Safe-transaction workspace_contract _ f (λ w v. update_provisions-Inv w v p g (same w.now)) s

  Safe-wait_until :
      (t : ProvisionTask) (m : Task B)
      → IsOwnTask t
      → IsSafe m
      → IsSafe (execute (wait_until t) >> m)
  unfolding wait_until
  Safe-wait_until t m own s =
      Safe-execute workspace_contract _ _
        (λ w v. record {
          sound = v.sound;
          distinct = v.distinct;
          fresh = v.fresh;
          labs = v.labs;
          tasks = (own, v.tasks);
        })
        s

pub schedule_provision-IsSafe :
    (r : Workspace) (user_id enrollment_generation : ℕ)
    → IsSafe (schedule_provision r user_id enrollment_generation)
unfolding schedule_provision
schedule_provision-IsSafe r user_id enrollment_generation =
    let own = own_lab_id r.id r.provision_generation in
    Safe-transaction workspace_contract _ _
      (λ w v.
        reserve-Inv w v r.id r.enrollment_id enrollment_generation r.provision_generation
          (lab_id_of r.id r.provision_generation) own)
      (λ b. Safe-if workspace_contract b _ _ (λ t. Safe-wait_until _ _ own tt) (λ t. tt))

Safe-retry_cleanup :
    (l : LabId) (delay : ℕ)
    → {B : Type 0} → (m : Task B) → IsSafe m
    → IsSafe (retry_cleanup l delay >> m)
Safe-retry_cleanup l delay m s = Safe-update_provisions _ _ _ (λ now q. refl) (λ n. s)

after_delete-IsSafe :
    (l : LabId) (p : Option WorkspaceProvision) (r : LabsResult (Unit {0}))
    → IsSafe (after_delete l p r)
after_delete-IsSafe l p (ok u) =
    Safe-if workspace_contract (settled p) _ _
      (λ t.
        Safe-transaction workspace_contract _ _ (λ w v. delete_provisions-Inv w v (is_claimed l))
          (λ n. tt))
      (λ t. Safe-retry_cleanup l unknown_create_recheck_ms (pure tt) tt)
after_delete-IsSafe l p (failed message) = Safe-retry_cleanup l reset_retry_ms _ tt

-- It asks Labs to delete the VM that its record names, and no other.
pub cleanup_provision-IsSafe : (l : LabId) → is_named l ≡ true → IsSafe (cleanup_provision l)
unfolding cleanup_provision
cleanup_provision-IsSafe l named =
    Safe-update_provisions (is_claimable l) _ _ (λ now q. refl)
      (λ n.
        Safe-if workspace_contract (n == 0) _ _ (λ t. tt)
          (λ t. Safe-query workspace_contract _ _ (λ w v.
            Safe-send workspace_contract (delete_vm l) _ named (λ r g.
              after_delete-IsSafe l
                (find_first (λ (p : WorkspaceProvision). same_lab p.lab_id l) w.provisions) r))))

report_created-IsSafe :
    (id user_id : ℕ) (success : Bool) (o : Option Workspace)
    → IsSafe (report_created id user_id success o)
report_created-IsSafe id user_id success none = tt
report_created-IsSafe id user_id success (some r) =
    Safe-if workspace_contract (is_status (if success then running else error) r) _ _
      (λ t.
        Safe-audit (by_user user_id) "workspace.create" success id none plain _
          (Safe-broadcast_last r))
      (λ t. tt)

create_failed-IsSafe :
    (id user_id generation : ℕ) (message : String)
    → IsSafe (create_failed id user_id generation message)
create_failed-IsSafe id user_id generation message =
    Safe-update (is_creating_at id generation) _ _ (λ now r. refl) (λ ps now r m h. (λ up. cc, h.1))
      (λ n.
        Safe-if workspace_contract (n == 0) _ _ (λ t. tt)
          (λ t. Safe-find_by_id id _ tt (λ r u. report_created-IsSafe id user_id false (some r))))

attach_failed-IsSafe : (l : LabId) (e : HttpError) → is_named l ≡ true → IsSafe (attach_failed l e)
attach_failed-IsSafe l stale_provision named = cleanup_provision-IsSafe l named
attach_failed-IsSafe l _ named = tt

attached-IsSafe :
    (id user_id n : ℕ) (l : LabId) → is_named l ≡ true → IsSafe (attached id user_id l n)
attached-IsSafe id user_id n l named =
    Safe-if workspace_contract (n == 0) _ _ (λ t. cleanup_provision-IsSafe l named)
      (λ t. Safe-find_by_id id _ tt (λ r u. report_created-IsSafe id user_id true (some r)))

created-IsSafe :
    (id user_id generation : ℕ) (l : LabId) (r : LabsResult CreateVmResult)
    → owns id l ≡ true
    → workspace_contract.good (create_vm l) r
    → IsSafe (created id user_id generation l r)
created-IsSafe id user_id generation l (failed message) own g =
    create_failed-IsSafe id user_id generation message
created-IsSafe id user_id generation l (ok result) own g =
    let named = owns_named id l own in
    Safe-update_provisions (λ now p. same_lab p.lab_id l) _ _ (λ now q. refl)
      (λ n.
        Safe-attempt workspace_contract (transaction (attach id generation l result)) _ _
          (Safe-transaction_last workspace_contract _
            (λ w v. attach-Inv w v id generation l result own g))
          (λ m. attached-IsSafe id user_id m l named) (λ e. attach_failed-IsSafe l e named))

-- A VM's creation in the background keeps the invariant, however the learner restarts meanwhile.
pub provision_in_background-IsSafe :
    (t : ProvisionTask) → IsOwnTask t → IsSafe (provision_in_background t)
unfolding provision_in_background
provision_in_background-IsSafe t own =
    Safe-send workspace_contract (create_vm t.lab_id) _ (owns_named t.workspace_id t.lab_id own)
      (λ r g. created-IsSafe t.workspace_id t.user_id t.generation t.lab_id r own g)
