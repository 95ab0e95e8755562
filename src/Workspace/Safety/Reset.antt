-- ===== src/Workspace/Safety/Reset.antt =====
-- `finishReset` and `sweepResets` are safe.
use aivirteach_server.Common.{
  All-keep, All-order_rows, ℕ, suc, ◌≡◌, refl, true, false, Option, none, some, List, [], ◌∷◌,
  or_default, zero, take, All,
}
use aivirteach_server.Process.Contract.{
  Safe-query, Safe-transaction, Safe-bind, Safe-if, Safe-send, Safe-attempt,
}
use aivirteach_server.Database.{is_status}
use aivirteach_server.Database.Rows.{
  Workspace, WorkspaceProvision, LabId, initial, resetting, plain, AuditActor,
}
use aivirteach_server.Workspace.{LabsResult, ok, failed, delete_vm, is_at}
use aivirteach_server.Workspace.Reset.{
  after_reset_delete, is_settling, reset_found, finish_reset, reset_each, cleanup_each,
  sweep_resets,
}
use aivirteach_server.Workspace.Invariant.{owned, is_named, DistinctLabs}
use aivirteach_server.Workspace.Invariant.Statements.{delete_workspaces-Inv}
use aivirteach_server.Workspace.Invariant.Reserve.{owns_named}
use aivirteach_server.Workspace.Safety.{
  workspace_contract, IsSafe, IsUsable, Safe-find_by_enrollment, Safe-update, Safe-audit,
}
use aivirteach_server.Workspace.Safety.Provision.{cleanup_provision-IsSafe}

after_reset_delete-IsSafe :
    (r : Workspace) (o : LabsResult (Unit {0})) → IsSafe (after_reset_delete r o)
after_reset_delete-IsSafe r (ok u) =
    Safe-transaction workspace_contract _ _
      (λ w v. delete_workspaces-Inv w v (is_at r.id resetting))
      (λ n. Safe-audit AuditActor.system "workspace.reset" true r.id none plain _ tt)
after_reset_delete-IsSafe r (failed message) =
    Safe-update (is_at r.id resetting) _ _ (λ now x. refl) (λ ps now x m h. h)
      (λ n. Safe-audit AuditActor.system "workspace.reset" false r.id none plain _ tt)

named_or_own :
    (id : ℕ) (l : Option LabId) → owned id l ≡ true → is_named (or_default l (initial id)) ≡ true
named_or_own id none h = refl
named_or_own id (some l) h = owns_named id l h

reset_found-IsSafe : (now : ℕ) (r : Workspace) → IsUsable r → IsSafe (reset_found now (some r))
reset_found-IsSafe now r u =
    Safe-if workspace_contract (is_status resetting r) _ _
      (λ t.
        Safe-if workspace_contract (is_settling now r.provision_started_at) _ _
          (λ s.
            Safe-update (is_at r.id resetting) _ _ (λ now x. refl) (λ ps now x m h. h) (λ n. tt))
          (λ s.
            Safe-send workspace_contract (delete_vm (or_default r.lab_id (initial r.id))) _
              (named_or_own r.id r.lab_id u.1) (λ o g. after_reset_delete-IsSafe r o)))
      (λ t. tt)

-- A reset deletes the VM that the row names, or the first one of the row's id, and no other.
pub finish_reset-IsSafe : (enrollment_id : ℕ) → IsSafe (finish_reset enrollment_id)
unfolding finish_reset
finish_reset-IsSafe enrollment_id =
    Safe-find_by_enrollment enrollment_id _ (Safe-query workspace_contract _ _ (λ w v. tt))
      (λ r u. Safe-query workspace_contract _ _ (λ w v. reset_found-IsSafe w.now r u))

reset_each-IsSafe : (rs : List Workspace) (n : ℕ) → IsSafe (reset_each rs n)
unfolding reset_each
reset_each-IsSafe [] n = tt
reset_each-IsSafe (r ∷ rs) n =
    Safe-attempt workspace_contract _ _ _ (finish_reset-IsSafe r.enrollment_id)
      (λ done. reset_each-IsSafe rs n) (λ e. reset_each-IsSafe rs (suc n))

abbrev AllNamed : List WorkspaceProvision → Type 0
AllNamed = All (λ p. is_named p.lab_id ≡ true)

cleanup_each-IsSafe :
    (ps : List WorkspaceProvision) (n : ℕ) → AllNamed ps → IsSafe (cleanup_each ps n)
unfolding cleanup_each
cleanup_each-IsSafe [] n a = tt
cleanup_each-IsSafe (p ∷ ps) n a =
    Safe-attempt workspace_contract _ _ _ (cleanup_provision-IsSafe p.lab_id a.0)
      (λ done. cleanup_each-IsSafe ps n a.1) (λ e. cleanup_each-IsSafe ps (suc n) a.1)

AllNamed-of : (ps : List WorkspaceProvision) → DistinctLabs ps → AllNamed ps
AllNamed-of [] d = tt
AllNamed-of (p ∷ ps) d = (d.1, AllNamed-of ps d.2)

-- Choosing and ordering the tasks of a sweep keeps what holds of each.
module _ {A : Type 0} (P : A → Type 0) where
  All-take : (n : ℕ) (xs : List A) → All P xs → All P (take n xs)
  All-take zero xs a = tt
  All-take (suc n) [] a = tt
  All-take (suc n) (x ∷ xs) a = (a.0, All-take n xs a.1)

-- The sweep is safe, whichever tasks it finds.
pub sweep_resets-IsSafe : IsSafe sweep_resets
unfolding sweep_resets
sweep_resets-IsSafe = Safe-query workspace_contract _ _ (λ w v.
    Safe-bind workspace_contract _ _ (reset_each-IsSafe _ 0) (λ n.
      Safe-query workspace_contract _ _ (λ w' v'.
        Safe-bind workspace_contract _ _
          (cleanup_each-IsSafe _ n (
            All-take _ 10 _
              (All-order_rows _ _ _ (All-keep _ _ w'.provisions (AllNamed-of _ v'.labs)))))
          (λ m. tt))))
