-- ===== src/Workspace/Safety/Create.antt =====
-- `getForEnrollment` and `create` are safe.
use aivirteach_server.Common.{
  ℕ, ◌<◌, ◌≡◌, refl, true, false, some, List, [], ◌∷◌, ◌==◌, arith, any, if◌then◌else◌, All,
  All-map, Bool-cases, inl, inr, ◌&&◌, ◌||◌,
}
use aivirteach_server.Process.{HttpError, not_found, unique_violation, after}
use aivirteach_server.Process.Contract.{
  Safe-query, Safe-transaction_last, Safe-bind, Safe-if, Safe-attempt,
}
use aivirteach_server.Database.{Database, is_status}
use aivirteach_server.Database.Rows.{Workspace, Enrollment, creating, error}
use aivirteach_server.Workspace.{is_at, is_creating_at, is_stale}
use aivirteach_server.Workspace.Create.{
  expire_stale, get_for_enrollment, create_workspace, provision, create_again, create_refused,
  create_first, create_from, create,
}
use aivirteach_server.Workspace.Invariant.{has_id, Inv}
use aivirteach_server.Workspace.Safety.{
  workspace_contract, IsSafe, Safe-find_by_enrollment, Safe-find_by_id, Safe-require_by_id,
  Safe-require_by_enrollment, Safe-require_owned, Safe-update,
}
use aivirteach_server.Workspace.Safety.Provision.{schedule_provision-IsSafe}

expire_stale-IsSafe : (now : ℕ) (r : Workspace) → IsSafe (expire_stale now r)
expire_stale-IsSafe now r =
    Safe-if workspace_contract (is_status creating r && is_stale now r) _ _
      (λ t.
        Safe-update (is_creating_at r.id r.provision_generation) _ _ (λ now x. refl)
          (λ ps now x m h. (λ up. cc, h.1)) (λ n. Safe-find_by_id r.id _ tt (λ x u. tt)))
      (λ t. tt)

-- A poll that finds a creation overdue gives it up, and keeps the invariant.
pub get_for_enrollment-IsSafe :
    (user_id enrollment_id : ℕ) → IsSafe (get_for_enrollment user_id enrollment_id)
unfolding get_for_enrollment
get_for_enrollment-IsSafe user_id enrollment_id = Safe-require_owned user_id enrollment_id _ (λ e.
    Safe-require_by_enrollment e.id not_found _
      (λ r u. Safe-query workspace_contract _ _ (λ w v. expire_stale-IsSafe w.now r)))

fresh_id : (n : ℕ) (rs : List Workspace) → All (λ r. r.id < n) rs → has_id n rs ≡ false
fresh_id n [] a = refl
fresh_id n (r ∷ rs) a = ground (arith, fresh_id n rs a.1)

create_workspace-Inv :
    (enrollment_id : ℕ) (w : Database) → Inv w → Inv (after w (create_workspace enrollment_id w))
unfolding create_workspace
create_workspace-Inv enrollment_id w v =
    elim (Bool-cases (any (λ (r : Workspace). r.enrollment_id == enrollment_id) w.workspaces)) [
      | inl t ↦ rw t v
      | inr t ↦ rw t (record {
        sound = ((λ up. cc, refl), v.sound);
        distinct = (fresh_id w.next_id w.workspaces v.fresh, v.distinct);
        fresh = (omega arith, All-map _ _ w.workspaces (λ r h. omega arith) v.fresh);
        labs = v.labs;
        tasks = v.tasks;
      })
    ]

pub provision-IsSafe :
    (r : Workspace) (user_id enrollment_id enrollment_generation : ℕ)
    → IsSafe (provision r user_id enrollment_id enrollment_generation)
provision-IsSafe r user_id enrollment_id enrollment_generation =
    Safe-bind workspace_contract _ _ (schedule_provision-IsSafe r user_id enrollment_generation)
      (λ b.
        Safe-if workspace_contract b _ _ (λ t. tt)
          (λ t. Safe-find_by_enrollment enrollment_id _ tt (λ x u. tt)))

create_again-IsSafe :
    (r : Workspace) (user_id : ℕ) (e : Enrollment) → IsSafe (create_again r user_id e)
create_again-IsSafe r user_id e =
    Safe-update (is_at r.id error) _ _ (λ now x. refl) (λ ps now x m h. (λ up. cc, h.1))
      (λ n. Safe-require_by_id r.id not_found _ (λ x u.
        Safe-if workspace_contract (n == 0 || (if is_status creating x then false else true)) _ _
          (λ t. tt) (λ t. provision-IsSafe x user_id e.id e.generation)))

create_refused-IsSafe : (id : ℕ) (e : HttpError) → IsSafe (create_refused id e)
create_refused-IsSafe id unique_violation = Safe-find_by_enrollment id _ tt (λ x u. tt)
create_refused-IsSafe id _ = tt

create_first-IsSafe : (user_id : ℕ) (e : Enrollment) → IsSafe (create_first user_id e)
create_first-IsSafe user_id e =
    Safe-attempt workspace_contract _ _ _
      (Safe-transaction_last workspace_contract _ (create_workspace-Inv e.id))
      (λ r. provision-IsSafe r user_id e.id e.generation) (create_refused-IsSafe e.id)

create_from-IsSafe :
    (user_id : ℕ) (e : Enrollment) (r : Workspace) → IsSafe (create_from user_id e (some r))
create_from-IsSafe user_id e r =
    Safe-if workspace_contract (is_status error r) _ _ (λ t. create_again-IsSafe r user_id e)
      (λ t. tt)

-- A creation keeps the invariant, also when two of them race.
pub create-IsSafe : (user_id enrollment_id : ℕ) → IsSafe (create user_id enrollment_id)
unfolding create
create-IsSafe user_id enrollment_id = Safe-require_owned user_id enrollment_id _ (λ e.
    Safe-if workspace_contract e.active _ _
      (λ t.
        Safe-find_by_enrollment e.id _ (create_first-IsSafe user_id e)
          (λ r u. create_from-IsSafe user_id e r))
      (λ t. tt))
