-- ===== src/Workspace/Safety/Start.antt =====
-- `start` and `sweepIdle` are safe.
use aivirteach_server.Common.{
  ℕ, ◌≡◌, refl, true, false, String, Option, none, some, List, [], ◌∷◌, ◌*◌, arith, keep, All,
  All-map, Bool-cases, inl, inr,
}
use aivirteach_server.Process.{not_found}
use aivirteach_server.Process.Contract.{Safe-query, Safe-if, Safe-send, Safe-attempt}
use aivirteach_server.Database.{is_status}
use aivirteach_server.Database.Rows.{
  Workspace, creating, running, stopped, plain, vm_missing, AuditActor, idle,
}
use aivirteach_server.Workspace.{
  LabsResult, ok, failed, VmState, present, missing, start_vm, get_vm_state, is_at, asserted_lab_id,
  by_user,
}
use aivirteach_server.Workspace.Power.{
  observed, rebuild_missing_vm, mark_started, start_failed, start_observed, start_answered, start,
  stop_each, is_idle, sweep_idle,
}
use aivirteach_server.Workspace.Invariant.{is_named}
use aivirteach_server.Workspace.Safety.{
  workspace_contract, IsSafe, IsUsable, IsUsable-of, Safe-require_by_id, Safe-require_by_enrollment,
  Safe-require_owned, Safe-update, Safe-audit, Safe-broadcast,
}
use aivirteach_server.Workspace.Safety.Create.{provision-IsSafe}
use aivirteach_server.Workspace.Safety.Power.{
  asserted-is_named, reported, stop_workspace-IsSafe, up_of_running, up_of_stopped,
}

rebuild_missing_vm-IsSafe :
    (r : Workspace) (user_id generation : ℕ) → IsSafe (rebuild_missing_vm r user_id generation)
rebuild_missing_vm-IsSafe r user_id generation =
    Safe-update (is_at r.id stopped) _ _ (λ now x. refl) (λ ps now x m h. (λ up. cc, h.1))
      (λ n. Safe-require_by_id r.id not_found _ (λ x u. reported n creating x _ (
        Safe-audit (by_user user_id) "workspace.start" false r.id none vm_missing _
          (Safe-broadcast x _ (provision-IsSafe x user_id r.enrollment_id generation)))))

mark_started-IsSafe : (r : Workspace) (user_id : ℕ) → IsSafe (mark_started r user_id)
mark_started-IsSafe r user_id =
    Safe-update (is_at r.id stopped) _ _ (λ now x. refl)
      (λ ps now x m h. (λ up. h.0 (ground arith), h.1))
      (λ n. Safe-require_by_id r.id not_found _ (λ x u. reported n running x _ (
        Safe-audit (by_user user_id) "workspace.start" true r.id none plain _
          (Safe-broadcast x _ tt))))

start_failed-IsSafe :
    (r : Workspace) (user_id : ℕ) (message : String) → IsSafe (start_failed r user_id message)
start_failed-IsSafe r user_id message =
    Safe-audit (by_user user_id) "workspace.start" false r.id none plain _ tt

start_observed-IsSafe :
    (r : Workspace) (user_id generation : ℕ) (message : String) (o : Option VmState)
    → IsSafe (start_observed r user_id generation message o)
start_observed-IsSafe r user_id generation message (some missing) =
    rebuild_missing_vm-IsSafe r user_id generation
start_observed-IsSafe r user_id generation message (some (present state)) =
    start_failed-IsSafe r user_id message
start_observed-IsSafe r user_id generation message none = start_failed-IsSafe r user_id message

start_answered-IsSafe :
    (r : Workspace) (user_id generation : ℕ) (o : LabsResult (Unit {0}))
    → is_named (asserted_lab_id r) ≡ true
    → IsSafe (start_answered r user_id generation o)
start_answered-IsSafe r user_id generation (ok u) named = mark_started-IsSafe r user_id
start_answered-IsSafe r user_id generation (failed message) named =
    Safe-send workspace_contract (get_vm_state (asserted_lab_id r)) _ named
      (λ s g. start_observed-IsSafe r user_id generation message (observed s))

-- A start asks for a VM that exists, and a rebuild of one that is gone keeps the invariant.
pub start-IsSafe : (user_id enrollment_id : ℕ) → IsSafe (start user_id enrollment_id)
unfolding start
start-IsSafe user_id enrollment_id = Safe-require_owned user_id enrollment_id _ (λ e.
    Safe-require_by_enrollment e.id not_found _ (λ r u.
      Safe-if workspace_contract (is_status stopped r) _ _
        (λ t.
          let named = asserted-is_named r u (up_of_stopped r t) in
          Safe-send workspace_contract (start_vm (asserted_lab_id r)) _ named
            (λ o g. start_answered-IsSafe r user_id e.generation o named))
        (λ t. tt)))

abbrev HasVm : Workspace → Type 0
HasVm r = is_named (asserted_lab_id r) ≡ true

stop_each-IsSafe : (rs : List Workspace) → All HasVm rs → IsSafe (stop_each rs)
unfolding stop_each
stop_each-IsSafe [] a = tt
stop_each-IsSafe (r ∷ rs) a =
    Safe-attempt workspace_contract _ _ _ (stop_workspace-IsSafe r AuditActor.system idle a.0)
      (λ done. stop_each-IsSafe rs a.1) (λ e. stop_each-IsSafe rs a.1)

running_of_idle :
    (timeout now : ℕ) (r : Workspace) → is_idle timeout now r ≡ true → is_status running r ≡ true
running_of_idle timeout now r h = ground arith

idle-HasVm :
    (timeout now : ℕ) (rs : List Workspace)
    → All IsUsable rs
    → All HasVm (keep (is_idle timeout now) rs)
idle-HasVm timeout now [] a = tt
idle-HasVm timeout now (r ∷ rs) a = elim (Bool-cases (is_idle timeout now r)) [
  | inl t ↦ rw t (
    asserted-is_named r a.0 (up_of_running r (running_of_idle timeout now r t)),
    idle-HasVm timeout now rs a.1,
  )
  | inr t ↦ rw t (idle-HasVm timeout now rs a.1)
]

-- The idle sweep stops only workspaces that have a VM, and keeps the invariant.
pub sweep_idle-IsSafe : (minutes : ℕ) → IsSafe (sweep_idle minutes)
unfolding sweep_idle
sweep_idle-IsSafe minutes = Safe-query workspace_contract _ _ (λ w v. stop_each-IsSafe _ (
    idle-HasVm (minutes * 60 * 1000) w.now w.workspaces
      (All-map _ _ w.workspaces (IsUsable-of w.provisions) v.sound)))
