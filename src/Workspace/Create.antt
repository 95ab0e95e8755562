-- ===== src/Workspace/Create.antt =====
-- workspace.service.ts: `getForEnrollment` and `create`.
use aivirteach_server.Common.{
  ℕ, suc, ◌+◌, true, false, Option, none, some, ◌∷◌, if◌then◌else◌, ◌==◌, ◌&&◌, ◌||◌, any,
}
use aivirteach_server.Process.{
  pure, fail, attempt, ◌>>=◌, ◌>>◌, query, transaction, not_found, conflict, unique_violation,
  HttpError, committed, aborted,
}
use aivirteach_server.Database.{Transaction, is_status, update_workspaces}
use aivirteach_server.Database.Rows.{Workspace, Enrollment, creating, error}
use aivirteach_server.Workspace.{
  Task, is_creating_at, is_at, is_stale, find_by_enrollment, find_by_id, or_throw,
  require_owned_enrollment,
}
use aivirteach_server.Workspace.Provision.{schedule_provision}

abbrev pub expire_stale : ℕ → Workspace → Task Workspace
expire_stale now workspace =
    if is_status creating workspace && is_stale now workspace
    then (do
      transaction (
          update_workspaces (is_creating_at workspace.id workspace.provision_generation)
            (λ now r. record r { status = error; error_message = some "创建超时，请重试" }))
      current ← find_by_id workspace.id
      or_throw not_found current)
    else pure workspace

unfoldable pub get_for_enrollment : ℕ → ℕ → Task Workspace
get_for_enrollment user_id enrollment_id = do
  enrollment ← require_owned_enrollment user_id enrollment_id
  found ← find_by_enrollment enrollment.id
  workspace ← or_throw not_found found
  now ← query (λ w. w.now)
  expire_stale now workspace

-- prisma.workspace.create: one workspace for an enrollment, by the unique index
unfoldable pub create_workspace : ℕ → Transaction Workspace
create_workspace enrollment_id w =
    if any (λ (r : Workspace). r.enrollment_id == enrollment_id) w.workspaces
    then aborted unique_violation
    else committed row (record w { workspaces = row ∷ w.workspaces; next_id = suc w.next_id })
  where
    row : Workspace
    row = record {
      id = w.next_id;
      enrollment_id = enrollment_id;
      status = creating;
      error_message = none;
      lab_id = none;
      rdp_port = none;
      rdp_username = none;
      last_seen_at = none;
      provision_started_at = some w.now;
      provision_generation = 0;
      reset_retry_at = none;
      created_at = w.now;
      updated_at = w.now;
    }

-- `const scheduled = ...; if (scheduled) return workspace;` and the row as it is otherwise
abbrev pub provision : Workspace → ℕ → ℕ → ℕ → Task Workspace
provision workspace user_id enrollment_id enrollment_generation = do
  scheduled ← schedule_provision workspace user_id enrollment_generation
  if scheduled
      then pure workspace
      else (do current ← find_by_enrollment enrollment_id; or_throw conflict current)

abbrev pub create_again : Workspace → ℕ → Enrollment → Task Workspace
create_again existing user_id enrollment = do
  changed ← transaction (
      update_workspaces (is_at existing.id error) (λ now r. record r {
        status = creating;
        error_message = none;
        provision_started_at = some now;
        provision_generation = r.provision_generation + 1;
      }))
  found ← find_by_id existing.id
  current ← or_throw not_found found
  if changed == 0 || (if is_status creating current then false else true)
      then pure current
      else provision current user_id enrollment.id enrollment.generation

abbrev pub create_refused : ℕ → HttpError → Task Workspace
create_refused enrollment_id unique_violation = do
  current ← find_by_enrollment enrollment_id
  or_throw unique_violation current
create_refused enrollment_id e = fail e

abbrev pub create_first : ℕ → Enrollment → Task Workspace
create_first user_id enrollment =
    attempt (transaction (create_workspace enrollment.id))
      (λ workspace. provision workspace user_id enrollment.id enrollment.generation)
      (create_refused enrollment.id)

abbrev pub create_from : ℕ → Enrollment → Option Workspace → Task Workspace
create_from user_id enrollment none = create_first user_id enrollment
create_from user_id enrollment (some existing) =
    if is_status error existing then create_again existing user_id enrollment else pure existing

unfoldable pub create : ℕ → ℕ → Task Workspace
create user_id enrollment_id = do
  enrollment ← require_owned_enrollment user_id enrollment_id
  if enrollment.active
      then find_by_enrollment enrollment.id >>= create_from user_id enrollment
      else fail conflict
