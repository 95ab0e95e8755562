-- ===== src/Workspace/Tests.antt =====
-- Runs of the service on a small world: one enrollment, and Labs that does what it is asked.
use aivirteach_server.Common.{◌≡◌, refl, true, false, none, some, [], ◌∷◌}
use mathlib.Core.List.{Memᴰ}
use aivirteach_server.Process.{attempt, transaction, query, execute, send}
use aivirteach_server.Process.Contract.{Reaches, Step}
use aivirteach_server.Process.Drive.{drive, drive-Reaches}
use aivirteach_server.Learning.{empty_learning_state}
use aivirteach_server.Database.{
  Database, ProvisionTask, update_workspaces, update_provisions, delete_provisions,
  update_enrollments, create_provision, record_audit, broadcast,
}
use aivirteach_server.Database.Rows.{Workspace, Enrollment, LabId, initial, running}
use aivirteach_server.Workspace.{
  Task, LabsRequest, LabsReply, create_vm, delete_vm, stop_vm, start_vm, get_vm_state,
  create_browser_session, exchange_guacamole_token, ok, present, require_owned_enrollment,
  find_by_enrollment, find_by_id, audit, broadcast_status,
}
use aivirteach_server.Workspace.Transactions.{reserve, attach}
use aivirteach_server.Workspace.Provision.{wait_until, schedule_provision, provision_in_background}
use aivirteach_server.Workspace.Create.{create, create_workspace}
use aivirteach_server.Workspace.Invariant.{Inv, is_recorded}
use aivirteach_server.Workspace.Safety.{workspace_contract, IsFaithful, NamesVm}
use aivirteach_server.Workspace.System.{
  creates, handler, Starts, Moves, Runs, idle_config, Runs-Inv, Runs-keep_vm, Runs-name_vms,
}

abbrev enrolled : Enrollment
enrolled = record {
  id = 1;
  user_id = 7;
  course_id = 3;
  course_version_id = some 4;
  active = true;
  generation = 0;
  progress_revision = 0;
  learning_state = empty_learning_state;
  created_at = 0;
}

abbrev new_world : Database
new_world = record {
  now = 1000;
  next_id = 10;
  courses = [];
  enrollments = enrolled ∷ [];
  workspaces = [];
  provisions = [];
  snapshots = [];
  conversations = [];
  quota_ledger = [];
  activities = [];
  audit_events = [];
  background = [];
  broadcasts = [];
}

-- Labs that does what it is asked.
abbrev labs : (q : LabsRequest) → LabsReply q
labs (create_vm l) = ok (record { lab_id = l; username = "student"; rdp_port = 3389 })
labs (delete_vm l) = ok tt
labs (stop_vm l) = ok tt
labs (start_vm l) = ok tt
labs (get_vm_state l) = ok (present "running")
labs (create_browser_session l u) =
    ok (record { lab_id = l; state = "ready"; browser_data = none; expires_at = none })
labs (exchange_guacamole_token d) = ok (record { auth_token = "token"; websocket_url = "wss:" })

labs_honest : (q : LabsRequest) → IsFaithful q (labs q)
labs_honest (create_vm l) = refl
labs_honest (delete_vm l) = tt
labs_honest (stop_vm l) = tt
labs_honest (start_vm l) = tt
labs_honest (get_vm_state l) = tt
labs_honest (create_browser_session l u) = tt
labs_honest (exchange_guacamole_token d) = tt

new_world-Inv : Inv new_world
new_world-Inv = record { sound = tt; distinct = tt; fresh = tt; labs = tt; tasks = tt }

-- The learner asks for a workspace, and the request runs to its end.
requested : Database × Task (Unit {0})
unfolding drive handler create require_owned_enrollment find_by_enrollment create_workspace
    schedule_provision reserve wait_until attempt transaction query execute update_workspaces
    update_enrollments create_provision
requested = drive labs 20 new_world (handler (creates 7 1))

requested-Runs :
    Runs (idle_config new_world) (record { world = requested.0; running = requested.1 ∷ [] })
unfolding requested
requested-Runs =
    drive-Reaches labs workspace_contract Starts Moves labs_honest 20 new_world
      (handler (creates 7 1)) []
      (Reaches.next Reaches.here
        (Step.start (handler (creates 7 1)) (Starts.called (creates 7 1) refl) refl))

task : ProvisionTask
task = record { workspace_id = 10; user_id = 7; generation = 0; lab_id = initial 10 }

-- Then the VM is made in the background.
waiting-Runs :
    Runs
      (idle_config new_world)
      (record { world = requested.0; running = provision_in_background task ∷ requested.1 ∷ [] })
unfolding requested task
waiting-Runs =
    Reaches.next requested-Runs
      (Step.start (provision_in_background task) (Starts.scheduled task (Memᴰ.head refl) refl) refl)

provisioned : Database × Task (Unit {0})
unfolding requested task provision_in_background attach update_provisions delete_provisions send
    find_by_id audit broadcast_status record_audit broadcast
provisioned = drive labs 20 requested.0 (provision_in_background task)

provisioned-Runs :
    Runs
      (idle_config new_world)
      (record { world = provisioned.0; running = provisioned.1 ∷ requested.1 ∷ [] })
unfolding provisioned
provisioned-Runs =
    drive-Reaches labs workspace_contract Starts Moves labs_honest 20 requested.0
      (provision_in_background task) (requested.1 ∷ []) waiting-Runs

provisioned_row : Workspace
provisioned_row = record {
  id = 10;
  enrollment_id = 1;
  status = running;
  error_message = none;
  lab_id = some (initial 10);
  rdp_port = some 3389;
  rdp_username = some "student";
  last_seen_at = some 1000;
  provision_started_at = none;
  provision_generation = 0;
  reset_retry_at = none;
  created_at = 1000;
  updated_at = 1000;
}

provisioned_workspaces : provisioned.0.workspaces ≡ provisioned_row ∷ []
unfolding provisioned provisioned_row
provisioned_workspaces = refl

-- The record of the reservation is gone, so no sweep will delete the VM.
provisioned_records : provisioned.0.provisions ≡ []
unfolding provisioned
provisioned_records = refl

Runs-Inv_example : Inv provisioned.0
Runs-Inv_example = Runs-Inv new_world _ new_world-Inv provisioned-Runs

Runs-keep_vm_example :
    (l : LabId) × (provisioned_row.lab_id ≡ some l)
    × (is_recorded provisioned.0.provisions l ≡ false)
unfolding provisioned provisioned_row
Runs-keep_vm_example =
    Runs-keep_vm new_world _ provisioned_row new_world-Inv provisioned-Runs (Memᴰ.head refl) refl

Runs-name_vms_example : NamesVm (create_vm (initial 10))
unfolding task provision_in_background send attempt
Runs-name_vms_example =
    Runs-name_vms new_world _ [] (requested.1 ∷ []) (create_vm (initial 10)) _ new_world-Inv
      waiting-Runs refl
