-- ===== src/Workspace.antt =====
-- workspace/workspace.service.ts: the life of a learner's VM. The service's methods are in the
-- children, as processes that commit statement by statement; here is what they share.
pub mod Transactions
pub mod Provision
pub mod Reset
pub mod Create
pub mod Power
pub mod Console
pub mod Invariant
pub mod Safety
pub mod System
mod Tests
use aivirteach_server.Common.{
  ℕ, ◌+◌, ◌*◌, Bool, true, false, String, Option, none, some, if◌then◌else◌, ◌==◌, ltb, ◌&&◌,
  or_default, find_first,
}
use aivirteach_server.Process.{
  Process, pure, fail, ◌>>=◌, query, execute, HttpError, not_found, forbidden,
}
use aivirteach_server.Database.{Database, record_audit, broadcast, is_status}
use aivirteach_server.Database.Rows.{
  Workspace, WorkspaceStatus, creating, LabId, initial, numbered, null_text, Enrollment, AuditActor,
  AuditEvent, Metadata, StopReason, plain,
}

-- A call of Labs: its result, or the message of the error that the client threw.
pub data LabsResult (A : Type 0) : Type 0 where
  ok : A → LabsResult A
  failed : String → LabsResult A

pub data VmState : Type 0 where
  present : String → VmState
  missing : VmState

pub record CreateVmResult : Type 0 where
  pub lab_id : LabId
  pub username : String
  pub rdp_port : ℕ

pub record BrowserSession : Type 0 where
  pub lab_id : LabId
  pub state : String
  pub browser_data : Option String
  pub expires_at : Option String

pub record GuacamoleToken : Type 0 where
  pub auth_token : String
  pub websocket_url : String

-- workspace/labs-client.ts: the calls, and what each returns
pub data LabsRequest : Type 0 where
  create_vm delete_vm stop_vm start_vm get_vm_state : LabId → LabsRequest
  create_browser_session : LabId → ℕ → LabsRequest
  exchange_guacamole_token : String → LabsRequest

abbrev pub LabsReply : LabsRequest → Type 0
LabsReply (create_vm l) = LabsResult CreateVmResult
LabsReply (get_vm_state l) = LabsResult VmState
LabsReply (create_browser_session l u) = LabsResult BrowserSession
LabsReply (exchange_guacamole_token d) = LabsResult GuacamoleToken
LabsReply _ = LabsResult (Unit {0})

abbrev pub Task : Type 0 → Type 0
Task A = Process Database LabsRequest LabsReply A

abbrev pub stale_creating_ms : ℕ
stale_creating_ms = 5 * 60 * 1000

abbrev pub create_vm_settle_ms : ℕ
create_vm_settle_ms = 210000

abbrev pub reset_retry_ms : ℕ
reset_retry_ms = 60000

abbrev pub unknown_create_recheck_ms : ℕ
unknown_create_recheck_ms = 60 * 60 * 1000

-- `generation === 0 ? workspace.id : `${workspace.id}-${generation}``
abbrev pub lab_id_of : ℕ → ℕ → LabId
lab_id_of id generation = if generation == 0 then initial id else numbered id generation

-- `workspace.labId!`, which nothing checks when the program runs
abbrev pub asserted_lab_id : Workspace → LabId
asserted_lab_id w = or_default w.lab_id null_text

-- `Date.now() - (provisionStartedAt ?? createdAt) > STALE_CREATING_MS`
abbrev pub is_stale : ℕ → Workspace → Bool
is_stale now w = ltb (or_default w.provision_started_at w.created_at + stale_creating_ms) now

abbrev pub owned_by : ℕ → Option Enrollment → Task Enrollment
owned_by user_id none = fail forbidden
owned_by user_id (some e) = if e.user_id == user_id then pure e else fail forbidden

unfoldable pub require_owned_enrollment : ℕ → ℕ → Task Enrollment
require_owned_enrollment user_id enrollment_id =
    query (λ w. find_first (λ (e : Enrollment). e.id == enrollment_id) w.enrollments)
    >>= owned_by user_id

unfoldable pub find_by_enrollment : ℕ → Task (Option Workspace)
find_by_enrollment enrollment_id =
    query (λ w. find_first (λ (r : Workspace). r.enrollment_id == enrollment_id) w.workspaces)

unfoldable pub find_by_id : ℕ → Task (Option Workspace)
find_by_id id = query (λ w. find_first (λ (r : Workspace). r.id == id) w.workspaces)

-- `if (!workspace) throw new ...`
abbrev pub or_throw : HttpError → Option Workspace → Task Workspace
or_throw e none = fail e
or_throw e (some r) = pure r

abbrev pub by_user : ℕ → AuditActor
by_user user_id = AuditActor.user (some user_id)

unfoldable pub audit :
    AuditActor → String → Bool → ℕ → Option StopReason → Metadata → Task (Unit {0})
audit actor action success target reason metadata = execute (
    record_audit (record {
      actor = actor;
      action = action;
      success = success;
      target_id = target;
      reason = reason;
      metadata = metadata;
    }))

unfoldable pub broadcast_status : Workspace → Task (Unit {0})
broadcast_status r = execute (broadcast r)

-- `where: { id, status, provisionGeneration }`
abbrev pub is_creating_at : ℕ → ℕ → Workspace → Bool
is_creating_at id generation r =
    r.id == id && is_status creating r && r.provision_generation == generation

-- `where: { id, status }`
abbrev pub is_at : ℕ → WorkspaceStatus → Workspace → Bool
is_at id s r = r.id == id && is_status s r
