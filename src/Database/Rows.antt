-- ===== src/Database/Rows.antt =====
-- The tables of apps/api/prisma/schema.prisma that the modelled services read and write. An id (a
-- cuid) is a number, a time stamp is in milliseconds, and a nullable column is an `Option`.
use aivirteach_server.Common.{ℕ, Bool, String, Option, List}
use aivirteach_server.Learning.{LearningState}
use aivirteach_server.Learning.View.{CourseModule}

pub data WorkspaceStatus : Type 0 where
  creating running stopped error resetting destroyed : WorkspaceStatus

-- The texts that name a VM in Labs: `id`, and `${id}-${generation}` for a later generation. `null_text`
-- is what a null id would be printed as.
pub data LabId : Type 0 where
  initial : ℕ → LabId
  numbered : ℕ → ℕ → LabId
  null_text : LabId

pub record Workspace : Type 0 where
  pub id : ℕ
  pub enrollment_id : ℕ
  pub status : WorkspaceStatus
  pub error_message : Option String
  pub lab_id : Option LabId
  pub rdp_port : Option ℕ
  pub rdp_username : Option String
  pub last_seen_at : Option ℕ
  pub provision_started_at : Option ℕ
  pub provision_generation : ℕ
  pub reset_retry_at : Option ℕ
  pub created_at : ℕ
  pub updated_at : ℕ

pub data ProvisionStatus : Type 0 where
  pending cleanup : ProvisionStatus

pub record WorkspaceProvision : Type 0 where
  pub lab_id : LabId
  pub workspace_id : ℕ
  pub generation : ℕ
  pub status : ProvisionStatus
  pub create_settled : Bool
  pub cleanup_at : ℕ

pub record CourseVersion : Type 0 where
  pub id : ℕ
  pub version : ℕ
  pub published_at : Option ℕ
  pub modules : List CourseModule

pub record Course : Type 0 where
  pub id : ℕ
  pub slug : String
  pub title : String
  pub description : String
  pub published : Bool
  pub versions : List CourseVersion

pub record Enrollment : Type 0 where
  pub id : ℕ
  pub user_id : ℕ
  pub course_id : ℕ
  pub course_version_id : Option ℕ
  pub active : Bool
  pub generation : ℕ
  pub progress_revision : ℕ
  pub learning_state : LearningState
  pub created_at : ℕ

pub data SnapshotReason : Type 0 where
  manual completed restart legacy_achievement : SnapshotReason

-- `${prefix}:${key}`: the texts that make a snapshot's creation idempotent
pub data IdempotencyKey : Type 0 where
  restart_key : String → IdempotencyKey
  manual_key : String → IdempotencyKey
  completed_key : ℕ → IdempotencyKey

pub record LearningSnapshot : Type 0 where
  pub id : ℕ
  pub enrollment_id : ℕ
  pub source_generation : ℕ
  pub source_revision : ℕ
  pub course_version_id : ℕ
  pub schema_version : ℕ
  pub state : LearningState
  pub reason : SnapshotReason
  pub idempotency_key : IdempotencyKey
  pub created_at : ℕ

pub data ConversationRole : Type 0 where
  user assistant : ConversationRole

pub record TokenUsage : Type 0 where
  pub input_cache_hit_tokens : ℕ
  pub input_cache_miss_tokens : ℕ
  pub output_tokens : ℕ

-- chat/agent-client.ts: what the agent is told about the course and the lesson
pub record CommonFailure : Type 0 where
  pub code : String
  pub symptoms : List String

pub record CourseContext : Type 0 where
  pub course_id : String
  pub version : ℕ
  pub title : String
  pub summary : String

pub record StepContext : Type 0 where
  pub module_id : ℕ
  pub lesson_id : String
  pub sequence : ℕ
  pub title : String
  pub instructions : List String
  pub expected_result : String
  pub success_criteria : List String
  pub common_failures : List CommonFailure

pub record DiagnoseContext : Type 0 where
  pub course : CourseContext
  pub current_step : StepContext

pub data DiagnoseStatus : Type 0 where
  completed partial : DiagnoseStatus

-- What the schema lets through. `details` is the rest of the answer, kept as the text of its JSON.
pub record DiagnoseResponse : Type 0 where
  pub request_id : String
  pub status : DiagnoseStatus
  pub answer : String
  pub details : String
  pub usage : Option TokenUsage

pub record Conversation : Type 0 where
  pub id : ℕ
  pub enrollment_id : ℕ
  pub thread_id : ℕ
  pub role : ConversationRole
  pub content : String
  pub request_id : Option String
  pub generation : Option ℕ
  pub course_version_id : Option ℕ
  pub lesson_content_id : Option String
  pub context_ref : Option DiagnoseResponse
  pub accepted_context : Option DiagnoseContext
  pub usage : Option TokenUsage
  pub created_at : ℕ

-- The ids that the code computes itself, `stale-agent-${enrollment}-${generation}-${request}`, and
-- generated ones.
pub data LedgerId : Type 0 where
  generated : ℕ → LedgerId
  stale_agent : ℕ → ℕ → String → LedgerId

-- A row of the ledger grants tokens or, with a negative delta, takes them.
pub record QuotaLedger : Type 0 where
  pub id : LedgerId
  pub user_id : ℕ
  pub tokens_granted : ℕ
  pub tokens_taken : ℕ

pub record Activity : Type 0 where
  pub user_id : ℕ
  pub enrollment_id : ℕ
  pub title : String

pub data AuditActor : Type 0 where
  user : Option ℕ → AuditActor
  operator : ℕ → AuditActor
  system : AuditActor

pub data Metadata : Type 0 where
  plain vm_missing : Metadata
  vm_state : String → Metadata

pub data StopReason : Type 0 where
  manual beacon idle : StopReason

pub record AuditEvent : Type 0 where
  pub actor : AuditActor
  pub action : String
  pub success : Bool
  pub target_id : ℕ
  pub reason : Option StopReason
  pub metadata : Metadata
