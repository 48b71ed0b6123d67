-- ===== src/Domain/Tickets/Types.antt =====
-- src/domain/tickets/ticket.ts and failure_identity.ts: the parts that a Ticket is made of.
use toaa.Base.{ℕ, ℤ, Bool, List, Option, String}
use toaa.Domain.Objects.{ObjectId, Timestamp, Digest}
use toaa.Domain.Steps.{StepType}

-- `TICKET_TYPES`
pub data TicketType : Type 0 where
  epic story task bug enhancement change_request : TicketType

-- `TICKET_STATES`
pub data TicketState : Type 0 where
  created in_progress pending resolved reopened cancelled closed : TicketState

-- `TICKET_COMMIT_KINDS`
pub data TicketCommitKind : Type 0 where
  baseline attempt verified : TicketCommitKind

-- `TicketCommitSchema`. A Git revision is a commit sha, a number written in hexadecimal.
pub record TicketCommit : Type 0 where
  pub revision : ℕ
  pub kind : TicketCommitKind
  pub attempt : ℕ
  pub step_id : ObjectId
  pub summary : String
  pub recorded_at : Timestamp

pub data SolutionStatus : Type 0 where
  proposed applied verified rejected : SolutionStatus

-- `TicketSolutionSchema`
pub record TicketSolution : Type 0 where
  pub status : SolutionStatus
  pub approach : String
  pub rationale : String
  pub changes : List String
  pub verification : List String
  pub rejected_reason : Option String
  pub updated_at : Timestamp

pub data TicketSourceKind : Type 0 where
  plan runtime quality_gate pm_intake : TicketSourceKind

-- `TicketSourceSchema`
pub record TicketSource : Type 0 where
  pub kind : TicketSourceKind
  pub correlation_id : ObjectId
  pub causation_id : Option ObjectId
  pub external_id : Option String

-- `WORKSPACE_KINDS`
pub data WorkspaceKind : Type 0 where
  canonical ticket gate : WorkspaceKind

-- `TICKET_WORKSPACE_BINDING_REASONS`
pub data BindingReason : Type 0 where
  initial inherited change_set merge_gate recovered : BindingReason

-- `TicketWorkspaceBindingSchema`
pub record TicketWorkspaceBinding : Type 0 where
  pub kind : WorkspaceKind
  pub relative_path : String
  pub branch : String
  pub revision : ℕ
  pub workspace_id : Option ObjectId
  pub change_set_id : Option ObjectId
  pub merge_gate_run_id : Option ObjectId
  pub reason : BindingReason
  pub bound_at : Timestamp

-- `FAILURE_CATEGORIES`
pub data FailureCategory : Type 0 where
  llm_provider tool test quality contract internal : FailureCategory

-- `FailureIdentitySchema`
pub record FailureIdentity : Type 0 where
  pub category : FailureCategory
  pub code : String
  pub failed_step_id : ObjectId
  pub target_step_id : ObjectId
  pub verification_step_id : ObjectId
  pub operation : Option String
  pub test_selectors : List String
  pub artifact_targets : List String
  pub exit_code : Option ℤ
  pub status_code : Option ℤ

pub data VerificationKind : Type 0 where
  test_gate quality_gate operation : VerificationKind

-- `BugVerificationContractSchema`
pub record BugVerificationContract : Type 0 where
  pub kind : VerificationKind
  pub verification_step_id : ObjectId
  pub verification_step_type : StepType
  pub operation : Option String
  pub test_selectors : List String
  pub artifact_targets : List String

-- `BugVerificationRecordSchema`
pub record BugVerificationRecord : Type 0 where
  pub failure_identity_key : Digest
  pub verification_step_id : ObjectId
  pub verification_step_type : StepType
  pub quality_assessment_id : ObjectId
  pub executed_test_selectors : List String
  pub recorded_at : Timestamp

-- `BugFailureSchema`; `details` is opaque evidence, kept as its text.
pub record BugFailure : Type 0 where
  pub category : FailureCategory
  pub code : String
  pub message : String
  pub summary : String
  pub retryable : Bool
  pub switch_provider : Bool
  pub details : Option String
  pub raw_evidence_ref : Option String
  pub failed_step_id : ObjectId
  pub failed_step_type : StepType
  pub target_step_id : ObjectId
  pub target_step_type : StepType
  pub verification_step_id : ObjectId
  pub verification_step_type : StepType
  pub tool : Option String
  pub exit_code : Option ℤ
  pub status_code : Option ℤ
  pub identity : FailureIdentity

-- `WorkTicketSchema`'s `workKind`
pub data WorkKind : Type 0 where
  phase v_model_step planned_work delivery : WorkKind

pub data BugKind : Type 0 where
  stage_execution test_failure quality_gate delivery_gate infrastructure exception : BugKind

pub data Severity : Type 0 where
  low medium high critical : Severity

pub data EnhancementKind : Type 0 where
  functional_gap test_incomplete quality_shortfall : EnhancementKind

pub data ChangeKind : Type 0 where
  corrective dependency contract_change : ChangeKind

pub data ApplicationOutcome : Type 0 where
  applied not_applicable : ApplicationOutcome

pub data ApplicationReason : Type 0 where
  contract_applied already_aligned outside_step_scope downstream_owned : ApplicationReason
  diagnosis_contradicted : ApplicationReason

-- `ChangeRequestApplicationDecisionSchema`, extended as `applications` extends it.
pub record ChangeRequestApplication : Type 0 where
  pub outcome : ApplicationOutcome
  pub reason_category : Option ApplicationReason
  pub rationale : Option String
  pub inspected_artifacts : List String
  pub evidence : List String
  pub step_id : ObjectId
  pub changelist_id : ObjectId
  pub verification_assessment_id : Option ObjectId
  pub applied_at : Timestamp

pub record ContractDelta : Type 0 where
  pub summary : String
  pub before : List String
  pub after : List String
  pub affected_artifacts : List String
