-- ===== src/Domain/Tickets/Ticket.antt =====
-- src/domain/tickets/ticket.ts: the Ticket. The four schemas of the union share a base, so a
-- Ticket here is the base's fields with one value for what its own schema adds.
use toaa.Base.{ℕ, Bool, true, false, List, Option, some, String}
use toaa.Domain.Objects.{ObjectId, ObjectEnvelope, Timestamp, Digest}
use toaa.Domain.Roles.{DomainRole, ExecutingRole, PendingReason}
use toaa.Domain.Tickets.Types.{
  TicketType, TicketState, TicketCommit, TicketSolution, TicketSource, TicketWorkspaceBinding,
  BugVerificationContract, BugVerificationRecord, BugFailure, WorkKind, BugKind, Severity,
  EnhancementKind, ChangeKind, ChangeRequestApplication, ContractDelta,
}

-- The `type` of a `WorkTicketSchema`.
pub data WorkType : Type 0 where
  epic story task : WorkType

-- What `WorkTicketSchema` adds.
pub record WorkDetail : Type 0 where
  pub work_type : WorkType
  pub work_kind : WorkKind
  pub verification_ticket_id : Option ObjectId
  pub paired_source_ticket_id : Option ObjectId

-- What `BugTicketSchema` adds.
pub record BugDetail : Type 0 where
  pub bug_kind : BugKind
  pub severity : Severity
  pub failure : BugFailure
  pub verification_contract : BugVerificationContract
  pub verification_records : List BugVerificationRecord
  pub enhancement_ticket_id : Option ObjectId
  pub change_request_ticket_ids : List ObjectId
  pub debug_wiki_candidate_entry_ids : List String
  pub debug_wiki_resolution_entry_ids : List String

-- What `EnhancementTicketSchema` adds.
pub record EnhancementDetail : Type 0 where
  pub enhancement_kind : EnhancementKind
  pub finding : String
  pub affected_artifacts : List String
  pub source_bug_ticket_id : Option ObjectId
  pub source_quality_assessment_id : Option ObjectId
  pub target_step_id : ObjectId
  pub verification_step_id : ObjectId
  pub change_request_ticket_ids : List ObjectId

-- What `ChangeRequestTicketSchema` adds.
pub record ChangeRequestDetail : Type 0 where
  pub change_kind : ChangeKind
  pub source_ticket_ids : List ObjectId
  pub parent_change_request_id : Option ObjectId
  pub trigger_step_id : ObjectId
  pub source_step_id : ObjectId
  pub target_step_id : ObjectId
  pub propagation_step_ids : List ObjectId
  pub origin_failures : List BugFailure
  pub contract_delta : ContractDelta
  pub implementation_plan : List String
  pub verification_gate : List String
  pub applications : List ChangeRequestApplication

pub data TicketDetail : Type 0 where
  work : WorkDetail → TicketDetail
  bug : BugDetail → TicketDetail
  enhancement : EnhancementDetail → TicketDetail
  change_request : ChangeRequestDetail → TicketDetail

-- `TicketSchema`, on `TicketBaseSchema`.
pub record Ticket : Type 0 where
  pub envelope : ObjectEnvelope
  pub open envelope use {id, name, project_id, revision}
  pub detail : TicketDetail
  pub phase_id : ObjectId
  pub step_id : Option ObjectId
  pub role : DomainRole
  pub agent : ExecutingRole
  pub creator_actor_id : ObjectId
  pub required_capabilities : List String
  pub priority : ℕ
  pub parent_ticket_id : Option ObjectId
  pub root_ticket_id : ObjectId
  pub description : String
  pub acceptance : List String
  pub checkpoint_ids : List ObjectId
  pub dependency_ticket_ids : List ObjectId
  pub blocked_by_ticket_ids : List ObjectId
  pub related_ticket_ids : List ObjectId
  pub duplicate_ticket_ids : List ObjectId
  pub duplicate_of_ticket_id : Option ObjectId
  pub log_ids : List ObjectId
  pub changelist_ids : List ObjectId
  pub assignment_ids : List ObjectId
  pub active_assignment_id : Option ObjectId
  pub trace_first_event_id : Option ObjectId
  pub trace_last_event_id : Option ObjectId
  pub trace_event_count : ℕ
  pub trace_chain_hash : Option Digest
  pub workspace_binding : Option TicketWorkspaceBinding
  pub workspace_binding_history : List TicketWorkspaceBinding
  pub baseline_revision : Option ℕ
  pub commits : List TicketCommit
  pub attempts : ℕ
  pub max_attempts : ℕ
  pub state : TicketState
  pub pending_reason : Option PendingReason
  pub source : TicketSource
  pub submitted_at : Timestamp
  pub registered_at : Option Timestamp
  pub solution : Option TicketSolution
  pub resolved_at : Option Timestamp
  pub closed_at : Option Timestamp
  pub cancelled_at : Option Timestamp

abbrev pub work_ticket_type : WorkType → TicketType
work_ticket_type epic = TicketType.epic
work_ticket_type story = TicketType.story
work_ticket_type task = TicketType.task

abbrev pub detail_type : TicketDetail → TicketType
detail_type (work d) = work_ticket_type d.work_type
detail_type (bug d) = TicketType.bug
detail_type (enhancement d) = TicketType.enhancement
detail_type (change_request d) = TicketType.change_request

-- `ticket.type`
abbrev pub ticket_type : Ticket → TicketType
ticket_type t = detail_type t.detail

-- `isCorrectiveTicket`, by `CORRECTIVE_TICKET_TYPES`.
unfoldable pub is_corrective_ticket : TicketType → Bool
is_corrective_ticket TicketType.bug = true
is_corrective_ticket TicketType.enhancement = true
is_corrective_ticket TicketType.change_request = true
is_corrective_ticket _ = false

-- `workStepId`: the Step where the Ticket's work is performed.
unfoldable pub work_step : TicketDetail → Option ObjectId → Option ObjectId
work_step (bug d) step = some d.failure.target_step_id
work_step (enhancement d) step = some d.target_step_id
work_step _ step = step

abbrev pub work_step_id : Ticket → Option ObjectId
work_step_id t = work_step t.detail t.step_id
