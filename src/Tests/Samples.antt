-- ===== src/Tests/Samples.antt =====
-- Objects to test on: a project with one Phase, one Step, its Story and two Bugs.
use toaa.Base.{false, [], ◌∷◌, none, some}
use toaa.Domain.Objects.{ObjectId, ObjectType, ObjectEnvelope}
use toaa.Domain.Roles.{DomainRole, ExecutingRole, PendingReason}
use toaa.Domain.Tickets.Types.{
  TicketState, TicketSolution, SolutionStatus, TicketSourceKind, FailureCategory, FailureIdentity,
  VerificationKind, WorkKind, BugKind, Severity,
}
use toaa.Domain.Tickets.Ticket.{Ticket, TicketDetail, work, bug, WorkType, BugDetail}
use toaa.Domain.Steps.{Step, StepType, StepState}
use toaa.Domain.Phases.{Phase, PhaseState}
use toaa.Domain.Projects.{Project, ProjectState, Language, Intent, ProjectType}

abbrev pub envelope_of : ObjectId → ObjectType → ObjectEnvelope
envelope_of id type = record {
  id = id;
  name = "OBJ";
  object_type = type;
  project_id = 1;
  schema_version = 1;
  revision = 4;
  created_at = "t0";
  updated_at = "t1";
}

abbrev pub shop : Project
shop = record {
  envelope = envelope_of 1 ObjectType.project;
  topic = record { text = "a shop"; source_ref = none; digest = 0 };
  state = ProjectState.in_progress;
  pending_reason = none;
  language = Language.typescript;
  intent = Intent.greenfield;
  project_type = ProjectType.application;
  project_plan_id = 90;
  management_plan_id = 91;
  pm_actor_id = 92;
  phase_ids = 2 ∷ [];
  current_phase_id = some 2;
  kpi_ids = [];
  quality_assessment_id = none;
  deliverable_ids = [];
  checkpoint_ids = [];
  report_ids = [];
  audit_event_ids = [];
}

abbrev pub first_phase : Phase
first_phase = record {
  envelope = envelope_of 2 ObjectType.phase;
  objective = "sell";
  description = "the first release";
  state = PhaseState.in_progress;
  pending_reason = none;
  priority = 1;
  dependency_phase_ids = [];
  step_ids = 3 ∷ [];
  epic_ticket_id = 93;
  plan_id = 90;
  kpi_ids = [];
  deliverable_ids = [];
  checkpoint_ids = [];
  report_ids = [];
  scope = [];
  verification_gate = "tests pass" ∷ [];
}

abbrev pub code_step : Step
code_step = record {
  envelope = envelope_of 3 ObjectType.step;
  phase_id = 2;
  type = StepType.code;
  title = "code";
  description = "write it";
  role = DomainRole.developer;
  agent = ExecutingRole.coder;
  state = StepState.pending;
  pending_reason = some PendingReason.defect;
  dependency_step_ids = [];
  paired_step_id = none;
  inputs = [];
  outputs = [];
  acceptance = "it runs" ∷ [];
  deliverable_ids = [];
  checkpoint_ids = [];
  report_ids = [];
  tools = [];
  attempts = 0;
  max_attempts = 3;
}

-- A Ticket at a state, with a detail and everything else at rest.
abbrev pub ticket_of : ObjectId → TicketDetail → TicketState → Ticket
ticket_of id detail state = record {
  envelope = envelope_of id ObjectType.ticket;
  detail = detail;
  phase_id = 2;
  step_id = some 3;
  role = DomainRole.developer;
  agent = ExecutingRole.coder;
  creator_actor_id = 92;
  required_capabilities = [];
  priority = 10;
  parent_ticket_id = none;
  root_ticket_id = 93;
  description = "work";
  acceptance = [];
  checkpoint_ids = [];
  dependency_ticket_ids = [];
  blocked_by_ticket_ids = [];
  related_ticket_ids = [];
  duplicate_ticket_ids = [];
  duplicate_of_ticket_id = none;
  log_ids = [];
  changelist_ids = [];
  assignment_ids = 70 ∷ [];
  active_assignment_id = some 70;
  trace_first_event_id = none;
  trace_last_event_id = none;
  trace_event_count = 0;
  trace_chain_hash = none;
  workspace_binding = none;
  workspace_binding_history = [];
  baseline_revision = none;
  commits = [];
  attempts = 0;
  max_attempts = 3;
  state = state;
  pending_reason = none;
  source = record {
    kind = TicketSourceKind.runtime;
    correlation_id = 80;
    causation_id = none;
    external_id = none;
  };
  submitted_at = "t0";
  registered_at = none;
  solution = none;
  resolved_at = none;
  closed_at = none;
  cancelled_at = none;
}

abbrev pub story_detail : TicketDetail
story_detail = work (record {
  work_type = WorkType.story;
  work_kind = WorkKind.v_model_step;
  verification_ticket_id = none;
  paired_source_ticket_id = none;
})

abbrev sample_identity : FailureIdentity
sample_identity = record {
  category = FailureCategory.test;
  code = "E_TEST";
  failed_step_id = 4;
  target_step_id = 3;
  verification_step_id = 4;
  operation = none;
  test_selectors = "cart" ∷ [];
  artifact_targets = [];
  exit_code = none;
  status_code = none;
}

abbrev pub sample_bug : BugDetail
sample_bug = record {
  bug_kind = BugKind.test_failure;
  severity = Severity.high;
  failure = record {
    category = FailureCategory.test;
    code = "E_TEST";
    message = "red";
    summary = "a test is red";
    retryable = false;
    switch_provider = false;
    details = none;
    raw_evidence_ref = none;
    failed_step_id = 4;
    failed_step_type = StepType.unit_test;
    target_step_id = 3;
    target_step_type = StepType.code;
    verification_step_id = 4;
    verification_step_type = StepType.unit_test;
    tool = none;
    exit_code = none;
    status_code = none;
    identity = sample_identity;
  };
  verification_contract = record {
    kind = VerificationKind.test_gate;
    verification_step_id = 4;
    verification_step_type = StepType.unit_test;
    operation = none;
    test_selectors = "cart" ∷ [];
    artifact_targets = [];
  };
  verification_records = [];
  enhancement_ticket_id = none;
  change_request_ticket_ids = [];
  debug_wiki_candidate_entry_ids = [];
  debug_wiki_resolution_entry_ids = [];
}

abbrev pub bug_detail : TicketDetail
bug_detail = bug sample_bug

abbrev pub solved : TicketSolution
solved = record {
  status = SolutionStatus.applied;
  approach = "fix the sum";
  rationale = "it was off by one";
  changes = [];
  verification = [];
  rejected_reason = none;
  updated_at = "t1";
}

abbrev pub code_story : Ticket
code_story = ticket_of 10 story_detail TicketState.pending

abbrev pub new_bug : Ticket
new_bug = ticket_of 11 bug_detail TicketState.created

abbrev pub urgent_bug : Ticket
urgent_bug = record (ticket_of 12 bug_detail TicketState.created) { priority = 99 }
