-- ===== src/Application/TicketMoves.antt =====
-- src/application/project_management/ticket_lifecycle_service.ts: what a move of a Ticket records.
use Prim.Native.String.{◌++◌ as join}
use toaa.Base.{
  ℕ, ◌+◌, Bool, true, false, ◌&&◌, List, [], ◌∷◌, ◌++◌, Option, none, some, String, String-discrete,
  is_some, or_else, or_option, same, if◌then◌else◌,
}
use toaa.Domain.Objects.{ObjectId, ObjectType, Timestamp}
use toaa.Domain.Roles.{PendingReason}
use toaa.Domain.Observability.{transition_payload, DomainEvent, create_domain_event}
use toaa.Domain.Tickets.Types.{TicketState}
use toaa.Domain.Tickets.Ticket.{Ticket, ticket_type}
use toaa.Domain.ProjectManagement.Assignment.{AssignmentState, TicketAssignment}
use toaa.Domain.ProjectManagement.Actor.{ActorRegistration}
use toaa.Domain.ProjectManagement.Trace.{TicketTraceEventType}
use toaa.Application.TicketTrace.{TicketTraceAppendInput, Draw}

-- `TicketTransitionInput`
pub record TicketTransitionInput : Type 0 where
  pub initiator_actor_id : Option ObjectId
  pub pending_reason : Option PendingReason
  pub reason_code : Option String
  pub reason : Option String
  pub evidence_refs : Option (List String)
  pub before_trace : List TicketTraceAppendInput

-- `assignment?.state === 'accepted'`
abbrev pub is_accepted : AssignmentState → Bool
is_accepted AssignmentState.accepted = true
is_accepted _ = false

abbrev pub has_accepted : Option TicketAssignment → Bool
has_accepted none = false
has_accepted (some a) = is_accepted a.state

-- `assignmentStateForTicket` for an accepted assignment.
unfoldable pub end_of_assignment : TicketState → Option AssignmentState
end_of_assignment TicketState.closed = some AssignmentState.completed
end_of_assignment TicketState.cancelled = some AssignmentState.cancelled
end_of_assignment _ = none

-- `assignmentStateForTicket`
unfoldable pub assignment_state_for_ticket :
    TicketState → Option TicketAssignment → Option AssignmentState
unfolding end_of_assignment
assignment_state_for_ticket next assignment =
    if has_accepted assignment then end_of_assignment next else none

-- `traceEventForTransition` into `in_progress`.
abbrev pub start_event : TicketState → TicketTraceEventType
start_event TicketState.pending = TicketTraceEventType.resumed
start_event TicketState.reopened = TicketTraceEventType.resumed
start_event _ = TicketTraceEventType.started

-- `traceEventForTransition`
unfoldable pub trace_event_for_transition : TicketState → TicketState → TicketTraceEventType
trace_event_for_transition from TicketState.in_progress = start_event from
trace_event_for_transition from TicketState.pending = TicketTraceEventType.pending
trace_event_for_transition from TicketState.resolved = TicketTraceEventType.resolved
trace_event_for_transition from TicketState.closed = TicketTraceEventType.closed
trace_event_for_transition from TicketState.reopened = TicketTraceEventType.reopened
trace_event_for_transition from TicketState.cancelled = TicketTraceEventType.cancelled
trace_event_for_transition from TicketState.created = TicketTraceEventType.correction

-- The text of a state in a template.
abbrev pub state_text : TicketState → String
state_text TicketState.created = "created"
state_text TicketState.in_progress = "in_progress"
state_text TicketState.pending = "pending"
state_text TicketState.resolved = "resolved"
state_text TicketState.reopened = "reopened"
state_text TicketState.cancelled = "cancelled"
state_text TicketState.closed = "closed"

-- `${ticket.name} …` and `ticket.${from}_to_${to}`
abbrev pub transition_reason : String → TicketState → TicketState → String
transition_reason name from to = join "Ticket " (
    join name (
      join " transitioned from " (join (state_text from) (join " to " (join (state_text to) ".")))))

abbrev pub transition_code : TicketState → TicketState → String
transition_code from to = join "ticket." (join (state_text from) (join "_to_" (state_text to)))

abbrev pub assignment_id_of : Option TicketAssignment → Option ObjectId
assignment_id_of none = none
assignment_id_of (some a) = some a.id

abbrev pub assignee_of : Option TicketAssignment → Option ObjectId
assignee_of none = none
assignee_of (some a) = some a.assignee_actor_id

abbrev pub state_of : Option TicketAssignment → Option AssignmentState
state_of none = none
state_of (some a) = some a.state

-- `text ? text : fallback`, where the empty text counts as none.
unfoldable pub or_text : Option String → String → String
or_text none fallback = fallback
or_text (some text) fallback = if same String-discrete text "" then fallback else text

-- What the traces of a path share.
pub record Move : Type 0 where
  pub ticket : Ticket
  pub initiator : ActorRegistration
  pub assignment : Option TicketAssignment
  pub assignment_next : Option AssignmentState
  pub input : TicketTransitionInput
  pub now : Timestamp

-- The trace of one state of the path; `is_final` for the last.
unfoldable pub transition_trace : Move → Bool → TicketState → TicketState → TicketTraceAppendInput
unfolding trace_event_for_transition or_text
transition_trace m is_final from to = record {
  event_type = trace_event_for_transition from to;
  initiator_actor_id = m.initiator.id;
  initiator_role = m.initiator.role;
  assignment_id = assignment_id_of m.assignment;
  from_owner_actor_id = assignee_of m.assignment;
  to_owner_actor_id =
      if is_final && is_some m.assignment_next then none else assignee_of m.assignment;
  from_ticket_state = some from;
  to_ticket_state = some to;
  from_assignment_state = state_of m.assignment;
  to_assignment_state = if is_final then m.assignment_next else none;
  reason_code =
      if is_final
      then or_text m.input.reason_code (transition_code from to)
      else transition_code from to;
  reason =
      if is_final
      then or_text m.input.reason (transition_reason m.ticket.name from to)
      else transition_reason m.ticket.name from to;
  evidence_refs = m.input.evidence_refs;
  correlation_id = m.ticket.source.correlation_id;
  causation_id = some m.ticket.id;
  correction_of_event_id = none;
  occurred_at = some m.now;
}

-- `path.map`, with its variable `fromState`.
unfoldable pub transition_traces :
    Move → TicketState → List TicketState → List TicketTraceAppendInput
unfolding transition_trace
transition_traces m from [] = []
transition_traces m from (to ∷ []) = transition_trace m true from to ∷ []
transition_traces m from (to ∷ next ∷ path) =
    transition_trace m false from to ∷ transition_traces m to (next ∷ path)

-- What is drawn from outside for each input, from a number on.
abbrev pub with_draws :
    (ℕ → Draw) → ℕ → List TicketTraceAppendInput → List (Draw × TicketTraceAppendInput)
with_draws draw n [] = []
with_draws draw n (input ∷ inputs) = (draw n, input) ∷ with_draws draw (n + 1) inputs

-- What the builder is given: the traces of the caller, then those of the path.
abbrev pub trace_inputs :
    (ℕ → Draw) → Move → List TicketState → List (Draw × TicketTraceAppendInput)
trace_inputs draw m path =
    with_draws draw 0 (m.input.before_trace ++ transition_traces m m.ticket.state path)

-- What is moved, once its parts are read.
unfoldable pub move_of :
    Timestamp
    → Ticket
    → Option TicketAssignment
    → ActorRegistration
    → TicketState
    → TicketTransitionInput
    → Move
unfolding assignment_state_for_ticket
move_of now t assignment initiator final input = record {
  ticket = t;
  initiator = initiator;
  assignment = assignment;
  assignment_next = assignment_state_for_ticket final assignment;
  input = input;
  now = now;
}

-- `updatedTicket`
unfoldable pub updated_ticket : Ticket → Ticket → Option AssignmentState → Ticket
updated_ticket transitioned traced assignment_next = record transitioned {
  trace_first_event_id = traced.trace_first_event_id;
  trace_last_event_id = traced.trace_last_event_id;
  trace_event_count = traced.trace_event_count;
  trace_chain_hash = traced.trace_chain_hash;
  active_assignment_id =
      if is_some assignment_next then none else transitioned.active_assignment_id;
}

-- The event that announces a move.
unfoldable pub transition_event :
    ObjectId → Move → TicketState → List TicketState → Ticket → DomainEvent
unfolding create_domain_event
transition_event id m final path updated =
    create_domain_event id
      (record {
        project_id = m.ticket.project_id;
        aggregate = record { id = m.ticket.id; object_type = ObjectType.ticket };
        event_type = join "ticket." (state_text final);
        payload =
            transition_payload (ticket_type m.ticket) m.ticket.state final path
              (assignee_of m.assignment) m.input.reason_code;
        phase_id = some m.ticket.phase_id;
        step_id = m.ticket.step_id;
        ticket_id = some m.ticket.id;
        correlation_id = m.ticket.source.correlation_id;
        causation_id = some m.ticket.id;
        object_revision = some updated.revision;
      })
      m.now

-- `input.initiatorActorId ?? assignment?.assigneeActorId ?? ticket.creatorActorId`
abbrev pub initiator_id : Ticket → Option TicketAssignment → TicketTransitionInput → ObjectId
initiator_id t assignment input =
    or_else (or_option input.initiator_actor_id (assignee_of assignment)) t.creator_actor_id
