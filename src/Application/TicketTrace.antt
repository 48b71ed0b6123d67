-- ===== src/Application/TicketTrace.antt =====
-- src/application/project_management/ticket_trace_service.ts: how a Ticket's trace grows.
pub mod Growth
use Prim.Native.String.{◌++◌ as join}
use toaa.Base.{
  ℕ, ◌+◌, Bool, true, false, List, [], ◌∷◌, ◌++◌, Option, none, some, String, Result, ok, ◌>>◌,
  ◌==◌, or_else, or_option, keep, last?, length, ltb, sort,
}
use toaa.Base.Decimal.{padded}
use toaa.Domain.Objects.{
  ObjectId, ObjectEnvelope, Timestamp, Digest, ticket_trace_event, fresh_envelope,
  revise_object_envelope,
}
use toaa.Domain.Roles.{DomainRole}
use toaa.Domain.Tickets.Types.{TicketState}
use toaa.Domain.Tickets.Ticket.{Ticket}
use toaa.Domain.ProjectManagement.Assignment.{AssignmentState}
use toaa.Domain.ProjectManagement.Trace.{
  TicketTraceEventType, TraceHashInput, TicketTraceEvent, TraceError, next_sequence, event_id,
  chain_hash, verify_ticket_trace,
}

-- `TicketTraceAppendInput`
pub record TicketTraceAppendInput : Type 0 where
  pub event_type : TicketTraceEventType
  pub initiator_actor_id : ObjectId
  pub initiator_role : DomainRole
  pub assignment_id : Option ObjectId
  pub from_owner_actor_id : Option ObjectId
  pub to_owner_actor_id : Option ObjectId
  pub from_ticket_state : Option TicketState
  pub to_ticket_state : Option TicketState
  pub from_assignment_state : Option AssignmentState
  pub to_assignment_state : Option AssignmentState
  pub reason_code : String
  pub reason : String
  pub evidence_refs : Option (List String)
  pub correlation_id : ObjectId
  pub causation_id : Option ObjectId
  pub correction_of_event_id : Option ObjectId
  pub occurred_at : Option Timestamp

-- What the loop draws from outside for one event: a fresh id and the time.
pub record Draw : Type 0 where
  pub fresh_id : ObjectId
  pub clock : Timestamp

-- `${ticket.name}-TRACE-${…}`
unfoldable pub trace_name : String → ℕ → String
unfolding padded
trace_name name sequence = join name (join "-TRACE-" (padded sequence))

-- `hashInput` of one round of the loop of `build`.
unfoldable pub hash_input :
    Ticket → Option TicketTraceEvent → Draw → TicketTraceAppendInput → TraceHashInput
hash_input t previous draw input = record {
  envelope =
      fresh_envelope draw.fresh_id (trace_name t.name (next_sequence previous)) ticket_trace_event
        t.project_id none (or_else input.occurred_at draw.clock);
  ticket_id = t.id;
  phase_id = t.phase_id;
  step_id = t.step_id;
  assignment_id = input.assignment_id;
  sequence = next_sequence previous;
  event_type = input.event_type;
  initiator_actor_id = input.initiator_actor_id;
  initiator_role = input.initiator_role;
  from_owner_actor_id = input.from_owner_actor_id;
  to_owner_actor_id = input.to_owner_actor_id;
  from_ticket_state = input.from_ticket_state;
  to_ticket_state = input.to_ticket_state;
  from_assignment_state = input.from_assignment_state;
  to_assignment_state = input.to_assignment_state;
  reason_code = input.reason_code;
  reason = input.reason;
  evidence_refs = or_else input.evidence_refs [];
  correlation_id = input.correlation_id;
  causation_id = input.causation_id;
  correction_of_event_id = input.correction_of_event_id;
  previous_event_id = event_id previous;
  previous_event_hash = chain_hash previous;
  occurred_at = or_else input.occurred_at draw.clock;
}

-- `BuiltTicketTrace`
pub record BuiltTicketTrace : Type 0 where
  pub ticket : Ticket
  pub events : List TicketTraceEvent

abbrev pub first? : List TicketTraceEvent → Option TicketTraceEvent
first? [] = none
first? (event ∷ events) = some event

module _ (hash : TraceHashInput → Digest) where
  abbrev pub seal : TraceHashInput → TicketTraceEvent
  seal body = record { body = body; event_hash = hash body }

  -- The loop of `build`, with its variable `previous`.
  unfoldable pub build_events :
      Ticket
      → Option TicketTraceEvent
      → List (Draw × TicketTraceAppendInput)
      → List TicketTraceEvent
  build_events t previous [] = []
  build_events t previous ((draw, input) ∷ inputs) =
      let event = seal (hash_input t previous draw input) in
      event ∷ build_events t (some event) inputs

  -- The Ticket with the summary of its trace.
  unfoldable pub summarize :
      Ticket → List TicketTraceEvent → List TicketTraceEvent → Timestamp → Ticket
  summarize t existing events now = record t {
    envelope = revise_object_envelope t.envelope none now;
    trace_first_event_id = event_id (or_option (first? existing) (first? events));
    trace_last_event_id = event_id (last? events);
    trace_event_count = length existing + length events;
    trace_chain_hash = chain_hash (last? events);
  }

  -- `build`, on the trace that `list` has read. With no input nothing changes.
  unfoldable pub build :
      Ticket
      → List TicketTraceEvent
      → List (Draw × TicketTraceAppendInput)
      → Timestamp
      → BuiltTicketTrace
  build t existing [] now = record { ticket = t; events = [] }
  build t existing (input ∷ inputs) now =
      let events = build_events t (last? existing) (input ∷ inputs) in
      record { ticket = summarize t existing events now; events = events }

  -- `list`: the events of one Ticket in the order of their numbers, verified.
  unfoldable pub list_trace :
      ObjectId → List TicketTraceEvent → Result TraceError (List TicketTraceEvent)
  list_trace ticket_id objects = do
    let events =
        sort (λ a b. ltb a.sequence b.sequence) (keep (λ e. e.ticket_id == ticket_id) objects)
    verify_ticket_trace hash events
    ok events
