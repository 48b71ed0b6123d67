-- ===== src/Domain/ProjectManagement/Trace.antt =====
-- src/domain/project_management/ticket_trace.ts: the hash-chained history of a Ticket.
pub mod Chain
use toaa.Base.{
  ℕ, ◌+◌, Bool, true, false, not, ◌&&◌, List, [], ◌∷◌, Option, none, some, String, Result, ok, ◌>>◌,
  require, ◌==◌, same_option, or_else,
}
use toaa.Domain.Objects.{ObjectId, ObjectEnvelope, Timestamp, Digest}
use toaa.Domain.Roles.{DomainRole}
use toaa.Domain.Tickets.Types.{TicketState}
use toaa.Domain.ProjectManagement.Assignment.{AssignmentState}

-- `TICKET_TRACE_EVENT_TYPES`
pub data TicketTraceEventType : Type 0 where
  created submitted registration_rejected registered queued routed : TicketTraceEventType
  assignment_proposed accepted declined started pending resumed : TicketTraceEventType
  handed_off reassigned escalated resolution_proposed verified : TicketTraceEventType
  resolved closed reopened cancelled correction : TicketTraceEventType

-- `TicketTraceEventHashInput`: the event without its hash.
pub record TraceHashInput : Type 0 where
  pub envelope : ObjectEnvelope
  pub open envelope use {id}
  pub ticket_id : ObjectId
  pub phase_id : ObjectId
  pub step_id : Option ObjectId
  pub assignment_id : Option ObjectId
  pub sequence : ℕ
  pub event_type : TicketTraceEventType
  pub initiator_actor_id : ObjectId
  pub initiator_role : DomainRole
  pub from_owner_actor_id : Option ObjectId
  pub to_owner_actor_id : Option ObjectId
  pub from_ticket_state : Option TicketState
  pub to_ticket_state : Option TicketState
  pub from_assignment_state : Option AssignmentState
  pub to_assignment_state : Option AssignmentState
  pub reason_code : String
  pub reason : String
  pub evidence_refs : List String
  pub correlation_id : ObjectId
  pub causation_id : Option ObjectId
  pub correction_of_event_id : Option ObjectId
  pub previous_event_id : Option ObjectId
  pub previous_event_hash : Option Digest
  pub occurred_at : Timestamp

-- `TicketTraceEventSchema`
pub record TicketTraceEvent : Type 0 where
  pub body : TraceHashInput
  pub open body use {
    id, ticket_id, sequence, previous_event_id, previous_event_hash, from_ticket_state,
    to_ticket_state,
  }
  pub event_hash : Digest

-- What `verifyTicketTrace` throws: the ticket, the number expected and the number found.
pub data TraceError : Type 0 where
  sequence_expected : ObjectId → ℕ → ℕ → TraceError
  chain_broken : ObjectId → ℕ → TraceError
  hash_invalid : ObjectId → ℕ → TraceError

-- `(previous?.sequence ?? 0) + 1`
abbrev pub next_sequence : Option TicketTraceEvent → ℕ
next_sequence none = 0 + 1
next_sequence (some p) = p.sequence + 1

-- `previous?.id`
abbrev pub event_id : Option TicketTraceEvent → Option ObjectId
event_id none = none
event_id (some p) = some p.id

-- `previous?.eventHash`
abbrev pub chain_hash : Option TicketTraceEvent → Option Digest
chain_hash none = none
chain_hash (some p) = some p.event_hash

-- `hashTicketTraceEvent` is SHA-256 of the event as JSON: a parameter.
module _ (hash : TraceHashInput → Digest) where
  -- One round of the loop of `verifyTicketTrace`.
  unfoldable pub verify_event :
      Option TicketTraceEvent → TicketTraceEvent → Result TraceError (Unit {0})
  verify_event previous event = do
    require (event.sequence == next_sequence previous)
        (sequence_expected event.ticket_id (next_sequence previous) event.sequence)
    require
        (same_option event.previous_event_id (event_id previous)
          && same_option event.previous_event_hash (chain_hash previous))
        (chain_broken event.ticket_id event.sequence)
    require (event.event_hash == hash event.body) (hash_invalid event.ticket_id event.sequence)

  -- The loop, with its variable `previous`.
  unfoldable pub verify_from :
      Option TicketTraceEvent → List TicketTraceEvent → Result TraceError (Unit {0})
  verify_from previous [] = ok tt
  verify_from previous (event ∷ events) =
      verify_event previous event >> verify_from (some event) events

  -- `verifyTicketTrace`
  unfoldable pub verify_ticket_trace : List TicketTraceEvent → Result TraceError (Unit {0})
  verify_ticket_trace events = verify_from none events
