-- ===== src/Domain/Observability.antt =====
-- src/domain/observability/domain_event.ts and src/application/observability/domain_event_factory.ts:
-- what the services announce.
use Prim.Native.String.{◌++◌ as join}
use toaa.Base.{ℕ, List, Option, none, some, String, or_option}
use toaa.Domain.Objects.{
  ObjectId, ObjectType, ObjectEnvelope, Timestamp, domain_event, fresh_envelope,
  revise_object_envelope,
}
use toaa.Domain.Roles.{PendingReason}
use toaa.Domain.Tickets.Types.{TicketType, TicketState}

-- The payloads of the events that are modelled.
pub data EventPayload : Type 0 where
  transition_payload :
      (ticket_type : TicketType) (from_state to_state : TicketState) (path : List TicketState)
      (owner_actor_id : Option ObjectId) (reason_code : Option String)
      → EventPayload
  blocker_added : (blocker_id : ObjectId) (reason : PendingReason) → EventPayload
  blocker_removed : (blocker_id : ObjectId) (remaining : ℕ) → EventPayload

pub data EventStatus : Type 0 where
  waiting published : EventStatus

-- `ObjectRefSchema`
pub record ObjectRef : Type 0 where
  pub id : ObjectId
  pub object_type : ObjectType

-- `DomainEventSchema`
pub record DomainEvent : Type 0 where
  pub envelope : ObjectEnvelope
  pub open envelope use {id, revision}
  pub aggregate : ObjectRef
  pub event_type : String
  pub payload : EventPayload
  pub phase_id : Option ObjectId
  pub step_id : Option ObjectId
  pub ticket_id : Option ObjectId
  pub correlation_id : ObjectId
  pub causation_id : Option ObjectId
  pub object_revision : Option ℕ
  pub status : EventStatus
  pub occurred_at : Timestamp
  pub published_at : Option Timestamp

-- The argument of `createDomainEvent`.
pub record DomainEventInput : Type 0 where
  pub project_id : ObjectId
  pub aggregate : ObjectRef
  pub event_type : String
  pub payload : EventPayload
  pub phase_id : Option ObjectId
  pub step_id : Option ObjectId
  pub ticket_id : Option ObjectId
  pub correlation_id : ObjectId
  pub causation_id : Option ObjectId
  pub object_revision : Option ℕ

-- `input.aggregate.objectType === type ? input.aggregate.id : undefined`
abbrev pub phase_of : ObjectRef → ObjectType → Option ObjectId
phase_of ref ObjectType.phase = some ref.id
phase_of ref _ = none

abbrev pub step_of : ObjectRef → ObjectType → Option ObjectId
step_of ref ObjectType.step = some ref.id
step_of ref _ = none

abbrev pub ticket_of : ObjectRef → ObjectType → Option ObjectId
ticket_of ref ObjectType.ticket = some ref.id
ticket_of ref _ = none

-- `createDomainEvent`. The fresh id and the time come from the caller.
unfoldable pub create_domain_event : ObjectId → DomainEventInput → Timestamp → DomainEvent
create_domain_event id input now = record {
  envelope =
      fresh_envelope id (join "EVENT-" (join input.event_type (join "-" now))) domain_event
        input.project_id none now;
  aggregate = input.aggregate;
  event_type = input.event_type;
  payload = input.payload;
  phase_id = or_option input.phase_id (phase_of input.aggregate input.aggregate.object_type);
  step_id = or_option input.step_id (step_of input.aggregate input.aggregate.object_type);
  ticket_id = or_option input.ticket_id (ticket_of input.aggregate input.aggregate.object_type);
  correlation_id = input.correlation_id;
  causation_id = input.causation_id;
  object_revision = input.object_revision;
  status = waiting;
  occurred_at = now;
  published_at = none;
}

-- `markDomainEventPublished`
unfoldable pub mark_domain_event_published : DomainEvent → Timestamp → DomainEvent
mark_domain_event_published event now = elim event.status [
  | published ↦ event
  | waiting ↦ record event {
    envelope = revise_object_envelope event.envelope none now;
    status = published;
    published_at = some now;
  }
]
