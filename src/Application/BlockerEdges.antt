-- ===== src/Application/BlockerEdges.antt =====
-- src/application/project_management/ticket_blocker_service.ts: the blockers of a Ticket and what is
-- recorded of them.
use toaa.Base.{
  if◌then◌else◌, Bool, true, false, not, List, [], ◌∷◌, ◌++◌, map, some, String, keep, ◌==◌,
}
use toaa.Domain.Objects.{ObjectId, ObjectType, Timestamp}
use toaa.Domain.Roles.{PendingReason}
use toaa.Domain.Observability.{EventPayload, DomainEvent, create_domain_event}
use toaa.Domain.Tickets.Types.{TicketState}
use toaa.Domain.Tickets.Ticket.{Ticket}
use toaa.Domain.Tickets.Records.{set_of}
use toaa.Application.Repository.{PersistedObject, ticket_object}

-- `BlockReason`
pub data BlockReason : Type 0 where
  defect quality_gap dependency : BlockReason

abbrev pub pending_reason_of : BlockReason → PendingReason
pending_reason_of defect = PendingReason.defect
pending_reason_of quality_gap = PendingReason.quality_gap
pending_reason_of dependency = PendingReason.dependency

-- The text of a reason in a template.
abbrev pub reason_text : BlockReason → String
reason_text defect = "defect"
reason_text quality_gap = "quality-gap"
reason_text dependency = "dependency"

-- `work.state === 'closed' || work.state === 'cancelled'`
abbrev pub is_terminal : TicketState → Bool
is_terminal TicketState.closed = true
is_terminal TicketState.cancelled = true
is_terminal _ = false

abbrev pub executes : TicketState → Bool
executes TicketState.in_progress = true
executes _ = false

abbrev pub waits : TicketState → Bool
waits TicketState.pending = true
waits _ = false

abbrev pub no_ids : List ObjectId → Bool
no_ids [] = true
no_ids (id ∷ ids) = false

-- `{ ...ticket, blockedByTicketIds: [...new Set([...ticket.blockedByTicketIds, blockerId])] }`
unfoldable pub blocked_by : Ticket → ObjectId → Ticket
unfolding set_of
blocked_by t blocker_id = record t {
  blocked_by_ticket_ids = set_of [] (t.blocked_by_ticket_ids ++ blocker_id ∷ []);
}

-- `blocked.blockedByTicketIds.filter((id) => id !== blockerId)`
abbrev pub without : Ticket → ObjectId → List ObjectId
without t blocker_id = keep (λ id. not (id == blocker_id)) t.blocked_by_ticket_ids

abbrev pub replaced : Ticket → PersistedObject → PersistedObject
replaced t (ticket_object u) = if u.id == t.id then ticket_object t else ticket_object u
replaced t object = object

-- `replaceTicket`
abbrev pub replace_ticket : List PersistedObject → Ticket → List PersistedObject
replace_ticket objects t = map (replaced t) objects

-- The event of a blocker that comes or goes.
unfoldable pub blocker_event :
    ObjectId → String → EventPayload → Ticket → ObjectId → Ticket → Timestamp → DomainEvent
unfolding create_domain_event
blocker_event id event_type payload t blocker_id updated now =
    create_domain_event id
      (record {
        project_id = t.project_id;
        aggregate = record { id = t.id; object_type = ObjectType.ticket };
        event_type = event_type;
        payload = payload;
        phase_id = some t.phase_id;
        step_id = t.step_id;
        ticket_id = some t.id;
        correlation_id = t.source.correlation_id;
        causation_id = some blocker_id;
        object_revision = some updated.revision;
      })
      now
