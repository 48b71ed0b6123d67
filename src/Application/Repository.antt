-- ===== src/Application/Repository.antt =====
-- src/domain/ports/repository.ts: what the services read of the persisted objects.
use toaa.Base.{List, Result}
use toaa.Domain.Objects.{ObjectId, ObjectEnvelope}
use toaa.Domain.Tickets.Ticket.{Ticket}
use toaa.Domain.Steps.{Step}
use toaa.Domain.Phases.{Phase}
use toaa.Domain.Projects.{Project}
use toaa.Domain.ProjectManagement.Actor.{ActorRegistration}
use toaa.Domain.ProjectManagement.Assignment.{TicketAssignment}
use toaa.Domain.ProjectManagement.Trace.{TicketTraceEvent}
use toaa.Domain.Observability.{DomainEvent}
use toaa.Domain.Workflow.RoleDefinition.{RoleDefinition}

-- `PersistedDomainObject`: the kinds that the services tell apart, and the envelope of any other.
pub data PersistedObject : Type 0 where
  project_object : Project → PersistedObject
  phase_object : Phase → PersistedObject
  step_object : Step → PersistedObject
  ticket_object : Ticket → PersistedObject
  actor_object : ActorRegistration → PersistedObject
  assignment_object : TicketAssignment → PersistedObject
  trace_object : TicketTraceEvent → PersistedObject
  event_object : DomainEvent → PersistedObject
  definition_object : RoleDefinition → PersistedObject
  other_object : ObjectEnvelope → PersistedObject

-- `DomainObjectRepositoryPort`, of which the services use `read` and the lists of all
-- Tickets and of all trace events.
-- `E` is what `read` throws.
pub record RepositoryPort (E : Type 0) : Type 0 where
  pub read : ObjectId → Result E PersistedObject
  pub tickets : List Ticket
  pub trace_events : List TicketTraceEvent
