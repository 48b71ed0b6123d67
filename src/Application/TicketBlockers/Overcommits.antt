-- ===== src/Application/TicketBlockers/Overcommits.antt =====
-- src/application/project_management/ticket_blocker_service.ts, unblock: the load of the owner of a Ticket
-- that is taken up again.
use toaa.Base.{◌+◌, List, [], ◌∷◌, ◌++◌, length, Memᴰ, ◌≡◌}
use toaa.Domain.Tickets.Types.{in_progress}
use toaa.Domain.Tickets.Ticket.{Ticket}
use toaa.Domain.ProjectManagement.Assignment.{TicketAssignment}
use toaa.Domain.ProjectManagement.Actor.{ActorRegistration}
use toaa.Application.Repository.{PersistedObject, ticket_object, actor_object}

-- A Ticket in progress with no blocker, and its owner with one assignment more than its capacity, both
-- among the objects.
pub record TakenUp (blocked : Ticket) (a : TicketAssignment) (owner : ActorRegistration)
    (objects : List PersistedObject) : Type 0 where
  pub ticket : Ticket
  pub stores_ticket : Memᴰ (ticket_object ticket) objects
  pub same_ticket : ticket.id ≡ blocked.id
  pub runs : ticket.state ≡ in_progress
  pub unblocked : ticket.blocked_by_ticket_ids ≡ []
  pub laden : ActorRegistration
  pub stores_owner : Memᴰ (actor_object laden) objects
  pub same_owner : laden.id ≡ owner.id
  pub same_capacity : laden.capacity ≡ owner.capacity
  pub takes : laden.active_assignment_ids ≡ owner.active_assignment_ids ++ a.id ∷ []
  pub over : length laden.active_assignment_ids ≡ owner.capacity + 1
