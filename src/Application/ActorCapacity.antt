-- ===== src/Application/ActorCapacity.antt =====
-- src/application/project_management/ticket_lifecycle_service.ts: the work that an actor carries.
use toaa.Base.{Bool, true, false, not, List, [], ◌∷◌, ◌++◌, Option, none, some, any, keep, ◌==◌}
use toaa.Domain.Objects.{ObjectId, Timestamp}
use toaa.Domain.Tickets.Types.{TicketState}
use toaa.Domain.ProjectManagement.Actor.{ActorRegistration, revise_actor}

-- `holdsCapacity`
unfoldable pub holds_capacity : TicketState → Bool
holds_capacity TicketState.in_progress = true
holds_capacity _ = false

abbrev pub includes_id : List ObjectId → ObjectId → Bool
includes_id ids id = any (λ other. other == id) ids

-- The three cases of `reconcileActorCapacity`: whether the assignment is listed, and whether the
-- Ticket holds capacity.
abbrev pub reconcile :
    Bool → Bool → ActorRegistration → ObjectId → Timestamp → Option ActorRegistration
reconcile true true owner id now = none
reconcile true false owner id now =
    some (revise_actor owner (keep (λ other. not (other == id)) owner.active_assignment_ids) now)
reconcile false true owner id now =
    some (revise_actor owner (owner.active_assignment_ids ++ id ∷ []) now)
reconcile false false owner id now = none

-- `reconcileActorCapacity`. The time is that of `reviseActor`.
unfoldable pub reconcile_actor_capacity :
    ActorRegistration → ObjectId → TicketState → Timestamp → Option ActorRegistration
unfolding holds_capacity
reconcile_actor_capacity owner assignment_id state now =
    reconcile (includes_id owner.active_assignment_ids assignment_id) (holds_capacity state) owner
      assignment_id now
