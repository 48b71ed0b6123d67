-- ===== src/Application/TicketLifecycle/Capacity.antt =====
-- src/application/project_management/ticket_lifecycle_service.ts: an owner's capacity after a move.
use toaa.Base.{
  Bool, true, false, not, List, [], ◌∷◌, ◌++◌, keep, or_else, ◌==◌, ==_iff, inl, inr, Bool-cases,
  if◌then◌else◌, ◌≡◌, refl, arith,
}
use toaa.Domain.Objects.{ObjectId, Timestamp}
use toaa.Domain.Tickets.Types.{TicketState}
use toaa.Domain.ProjectManagement.Actor.{ActorRegistration, revise_actor}
use toaa.Application.ActorCapacity.{
  holds_capacity, includes_id, reconcile, reconcile_actor_capacity,
}

-- Taking an id off a list takes nothing else off.
includes_id-keep :
    (id : ObjectId) (ids : List ObjectId) (j : ObjectId)
    → includes_id (keep (λ other. not (other == id)) ids) j
      ≡ (if j == id then false else includes_id ids j)
includes_id-keep id [] j = ground arith
includes_id-keep id (other ∷ ids) j = ground (arith, includes_id-keep id ids j)

-- An id at the end of a list is on it.
includes_id-append :
    (ids : List ObjectId) (id j : ObjectId)
    → includes_id (ids ++ id ∷ []) j ≡ (if j == id then true else includes_id ids j)
includes_id-append [] id j = ground arith
includes_id-append (other ∷ ids) id j = ground (arith, includes_id-append ids id j)

-- What a listed id, or one that is not, says of the whole list.
includes_id-at :
    (ids : List ObjectId) (id j : ObjectId) {b : Bool}
    → includes_id ids id ≡ b
    → includes_id ids j ≡ (if j == id then b else includes_id ids j)
includes_id-at ids id j h = elim (Bool-cases (j == id)) [
  | inl same ↦ let e : j ≡ id = (==_iff j id).0 same in rw (same, e) h
  | inr other ↦ rw other refl
]

includes_id-reconcile :
    (owner : ActorRegistration) (id : ObjectId) (now : Timestamp) (j : ObjectId) (on holds : Bool)
    → includes_id owner.active_assignment_ids id ≡ on
    → includes_id (or_else (reconcile on holds owner id now) owner).active_assignment_ids j
      ≡ (if j == id then holds else includes_id owner.active_assignment_ids j)
unfolding revise_actor
includes_id-reconcile owner id now j true true h = includes_id-at owner.active_assignment_ids id j h
includes_id-reconcile owner id now j true false h =
    includes_id-keep id owner.active_assignment_ids j
includes_id-reconcile owner id now j false true h =
    includes_id-append owner.active_assignment_ids id j
includes_id-reconcile owner id now j false false h =
    includes_id-at owner.active_assignment_ids id j h

-- Once an owner's capacity is reconciled, the assignment is on the owner's list exactly when the
-- Ticket's new state holds capacity, and every other assignment is on it exactly when it was.
pub includes_id-reconcile_actor_capacity :
    (owner : ActorRegistration) (id : ObjectId) (state : TicketState) (now : Timestamp)
    (j : ObjectId)
    → includes_id
        (or_else (reconcile_actor_capacity owner id state now) owner).active_assignment_ids
        j
      ≡ (if j == id then holds_capacity state else includes_id owner.active_assignment_ids j)
unfolding reconcile_actor_capacity
includes_id-reconcile_actor_capacity owner id state now j =
    includes_id-reconcile owner id now j (includes_id owner.active_assignment_ids id)
      (holds_capacity state) refl
