-- ===== src/Application/TicketLifecycle.antt =====
-- src/application/project_management/ticket_lifecycle_service.ts: a Ticket moves with its assignment,
-- its owner's capacity, its trace and the event that announces it.
pub mod Capacity
pub mod Owners
pub mod Prepared
pub mod Reserved
pub mod Single
pub mod Starts
pub mod Traces
use Prim.Native.String.{◌++◌ as join}
use toaa.Base.{
  ℕ, ◌+◌, Bool, true, false, not, ◌&&◌, List, [], ◌∷◌, ◌++◌, map, Option, none, some, String,
  String-discrete, Result, ok, err, ◌>>=◌, ◌>>◌, require, require_some, is_some, or_else, or_option,
  last?, any, keep, ◌==◌, same, if◌then◌else◌,
}
use toaa.Domain.StateMachine.{InvalidTransition, includes}
use toaa.Domain.Objects.{ObjectId, ObjectType, Timestamp, Digest, revise_object_envelope}
use toaa.Domain.Roles.{DomainRole, PendingReason}
use toaa.Domain.Observability.{EventPayload, transition_payload, DomainEvent, create_domain_event}
use toaa.Domain.Tickets.Types.{
  TicketState, created, in_progress, pending, resolved, reopened, cancelled, closed,
}
use toaa.Domain.Tickets.Ticket.{Ticket, ticket_type}
use toaa.Domain.Tickets.Transitions.{TransitionError, TicketState-discrete, transition_ticket_path}
use toaa.Domain.ProjectManagement.Assignment.{
  AssignmentState, TicketAssignment, transition_assignment,
}
use toaa.Domain.ProjectManagement.Actor.{ActorRegistration, revise_actor}
use toaa.Domain.ProjectManagement.Trace.{
  TicketTraceEventType, TraceHashInput, TicketTraceEvent, TraceError,
}
use toaa.Application.TicketTrace.{TicketTraceAppendInput, Draw, BuiltTicketTrace, build, list_trace}
use toaa.Application.Repository.{
  PersistedObject, ticket_object, assignment_object, actor_object, trace_object, event_object,
  RepositoryPort,
}
use toaa.Application.TicketMoves.{
  TicketTransitionInput, is_accepted, has_accepted, end_of_assignment, assignment_state_for_ticket,
  start_event, trace_event_for_transition, state_text, transition_reason, transition_code,
  assignment_id_of, assignee_of, state_of, or_text, Move, transition_trace, transition_traces,
  with_draws, trace_inputs, move_of, updated_ticket, transition_event, initiator_id,
}
use toaa.Application.ActorCapacity.{
  holds_capacity, includes_id, reconcile, reconcile_actor_capacity,
}

-- `PreparedTicketTransition`
pub record PreparedTicketTransition : Type 0 where
  pub ticket : Ticket
  pub objects : List PersistedObject

-- What the service throws, or passes on.
pub data LifecycleError (E : Type 0) : Type 0 where
  repository : E → LifecycleError E
  path_empty : LifecycleError E
  not_a_ticket not_an_assignment not_an_actor : ObjectId → LifecycleError E
  not_registered owner_required : ObjectId → LifecycleError E
  transition : TransitionError → LifecycleError E
  assignment_transition : InvalidTransition AssignmentState → LifecycleError E
  trace : TraceError → LifecycleError E

-- Where a call of the service fails, its error is passed on.
abbrev pub lift {ℓ} :
    {E F : Type 0} {A : Type ℓ} → (F → LifecycleError E) → Result F A → Result (LifecycleError E) A
lift f (ok a) = ok a
lift f (err e) = err (f e)

abbrev pub as_ticket : {E : Type 0} → ObjectId → PersistedObject → Result (LifecycleError E) Ticket
as_ticket id (ticket_object t) = ok t
as_ticket id _ = err (not_a_ticket id)

abbrev pub as_assignment :
    {E : Type 0} → ObjectId → PersistedObject → Result (LifecycleError E) TicketAssignment
as_assignment id (assignment_object a) = ok a
as_assignment id _ = err (not_an_assignment id)

abbrev pub as_actor :
    {E : Type 0} → ObjectId → PersistedObject → Result (LifecycleError E) ActorRegistration
as_actor id (actor_object a) = ok a
as_actor id _ = err (not_an_actor id)

-- `if (assignment && assignmentNext) objects.push(transitionAssignment(…))`
unfoldable pub ended_assignment :
    {E : Type 0}
    → Option TicketAssignment
    → Option AssignmentState
    → Timestamp
    → Result (LifecycleError E) (List PersistedObject)
ended_assignment none next now = ok []
ended_assignment (some a) none now = ok []
ended_assignment (some a) (some next) now = do
  ended ← lift assignment_transition (transition_assignment a next now)
  ok (assignment_object ended ∷ [])

abbrev pub actor_objects : Option ActorRegistration → List PersistedObject
actor_objects none = []
actor_objects (some a) = actor_object a ∷ []

module _ {E : Type 0} (repo : RepositoryPort E) where
  -- `this.repository.read`
  abbrev pub read : ObjectId → Result (LifecycleError E) PersistedObject
  read id = lift repository (repo.read id)

  -- `requireTicket`
  unfoldable pub require_ticket : ObjectId → Result (LifecycleError E) Ticket
  require_ticket id = do object ← read id; as_ticket id object

  -- `requireAssignment`, where there is one.
  unfoldable pub require_assignment :
      Option ObjectId → Result (LifecycleError E) (Option TicketAssignment)
  require_assignment none = ok none
  require_assignment (some id) = do object ← read id; a ← as_assignment id object; ok (some a)

  -- `this.roles.require`
  unfoldable pub require_actor : ObjectId → Result (LifecycleError E) ActorRegistration
  require_actor id = do object ← read id; as_actor id object

  -- `if (assignment?.capacityConsumed) { … }`
  unfoldable pub reconciled_owner :
      Option TicketAssignment
      → TicketState
      → Timestamp
      → Result (LifecycleError E) (List PersistedObject)
  unfolding require_actor reconcile_actor_capacity
  reconciled_owner none final now = ok []
  reconciled_owner (some a) final now = elim a.capacity_consumed [
    | true ↦ do
      owner ← require_actor a.assignee_actor_id
      ok (actor_objects (reconcile_actor_capacity owner a.id final now))
    | false ↦ ok []
  ]

  abbrev pub released :
      PersistedObject → TicketAssignment → Ticket → Timestamp → Option ActorRegistration
  released (actor_object owner) a t now = reconcile_actor_capacity owner a.id t.state now
  released _ a t now = none

  abbrev pub release_assignment :
      PersistedObject → Ticket → Timestamp → Result (LifecycleError E) (Option ActorRegistration)
  release_assignment (assignment_object a) t now = elim a.capacity_consumed [
    | true ↦ do owner ← read a.assignee_actor_id; ok (released owner a t now)
    | false ↦ ok none
  ]
  release_assignment _ t now = ok none

  -- `releaseCapacityFor`
  unfoldable pub release_capacity_for :
      Ticket → Timestamp → Result (LifecycleError E) (Option ActorRegistration)
  unfolding reconcile_actor_capacity
  release_capacity_for t now = elim t.active_assignment_id [
    | none ↦ ok none
    | some id ↦ do object ← read id; release_assignment object t now
  ]

  module _ (hash : TraceHashInput → Digest) (draw : ℕ → Draw) (event_id : ObjectId)
      (now : Timestamp) where
    -- The end of `prepareTransitionPath`: the objects and the Ticket, of the Ticket that moved, its
    -- trace so far, and what becomes of its assignment and of its owner.
    unfoldable pub outcome :
        Move
        → List TicketState
        → TicketState
        → Ticket
        → List TicketTraceEvent
        → List PersistedObject
        → List PersistedObject
        → PreparedTicketTransition
    unfolding transition_traces updated_ticket transition_event
    outcome m path final transitioned existing ended owner =
        let built = build hash m.ticket existing (trace_inputs draw m path) now in
        let updated = updated_ticket transitioned built.ticket m.assignment_next in
        record {
          ticket = updated;
          objects =
              map trace_object built.events
              ++ (ended
                  ++ (owner
                      ++ ticket_object updated
                        ∷ event_object (transition_event event_id m final path updated)
                        ∷ []));
        }

    -- The objects and the Ticket, once all is read.
    unfoldable pub assemble :
        Move → List TicketState → TicketState → Result (LifecycleError E) PreparedTicketTransition
    unfolding outcome ended_assignment reconciled_owner
    assemble m path final = do
      transitioned ←
          lift transition (transition_ticket_path m.ticket path m.input.pending_reason now)
      existing ← lift trace (list_trace hash m.ticket.id repo.trace_events)
      ended ← ended_assignment m.assignment m.assignment_next now
      owner ← reconciled_owner m.assignment final now
      ok (outcome m path final transitioned existing ended owner)

    -- `prepareTransitionPath`, for a path that is not empty: its last state is given with it.
    unfoldable pub prepare_path :
        ObjectId
        → List TicketState
        → TicketState
        → TicketTransitionInput
        → Result (LifecycleError E) PreparedTicketTransition
    unfolding require_ticket require_assignment require_actor move_of assemble TicketState-discrete
    prepare_path id path final input = do
      t ← require_ticket id
      require (is_some t.registered_at) (not_registered t.id)
      assignment ← require_assignment t.active_assignment_id
      require
          (not (includes TicketState-discrete path in_progress && not (has_accepted assignment)))
          (owner_required t.id)
      initiator ← require_actor (initiator_id t assignment input)
      assemble (move_of now t assignment initiator final input) path final

    -- `prepareTransitionPath`
    unfoldable pub prepare_transition_path :
        ObjectId
        → List TicketState
        → TicketTransitionInput
        → Result (LifecycleError E) PreparedTicketTransition
    unfolding prepare_path
    prepare_transition_path id path input = do
      final ← require_some (last? path) path_empty
      prepare_path id path final input

    -- `prepareTransition`
    unfoldable pub prepare_transition :
        ObjectId
        → TicketState
        → TicketTransitionInput
        → Result (LifecycleError E) PreparedTicketTransition
    unfolding prepare_transition_path
    prepare_transition id next input = prepare_transition_path id (next ∷ []) input
