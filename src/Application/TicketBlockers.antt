-- ===== src/Application/TicketBlockers.antt =====
-- src/application/project_management/ticket_blocker_service.ts: what holds a Ticket back, and how it
-- is let go. The objects that a method commits are its result here.
pub mod Held
pub mod Overcommits
pub mod Resumed
use Prim.Native.String.{◌++◌ as join}
use toaa.Base.{
  ℕ, or_else, if◌then◌else◌, Bool, true, false, not, ◌&&◌, List, [], ◌∷◌, ◌++◌, map, Option, none,
  some, String, Result, ok, err, ◌>>=◌, ◌>>◌, require, keep, ◌==◌, length, any,
}
use toaa.Domain.Objects.{ObjectId, ObjectType, Timestamp, Digest, revise_object_envelope}
use toaa.Domain.Roles.{PendingReason}
use toaa.Domain.Observability.{
  EventPayload, blocker_added, blocker_removed, DomainEvent, create_domain_event,
}
use toaa.Domain.Tickets.Types.{TicketState, in_progress, pending}
use toaa.Domain.Tickets.Ticket.{Ticket}
use toaa.Domain.Tickets.Records.{set_of}
use toaa.Domain.ProjectManagement.Actor.{ActorRegistration}
use toaa.Domain.ProjectManagement.Trace.{TicketTraceEventType, TraceHashInput}
use toaa.Application.TicketTrace.{Draw, TicketTraceAppendInput, build, list_trace}
use toaa.Application.Repository.{
  PersistedObject, ticket_object, assignment_object, actor_object, trace_object, event_object,
  RepositoryPort,
}
use toaa.Application.TicketLifecycle.{
  LifecycleError, repository, trace, lift, actor_objects, release_capacity_for, prepare_transition,
}
use toaa.Application.ActorCapacity.{includes_id}
use toaa.Application.TicketMoves.{TicketTransitionInput, with_draws}
use toaa.Application.BlockerEdges.{
  BlockReason, pending_reason_of, reason_text, is_terminal, executes, waits, no_ids, blocked_by,
  without, replaced, replace_ticket, blocker_event,
}

-- What the service throws, or passes on.
pub data BlockerError (E : Type 0) : Type 0 where
  lifecycle : LifecycleError E → BlockerError E
  terminal_ticket : ObjectId → BlockerError E
  invalid_assignment : ObjectId → BlockerError E
  actor_unregistered : ObjectId → BlockerError E

-- What the lifecycle service throws is passed on.
abbrev pub pass {ℓ} :
    {E : Type 0} {A : Type ℓ} → Result (LifecycleError E) A → Result (BlockerError E) A
pass (ok a) = ok a
pass (err e) = err (lifecycle e)

module _ {E : Type 0} (repo : RepositoryPort E) where
  abbrev pub read : ObjectId → Result (BlockerError E) PersistedObject
  read id = pass (lift repository (repo.read id))

  abbrev pub assignee : Ticket → PersistedObject → Result (BlockerError E) ObjectId
  assignee t (assignment_object a) = ok a.assignee_actor_id
  assignee t _ = err (invalid_assignment t.id)

  abbrev pub actor_of : Ticket → PersistedObject → Result (BlockerError E) ActorRegistration
  actor_of t (actor_object a) = ok a
  actor_of t _ = err (actor_unregistered t.id)

  -- `actorId`
  abbrev pub processing_actor_id : Ticket → Option ObjectId → Result (BlockerError E) ObjectId
  processing_actor_id t none = ok t.creator_actor_id
  processing_actor_id t (some id) = do object ← read id; assignee t object

  -- `processingActor`
  unfoldable pub processing_actor : Ticket → Result (BlockerError E) ActorRegistration
  processing_actor t = do
    actor_id ← processing_actor_id t t.active_assignment_id
    object ← read actor_id
    actor_of t object

module _ (id_text : ObjectId → String) where
  -- `marker`
  unfoldable pub marker :
      Ticket → ActorRegistration → ObjectId → BlockReason → TicketTraceAppendInput
  marker work actor blocker_id reason = record {
    event_type = TicketTraceEventType.escalated;
    initiator_actor_id = actor.id;
    initiator_role = actor.role;
    assignment_id = work.active_assignment_id;
    from_owner_actor_id = some actor.id;
    to_owner_actor_id = some actor.id;
    from_ticket_state = none;
    to_ticket_state = none;
    from_assignment_state = none;
    to_assignment_state = none;
    reason_code = join "ticket.blocked_by_" (reason_text reason);
    reason =
        join work.name (join " is blocked by corrective Ticket " (join (id_text blocker_id) "."));
    evidence_refs = some (id_text blocker_id ∷ []);
    correlation_id = work.source.correlation_id;
    causation_id = some blocker_id;
    correction_of_event_id = none;
    occurred_at = none;
  }

  -- How the lifecycle service is asked to park the work.
  unfoldable pub parking : TicketTraceAppendInput → BlockReason → TicketTransitionInput
  parking marked reason = record {
    initiator_actor_id = none;
    pending_reason = some (pending_reason_of reason);
    reason_code = none;
    reason = none;
    evidence_refs = none;
    before_trace = marked ∷ [];
  }

  -- How it is asked to take the work up again.
  unfoldable pub resuming : Ticket → ObjectId → TicketTransitionInput
  resuming blocked blocker_id = record {
    initiator_actor_id = none;
    pending_reason = none;
    reason_code = some "ticket.blocker_cleared";
    reason = some (
        join "Corrective Ticket "
          (join (id_text blocker_id) (join " closed; " (join blocked.name " can resume."))));
    evidence_refs = some (id_text blocker_id ∷ []);
    before_trace = [];
  }

  module _ {E : Type 0} (repo : RepositoryPort E) where
    module _ (hash : TraceHashInput → Digest) (draw : ℕ → Draw) (event_id : ObjectId)
        (now : Timestamp) where
      -- The objects where the work is executing and has to be parked.
      unfoldable pub park :
          Ticket
          → ActorRegistration
          → ObjectId
          → BlockReason
          → Result (BlockerError E) (List PersistedObject)
      unfolding marker parking blocked_by prepare_transition
      park work actor blocker_id reason = do
        prepared ← pass (
            prepare_transition repo hash draw event_id now work.id pending
              (parking (marker work actor blocker_id reason) reason))
        ok (replace_ticket prepared.objects (blocked_by prepared.ticket blocker_id))

      -- The objects where it only gets a blocker.
      unfoldable pub mark :
          Ticket
          → ActorRegistration
          → ObjectId
          → BlockReason
          → Result (BlockerError E) (List PersistedObject)
      unfolding marker blocked_by release_capacity_for blocker_event
      mark work actor blocker_id reason = do
        existing ← pass (lift trace (list_trace hash work.id repo.trace_events))
        let built =
            build hash work existing (with_draws draw 0 (marker work actor blocker_id reason ∷ []))
              now
        let updated = blocked_by built.ticket blocker_id
        released ← pass (release_capacity_for repo work now)
        ok (
            map trace_object built.events
            ++ (actor_objects released
                ++ ticket_object updated
                  ∷ event_object (
                      blocker_event event_id "ticket.blocker_added"
                        (blocker_added blocker_id (pending_reason_of reason)) work blocker_id
                        updated now)
                  ∷ []))

      -- `prepare`. The readings of the clock in one call are one time.
      unfoldable pub prepare :
          Ticket → ObjectId → BlockReason → Result (BlockerError E) (List PersistedObject)
      unfolding processing_actor park mark
      prepare work blocker_id reason = do
        require (not (is_terminal work.state)) (terminal_ticket work.id)
        actor ← processing_actor repo work
        if executes work.state
            then park work actor blocker_id reason
            else mark work actor blocker_id reason

      -- `prepareWorkIfLive`
      unfoldable pub prepare_work_if_live :
          Ticket → ObjectId → BlockReason → Result (BlockerError E) (List PersistedObject)
      unfolding prepare
      prepare_work_if_live work blocker_id reason =
          if is_terminal work.state then ok [] else prepare work blocker_id reason

      -- The objects of a Ticket that is taken up again.
      unfoldable pub take_up : Ticket → ObjectId → Result (BlockerError E) (List PersistedObject)
      unfolding resuming prepare_transition
      take_up blocked blocker_id = do
        prepared ← pass (
            prepare_transition repo hash draw event_id now blocked.id in_progress
              (resuming blocked blocker_id))
        ok (
            replace_ticket prepared.objects
              (record prepared.ticket { blocked_by_ticket_ids = without blocked blocker_id }))

      -- The objects of a Ticket that only loses a blocker.
      unfoldable pub let_go : Ticket → ObjectId → List PersistedObject
      unfolding blocker_event
      let_go blocked blocker_id =
          let updated = record blocked {
            envelope = revise_object_envelope blocked.envelope none now;
            blocked_by_ticket_ids = without blocked blocker_id;
          } in
          ticket_object updated
          ∷ event_object (
              blocker_event event_id "ticket.blocker_removed"
                (blocker_removed blocker_id (length (without blocked blocker_id))) blocked
                blocker_id updated now)
          ∷ []

      -- `unblock`
      unfoldable pub unblock :
          Ticket → ObjectId → Bool → Result (BlockerError E) (List PersistedObject)
      unfolding take_up let_go
      unblock blocked blocker_id resume =
          if resume && no_ids (without blocked blocker_id) && waits blocked.state
          then take_up blocked blocker_id
          else ok (let_go blocked blocker_id)

      -- `releaseFrom`
      unfoldable pub release_from :
          Ticket → ObjectId → Option Bool → Result (BlockerError E) (List PersistedObject)
      unfolding unblock
      release_from blocked blocker_id resume =
          if includes_id blocked.blocked_by_ticket_ids blocker_id
          then unblock blocked blocker_id (or_else resume true)
          else ok []
