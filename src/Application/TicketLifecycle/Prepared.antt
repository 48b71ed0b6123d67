-- ===== src/Application/TicketLifecycle/Prepared.antt =====
-- src/application/project_management/ticket_lifecycle_service.ts: the parts of a prepared move.
use toaa.Base.{
  ℕ, true, not, ◌&&◌, List, Option, some, Result, ok, err, >>=-eq-ok, require-ok, require_some,
  require_some-ok, ok-injective, is_some, last?, ◌≡◌, ap,
}
use toaa.Domain.StateMachine.{includes}
use toaa.Domain.Objects.{ObjectId, Timestamp, Digest}
use toaa.Domain.Tickets.Types.{TicketState, in_progress}
use toaa.Domain.Tickets.Ticket.{Ticket}
use toaa.Domain.Tickets.Transitions.{TicketState-discrete, transition_ticket_path}
use toaa.Domain.ProjectManagement.Assignment.{TicketAssignment}
use toaa.Domain.ProjectManagement.Actor.{ActorRegistration}
use toaa.Domain.ProjectManagement.Trace.{TraceHashInput, TicketTraceEvent}
use toaa.Application.TicketTrace.{Draw, list_trace}
use toaa.Application.Repository.{PersistedObject, RepositoryPort}
use toaa.Application.TicketLifecycle.{
  PreparedTicketTransition, LifecycleError, path_empty, transition, trace, lift, ended_assignment,
  outcome, require_ticket, require_assignment, require_actor, reconciled_owner, assemble,
  prepare_path, prepare_transition_path,
}
use toaa.Application.TicketMoves.{TicketTransitionInput, has_accepted, Move, initiator_id, move_of}

pub lift-eq-ok {ℓ} :
    {E F : Type 0} {A : Type ℓ} (f : F → LifecycleError E) (r : Result F A) {a : A}
    → lift f r ≡ ok a
    → r ≡ ok a
lift-eq-ok f (ok b) h = ap ok (ok-injective h)
lift-eq-ok f (err e) h = cc

module _ {E : Type 0} (repo : RepositoryPort E) (hash : TraceHashInput → Digest) (draw : ℕ → Draw)
    (event_id : ObjectId) (now : Timestamp) where
  -- What a move was assembled of.
  pub record Assembled (m : Move) (path : List TicketState) (final : TicketState)
      (p : PreparedTicketTransition) : Type 0 where
    pub transitioned : Ticket
    pub existing : List TicketTraceEvent
    pub ended : List PersistedObject
    pub owner : List PersistedObject
    pub moves : transition_ticket_path m.ticket path m.input.pending_reason now ≡ ok transitioned
    pub lists : list_trace hash m.ticket.id repo.trace_events ≡ ok existing
    pub ends : ended_assignment {E = E} m.assignment m.assignment_next now ≡ ok ended
    pub settles : reconciled_owner repo m.assignment final now ≡ ok owner
    pub makes :
        outcome repo hash draw event_id now m path final transitioned existing ended owner ≡ p

  assemble-Assembled :
      (m : Move) (path : List TicketState) (final : TicketState) {p : PreparedTicketTransition}
      → assemble repo hash draw event_id now m path final ≡ ok p
      → Assembled m path final p
  unfolding assemble
  assemble-Assembled m path final {p} h =
      let (transitioned, moves, h1) =
        >>=-eq-ok
          (lift transition (transition_ticket_path m.ticket path m.input.pending_reason now)) _ h in
      let (existing, lists, h2) =
        >>=-eq-ok (lift trace (list_trace hash m.ticket.id repo.trace_events)) _ h1 in
      let (ended, ends, h3) =
        >>=-eq-ok (ended_assignment {E = E} m.assignment m.assignment_next now) _ h2 in
      let (owner, settles, h4) = >>=-eq-ok (reconciled_owner repo m.assignment final now) _ h3 in
      record {
        transitioned = transitioned;
        existing = existing;
        ended = ended;
        owner = owner;
        moves = lift-eq-ok transition _ moves;
        lists = lift-eq-ok trace _ lists;
        ends = ends;
        settles = settles;
        makes = ok-injective h4;
      }

  -- What was read for a prepared move, and what it was assembled of.
  pub record Prepared (id : ObjectId) (path : List TicketState) (final : TicketState)
      (input : TicketTransitionInput) (p : PreparedTicketTransition) : Type 0 where
    pub t : Ticket
    pub assignment : Option TicketAssignment
    pub initiator : ActorRegistration
    pub reads : require_ticket repo id ≡ ok t
    pub registered : is_some t.registered_at ≡ true
    pub reads_assignment : require_assignment repo t.active_assignment_id ≡ ok assignment
    pub guarded :
        not (includes TicketState-discrete path in_progress && not (has_accepted assignment)) ≡ true
    pub reads_initiator : require_actor repo (initiator_id t assignment input) ≡ ok initiator
    pub assembles : Assembled (move_of now t assignment initiator final input) path final p

  prepare_path-Prepared :
      (id : ObjectId) (path : List TicketState) (final : TicketState)
      (input : TicketTransitionInput) {p : PreparedTicketTransition}
      → prepare_path repo hash draw event_id now id path final input ≡ ok p
      → Prepared id path final input p
  unfolding prepare_path
  prepare_path-Prepared id path final input {p} h =
      let (t, reads, h1) = >>=-eq-ok (require_ticket repo id) _ h in
      let (registered, h2) = require-ok (is_some t.registered_at) _ h1 in
      let (assignment, reads_assignment, h3) =
        >>=-eq-ok (require_assignment repo t.active_assignment_id) _ h2 in
      let (guarded, h4) =
        require-ok
          (not (includes TicketState-discrete path in_progress && not (has_accepted assignment))) _
          h3 in
      let (initiator, reads_initiator, h5) =
        >>=-eq-ok (require_actor repo (initiator_id t assignment input)) _ h4 in
      record {
        t = t;
        assignment = assignment;
        initiator = initiator;
        reads = reads;
        registered = registered;
        reads_assignment = reads_assignment;
        guarded = guarded;
        reads_initiator = reads_initiator;
        assembles = assemble-Assembled _ path final h5;
      }

  pub prepare_transition_path-Prepared :
      (id : ObjectId) (path : List TicketState) (input : TicketTransitionInput)
      {p : PreparedTicketTransition}
      → prepare_transition_path repo hash draw event_id now id path input ≡ ok p
      → (final : TicketState) × (last? path ≡ some final) × Prepared id path final input p
  unfolding prepare_transition_path
  prepare_transition_path-Prepared id path input h =
      let (final, ends, rest) = >>=-eq-ok (require_some (last? path) path_empty) _ h in
      (
        final,
        require_some-ok (last? path) path_empty ends,
        prepare_path-Prepared id path final input rest,
      )
