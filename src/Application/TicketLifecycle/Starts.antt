-- ===== src/Application/TicketLifecycle/Starts.antt =====
-- src/application/project_management/ticket_lifecycle_service.ts: a move into progress that succeeds.
use toaa.Base.{
  ℕ, true, List, [], ◌∷◌, Option, none, some, ok, ◌≡◌, refl, ap, is_some, arith, >>=-ok,
  require-then,
}
use toaa.Domain.StateMachine.{}
use toaa.Domain.Objects.{ObjectId, Timestamp, Digest}
use toaa.Domain.Roles.{PendingReason}
use toaa.Domain.Tickets.Types.{in_progress, pending}
use toaa.Domain.Tickets.Ticket.{Ticket}
use toaa.Domain.Tickets.Transitions.{TicketState-discrete, transition_ticket_path, walk}
use toaa.Domain.Tickets.Transitions.Routes.{Edge, Route, walk-iff_Route}
use toaa.Domain.ProjectManagement.Assignment.{AssignmentState, TicketAssignment}
use toaa.Domain.ProjectManagement.Actor.{ActorRegistration}
use toaa.Domain.ProjectManagement.Trace.{TraceHashInput, TicketTraceEvent}
use toaa.Application.TicketTrace.{Draw, list_trace}
use toaa.Application.Repository.{RepositoryPort}
use toaa.Application.TicketLifecycle.{
  PreparedTicketTransition, transition, trace, lift, actor_objects, ended_assignment,
  require_ticket, require_assignment, require_actor, reconciled_owner, assemble, prepare_path,
  prepare_transition_path, prepare_transition,
}
use toaa.Application.TicketMoves.{
  TicketTransitionInput, Move, assignment_state_for_ticket, end_of_assignment, move_of,
  initiator_id,
}
use toaa.Application.ActorCapacity.{reconcile_actor_capacity}

resumed-walk :
    (t : Ticket) (reason : Option PendingReason)
    → t.state ≡ pending
    → is_some t.active_assignment_id ≡ true
    → walk t reason t.state (in_progress ∷ []) ≡ ok in_progress
resumed-walk t reason state assigned =
    (walk-iff_Route t reason t.state (in_progress ∷ []) in_progress).1
      (rw state (Route.move Edge.resume assigned Route.here))

resumed-moves :
    (t : Ticket) (reason : Option PendingReason) (now : Timestamp)
    → t.state ≡ pending
    → is_some t.active_assignment_id ≡ true
    → (t' : Ticket) × (transition_ticket_path t (in_progress ∷ []) reason now ≡ ok t')
unfolding transition_ticket_path
resumed-moves t reason now state assigned =
    (_, >>=-ok _ (resumed-walk t reason state assigned) refl)

module _ {E : Type 0} (repo : RepositoryPort E) (hash : TraceHashInput → Digest) (draw : ℕ → Draw)
    (event_id : ObjectId) (now : Timestamp) where
  assigned-some :
      (o : Option ObjectId) {a : TicketAssignment}
      → require_assignment {E = E} repo o ≡ ok (some a)
      → is_some o ≡ true
  unfolding require_assignment
  assigned-some none h = absurd (ground arith)
  assigned-some (some id) h = refl

  reconciled_owner-succeeds :
      (a : TicketAssignment) (owner : ActorRegistration)
      → a.capacity_consumed ≡ true
      → require_actor {E = E} repo a.assignee_actor_id ≡ ok owner
      → reconciled_owner {E = E} repo (some a) in_progress now
        ≡ ok (actor_objects (reconcile_actor_capacity owner a.id in_progress now))
  unfolding reconciled_owner reconcile_actor_capacity
  reconciled_owner-succeeds a owner consumes reads = rw (consumes, reads) refl

  assemble-succeeds :
      (m : Move) {a : TicketAssignment} {owner : ActorRegistration}
      {existing : List TicketTraceEvent}
      → m.ticket.state ≡ pending
      → is_some m.ticket.active_assignment_id ≡ true
      → m.assignment ≡ some a
      → m.assignment_next ≡ none
      → a.capacity_consumed ≡ true
      → require_actor {E = E} repo a.assignee_actor_id ≡ ok owner
      → list_trace hash m.ticket.id repo.trace_events ≡ ok existing
      → (p : PreparedTicketTransition) × (assemble repo hash draw event_id now m
            (in_progress ∷ [])
            in_progress
          ≡ ok p)
  unfolding assemble ended_assignment
  assemble-succeeds m {a} {owner} state assigned is_a is_next consumes reads lists =
      let (t', moves) = resumed-moves m.ticket m.input.pending_reason now state assigned in
      let settles : reconciled_owner {E = E} repo m.assignment in_progress now
          ≡ ok (actor_objects (reconcile_actor_capacity owner a.id in_progress now)) =
        rw is_a (reconciled_owner-succeeds a owner consumes reads) in
      let ends : ended_assignment {E = E} m.assignment m.assignment_next now ≡ ok [] =
        rw (is_a, is_next) refl in
      (
        _,
        >>=-ok _ (ap (lift transition) moves)
            (>>=-ok _ (ap (lift trace) lists) (>>=-ok _ ends (>>=-ok _ settles refl))),
      )

  -- A pending Ticket with an accepted assignment can be taken up again.
  pub prepare_transition-succeeds :
      (id : ObjectId) (input : TicketTransitionInput) {t : Ticket} {a : TicketAssignment}
      {owner : ActorRegistration} {existing : List TicketTraceEvent}
      → require_ticket repo id ≡ ok t
      → is_some t.registered_at ≡ true
      → require_assignment {E = E} repo t.active_assignment_id ≡ ok (some a)
      → a.state ≡ AssignmentState.accepted
      → a.capacity_consumed ≡ true
      → require_actor {E = E} repo a.assignee_actor_id ≡ ok owner
      → input.initiator_actor_id ≡ none
      → t.state ≡ pending
      → list_trace hash t.id repo.trace_events ≡ ok existing
      → (p : PreparedTicketTransition) × (prepare_transition repo hash draw event_id now id
            in_progress input
          ≡ ok p)
  unfolding prepare_transition prepare_transition_path prepare_path move_of
      assignment_state_for_ticket end_of_assignment TicketState-discrete
  prepare_transition-succeeds id input {t} {a} {owner} r registered ra accepted consumes ro own
        state lists =
      let m = move_of now t (some a) owner in_progress input in
      let next : m.assignment_next ≡ none = rw accepted refl in
      let (p, made) =
        assemble-succeeds m state (assigned-some t.active_assignment_id ra) refl next consumes ro
          lists in
      let acts : require_actor {E = E} repo (initiator_id t (some a) input) ≡ ok owner =
        rw own ro in
      (
        p,
        >>=-ok _ r (
            require-then _ registered
              (>>=-ok _ ra (require-then _ (rw accepted refl) (>>=-ok _ acts made)))),
      )
