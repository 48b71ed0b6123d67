-- ===== src/Application/TicketLifecycle/Owners.antt =====
-- src/application/project_management/ticket_lifecycle_service.ts: the assignment of a Ticket that moves.
use toaa.Base.{
  ℕ, Bool, true, not, ◌&&◌, List, Option, none, some, ok, is_some, Memᴰ, ◌≡◌, refl, ap, ◌∙◌, arith,
}
use toaa.Domain.StateMachine.{includes}
use toaa.Domain.Objects.{ObjectId, Timestamp, Digest}
use toaa.Domain.Tickets.Types.{TicketState, in_progress}
use toaa.Domain.Tickets.Ticket.{Ticket}
use toaa.Domain.Tickets.Transitions.{TicketState-discrete}
use toaa.Domain.ProjectManagement.Assignment.{
  AssignmentState, TicketAssignment, transition_assignment,
}
use toaa.Domain.ProjectManagement.Trace.{TraceHashInput}
use toaa.Application.TicketTrace.{Draw}
use toaa.Application.Repository.{ticket_object, assignment_object, RepositoryPort}
use toaa.Application.TicketLifecycle.{
  PreparedTicketTransition, require_ticket, require_assignment, prepare_transition_path,
}
use toaa.Application.TicketMoves.{TicketTransitionInput, is_accepted, has_accepted}
use toaa.Application.TicketLifecycle.Prepared.{prepare_transition_path-Prepared}

has_accepted-some :
    (o : Option TicketAssignment)
    → has_accepted o ≡ true
    → (a : TicketAssignment) × (o ≡ some a) × (is_accepted a.state ≡ true)
has_accepted-some none h = absurd (ground arith)
has_accepted-some (some a) h = (a, refl, h)

not_and_not : (a b : Bool) → not (a && not b) ≡ true → a ≡ true → b ≡ true
not_and_not a b h k = ground arith

-- Who executes a Ticket whose move was prepared.
pub record Owned {E : Type 0} (repo : RepositoryPort E) (id : ObjectId) : Type 0 where
  pub t : Ticket
  pub a : TicketAssignment
  pub reads : require_ticket {E = E} repo id ≡ ok t
  pub registered : is_some t.registered_at ≡ true
  pub assigned : require_assignment repo t.active_assignment_id ≡ ok (some a)
  pub accepted : is_accepted a.state ≡ true

-- The assignment as the move leaves it and the Ticket without it, both among the objects to store.
pub record Settled (now : Timestamp) (a : TicketAssignment) (next : AssignmentState)
    (p : PreparedTicketTransition) : Type 0 where
  pub ended : TicketAssignment
  pub moves : transition_assignment a next now ≡ ok ended
  pub stores : Memᴰ (assignment_object ended) p.objects
  pub stores_ticket : Memᴰ (ticket_object p.ticket) p.objects
  pub clears : p.ticket.active_assignment_id ≡ none

module _ {E : Type 0} (repo : RepositoryPort E) (hash : TraceHashInput → Digest) (draw : ℕ → Draw)
    (event_id : ObjectId) (now : Timestamp) where
  -- A move is prepared along a path through in_progress only for a registered Ticket whose active
  -- assignment is stored and accepted.
  pub prepare_transition_path-Owned :
      (id : ObjectId) (path : List TicketState) (input : TicketTransitionInput)
      {p : PreparedTicketTransition}
      → prepare_transition_path repo hash draw event_id now id path input ≡ ok p
      → includes TicketState-discrete path in_progress ≡ true
      → Owned repo id
  prepare_transition_path-Owned id path input h executes =
      let (final, ends, prepared) =
        prepare_transition_path-Prepared repo hash draw event_id now id path input h in
      let (a, is_a, accepted) =
        has_accepted-some prepared.assignment (not_and_not _ _ prepared.guarded executes) in
      record {
        t = prepared.t;
        a = a;
        reads = prepared.reads;
        registered = prepared.registered;
        assigned = prepared.reads_assignment ∙ ap ok is_a;
        accepted = accepted;
      }
