-- ===== src/Domain/Tickets/Transitions.antt =====
-- src/domain/tickets/ticket.ts, transitionTicket and transitionTicketPath.
pub mod Routes
pub mod Single
pub mod Invariant
use toaa.Base.{
  Bool, List, [], ◌∷◌, Option, none, some, Result, ok, ◌>>=◌, ◌>>◌, require, same, is_some, ◌&&◌,
  not, if◌then◌else◌,
}
use toaa.Domain.StateMachine.{
  StateTransitions, InvalidTransition, includes, assert_state_transition,
}
use toaa.Domain.Objects.{ObjectId, Timestamp, revise_object_envelope}
use toaa.Domain.Roles.{PendingReason}
use toaa.Domain.Tickets.Types.{
  TicketState, created, in_progress, pending, resolved, reopened, cancelled, closed,
}
use toaa.Domain.Tickets.Ticket.{Ticket, ticket_type, is_corrective_ticket}

-- What the transition throws.
pub data TransitionError : Type 0 where
  invalid_transition : InvalidTransition TicketState → TransitionError
  pending_reason_required : ObjectId → TransitionError
  solution_required : ObjectId → TransitionError
  assignment_required : ObjectId → TransitionError

-- `TICKET_TRANSITIONS`
unfoldable pub ticket_transitions : StateTransitions TicketState
ticket_transitions created = in_progress ∷ pending ∷ cancelled ∷ []
ticket_transitions in_progress = pending ∷ resolved ∷ cancelled ∷ []
ticket_transitions pending = in_progress ∷ cancelled ∷ []
ticket_transitions resolved = closed ∷ reopened ∷ []
ticket_transitions reopened = in_progress ∷ cancelled ∷ []
ticket_transitions cancelled = reopened ∷ closed ∷ []
ticket_transitions closed = []

unfoldable pub TicketState-discrete : Discrete TicketState
TicketState-discrete = hlevel

abbrev pub same_state : TicketState → TicketState → Bool
same_state = same TicketState-discrete

-- The three checks in the body of the loop, in their order.
unfoldable pub check_entry :
    Ticket → Option PendingReason → TicketState → Result TransitionError (Unit {0})
unfolding is_corrective_ticket TicketState-discrete
check_entry t reason next = do
  require (not (same_state next pending && not (is_some reason))) (pending_reason_required t.id)
  require
      (not (
        same_state next resolved
        && is_corrective_ticket (ticket_type t)
        && not (is_some t.solution)))
      (solution_required t.id)
  require (not (same_state next in_progress && not (is_some t.active_assignment_id)))
      (assignment_required t.id)

-- One round of the loop: the new value of `current`.
unfoldable pub enter :
    Ticket → Option PendingReason → TicketState → TicketState → Result TransitionError TicketState
enter t reason current next = do
  changed ← assert_state_transition TicketState-discrete current next ticket_transitions (
      invalid_transition
        (record { machine = "ticket"; entity_id = t.id; from = current; to = next }))
  if changed then check_entry t reason next >> ok next else ok current

-- The loop over the path.
unfoldable pub walk :
    Ticket
    → Option PendingReason
    → TicketState
    → List TicketState
    → Result TransitionError TicketState
walk t reason current [] = ok current
walk t reason current (next ∷ path) = do
  current' ← enter t reason current next
  walk t reason current' path

-- The Ticket that the path leads to, with its one revision and the times of the states passed.
unfoldable pub arrive :
    Ticket → List TicketState → TicketState → Option PendingReason → Timestamp → Ticket
unfolding TicketState-discrete revise_object_envelope
arrive t path final reason now = record t {
  envelope = revise_object_envelope t.envelope none now;
  state = final;
  pending_reason = if same_state final pending then reason else none;
  resolved_at = if includes TicketState-discrete path resolved then some now else t.resolved_at;
  closed_at = if includes TicketState-discrete path closed then some now else t.closed_at;
  cancelled_at = if includes TicketState-discrete path cancelled then some now else t.cancelled_at;
}

-- `transitionTicketPath`
unfoldable pub transition_ticket_path :
    Ticket → List TicketState → Option PendingReason → Timestamp → Result TransitionError Ticket
unfolding arrive TicketState-discrete
transition_ticket_path t [] reason now = ok t
transition_ticket_path t (next ∷ rest) reason now = do
  final ← walk t reason t.state (next ∷ rest)
  ok (if same_state final t.state then t else arrive t (next ∷ rest) final reason now)

-- `transitionTicket`
unfoldable pub transition_ticket :
    Ticket → TicketState → Option PendingReason → Timestamp → Result TransitionError Ticket
transition_ticket t next reason now = transition_ticket_path t (next ∷ []) reason now
