-- ===== src/Tests/Blockers.antt =====
-- A Story gets a blocker while it is in progress, and is taken up again once the blocker goes.
use toaa.Base.{
  ℕ, true, List, [], ◌∷◌, String, Result, ok, err, Memᴰ, ◌==◌, if◌then◌else◌, ◌≡◌, refl,
}
use toaa.Domain.StateMachine.{assert_state_transition}
use toaa.Domain.Objects.{ObjectId}
use toaa.Domain.Tickets.Types.{TicketState}
use toaa.Domain.Tickets.Ticket.{Ticket, is_corrective_ticket}
use toaa.Domain.Tickets.Transitions.{
  ticket_transitions, TicketState-discrete, check_entry, enter, walk, arrive,
  transition_ticket_path,
}
use toaa.Domain.ProjectManagement.Trace.{verify_from, verify_ticket_trace}
use toaa.Application.TicketTrace.{build_events, build, list_trace}
use toaa.Domain.ProjectManagement.Actor.{ActorRegistration}
use toaa.Application.Repository.{actor_object, PersistedObject, ticket_object, RepositoryPort}
use toaa.Application.TicketLifecycle.{
  ended_assignment, require_ticket, require_assignment, require_actor, reconciled_owner, outcome,
  assemble, prepare_path, prepare_transition_path, prepare_transition,
}
use toaa.Application.ActorCapacity.{holds_capacity, reconcile_actor_capacity}
use toaa.Application.TicketMoves.{
  end_of_assignment, assignment_state_for_ticket, move_of, updated_ticket,
}
use toaa.Application.TicketLifecycle.Owners.{Owned}
use toaa.Application.TicketBlockers.{
  BlockerError, processing_actor, park, prepare, take_up, unblock,
}
use toaa.Application.BlockerEdges.{BlockReason, executes, without}
use toaa.Application.TicketBlockers.Held.{Held, prepare-Held}
use toaa.Application.TicketBlockers.Resumed.{unblock-Owned}
use toaa.Tests.Moves.{coder, registered, stored, hash, draw}

abbrev with_ticket : Ticket → RepositoryPort ℕ
with_ticket t = record {
  read = λ id. if id == 10 then ok (ticket_object t) else stored id;
  tickets = t ∷ [];
  trace_events = [];
}

abbrev id_text : ObjectId → String
id_text id = "id"

abbrev busy : Ticket
busy = record registered { state = TicketState.in_progress }

abbrev or_nothing : Result (BlockerError ℕ) (List PersistedObject) → List PersistedObject
or_nothing (ok objects) = objects
or_nothing (err e) = []

abbrev parked : List PersistedObject
parked =
    or_nothing (prepare id_text (with_ticket busy) hash draw 300 "t2" busy 11 BlockReason.defect)

parks : prepare id_text (with_ticket busy) hash draw 300 "t2" busy 11 BlockReason.defect ≡ ok parked
unfolding prepare processing_actor park prepare_transition prepare_transition_path prepare_path
    require_ticket require_assignment require_actor assemble outcome move_of ended_assignment
    reconciled_owner list_trace verify_ticket_trace verify_from transition_ticket_path walk enter
    check_entry assert_state_transition TicketState-discrete assignment_state_for_ticket
    end_of_assignment is_corrective_ticket ticket_transitions
parks = refl

busy-stored : require_ticket {E = ℕ} (with_ticket busy) 10 ≡ ok busy
unfolding require_ticket
busy-stored = refl

prepare-Held_example : Held busy 11 parked
prepare-Held_example =
    prepare-Held id_text (with_ticket busy) hash draw 300 "t2" busy 11 BlockReason.defect
      busy-stored parks

abbrev blocked : Ticket
blocked = record registered { blocked_by_ticket_ids = 11 ∷ [] }

abbrev taken_up : List PersistedObject
taken_up = or_nothing (unblock id_text (with_ticket blocked) hash draw 300 "t2" blocked 11 true)

takes_up : unblock id_text (with_ticket blocked) hash draw 300 "t2" blocked 11 true ≡ ok taken_up
unfolding unblock take_up prepare_transition prepare_transition_path prepare_path require_ticket
    require_assignment require_actor assemble outcome move_of ended_assignment reconciled_owner
    list_trace verify_ticket_trace verify_from transition_ticket_path walk enter check_entry
    assert_state_transition TicketState-discrete assignment_state_for_ticket end_of_assignment
    is_corrective_ticket ticket_transitions
takes_up = refl

abbrev ticket_among : List PersistedObject → Ticket
ticket_among [] = blocked
ticket_among (ticket_object t ∷ objects) = t
ticket_among (o ∷ objects) = ticket_among objects

runs_again :
    Memᴰ (ticket_object (ticket_among taken_up)) taken_up
    × (executes (ticket_among taken_up).state ≡ true)
unfolding unblock take_up prepare_transition prepare_transition_path prepare_path require_ticket
    require_assignment require_actor assemble outcome move_of ended_assignment reconciled_owner
    list_trace verify_ticket_trace verify_from transition_ticket_path walk enter check_entry
    assert_state_transition TicketState-discrete assignment_state_for_ticket end_of_assignment
    is_corrective_ticket ticket_transitions build build_events reconcile_actor_capacity
    holds_capacity updated_ticket arrive
runs_again = (Memᴰ.tail (Memᴰ.head refl), refl)

unblock-Owned_example : (without blocked 11 ≡ []) × Owned (with_ticket blocked) 10
unblock-Owned_example =
    unblock-Owned id_text (with_ticket blocked) hash draw 300 "t2" blocked 11 true takes_up
      runs_again.0 refl runs_again.1

-- The coder has parked the Story and works on something else.
abbrev full_coder : ActorRegistration
full_coder = record coder { active_assignment_ids = 75 ∷ [] }

abbrev crowded : RepositoryPort ℕ
crowded = record {
  read = λ id.
      if id == 10
      then ok (ticket_object blocked)
      else if id == 71
      then ok (actor_object full_coder)
      else stored id;
  tickets = blocked ∷ [];
  trace_events = [];
}
