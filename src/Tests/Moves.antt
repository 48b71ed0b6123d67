-- ===== src/Tests/Moves.antt =====
-- A Ticket moves from pending through in_progress and resolved to closed.
use toaa.Base.{
  ℕ, ◌+◌, true, List, [], ◌∷◌, none, some, Result, ok, err, ◌==◌, or_else, if◌then◌else◌, ◌≡◌, refl,
}
use toaa.Domain.StateMachine.{includes, assert_state_transition}
use toaa.Domain.Objects.{ObjectId, ObjectType, Digest}
use toaa.Domain.Roles.{DomainRole}
use toaa.Domain.Tickets.Types.{TicketState, in_progress, resolved, closed}
use toaa.Domain.Tickets.Ticket.{Ticket, is_corrective_ticket}
use toaa.Domain.Tickets.Transitions.{
  ticket_transitions, TicketState-discrete, check_entry, enter, walk, transition_ticket_path,
}
use toaa.Domain.ProjectManagement.Assignment.{
  assignment_transitions, AssignmentState, AssignmentState-discrete, TicketAssignment,
  transition_assignment,
}
use toaa.Domain.ProjectManagement.Actor.{ActorState, ActorKind, ActorRegistration}
use toaa.Domain.ProjectManagement.Trace.{TraceHashInput, verify_from, verify_ticket_trace}
use toaa.Application.TicketTrace.{Draw, list_trace}
use toaa.Application.Repository.{
  PersistedObject, ticket_object, assignment_object, actor_object, RepositoryPort,
}
use toaa.Application.TicketLifecycle.{
  PreparedTicketTransition, LifecycleError, ended_assignment, require_ticket, require_assignment,
  require_actor, reconciled_owner, outcome, assemble, prepare_path, prepare_transition_path,
}
use toaa.Application.ActorCapacity.{holds_capacity, includes_id, reconcile_actor_capacity}
use toaa.Application.TicketMoves.{
  TicketTransitionInput, end_of_assignment, assignment_state_for_ticket, move_of,
}
use toaa.Application.TicketLifecycle.Capacity.{includes_id-reconcile_actor_capacity}
use toaa.Application.TicketLifecycle.Owners.{Owned, prepare_transition_path-Owned}
use toaa.Application.TicketLifecycle.Traces.{Traced, prepare_transition_path-Traced}
use toaa.Tests.Samples.{envelope_of, code_story}

abbrev pub registered : Ticket
registered = record code_story { registered_at = some "t0" }

abbrev pub job : TicketAssignment
job = record {
  envelope = envelope_of 70 ObjectType.ticket_assignment;
  ticket_id = 10;
  assignee_actor_id = 71;
  assigned_by_actor_id = 92;
  previous_assignment_id = none;
  parent_assignment_id = none;
  capacity_consumed = true;
  state = AssignmentState.accepted;
  required_capabilities = [];
  reason = "routed";
  proposed_at = "t0";
  accepted_at = some "t0";
  completed_at = none;
  released_at = none;
  declined_at = none;
  cancelled_at = none;
}

abbrev pub coder : ActorRegistration
coder = record {
  envelope = envelope_of 71 ObjectType.actor_registration;
  actor_kind = ActorKind.llm_agent;
  role = DomainRole.developer;
  role_definition_id = 72;
  agent = none;
  llm_binding = none;
  state = ActorState.active;
  capacity = 1;
  active_assignment_ids = 70 ∷ [];
  quality_score = none;
  reliability_score = none;
  registered_at = "t0";
  unavailable_reason = none;
}

abbrev pub stored : ObjectId → Result ℕ PersistedObject
stored id =
    if id == 10
    then ok (ticket_object registered)
    else if id == 70
    then ok (assignment_object job)
    else if id == 71
    then ok (actor_object coder)
    else err id

abbrev repo : RepositoryPort ℕ
repo = record { read = stored; tickets = registered ∷ []; trace_events = [] }

abbrev pub hash : TraceHashInput → Digest
hash body = body.sequence

abbrev pub draw : ℕ → Draw
draw n = record { fresh_id = 200 + n; clock = "t2" }

abbrev path : List TicketState
path = in_progress ∷ resolved ∷ closed ∷ []

abbrev input : TicketTransitionInput
input = record {
  initiator_actor_id = none;
  pending_reason = none;
  reason_code = none;
  reason = none;
  evidence_refs = none;
  before_trace = [];
}

abbrev or_idle : Result (LifecycleError ℕ) PreparedTicketTransition → PreparedTicketTransition
or_idle (ok p) = p
or_idle (err e) = record { ticket = registered; objects = [] }

-- What is prepared.
abbrev moved : PreparedTicketTransition
moved = or_idle (prepare_transition_path repo hash draw 300 "t2" 10 path input)

prepares : prepare_transition_path repo hash draw 300 "t2" 10 path input ≡ ok moved
unfolding prepare_transition_path prepare_path require_ticket require_assignment require_actor
    assemble outcome move_of ended_assignment reconciled_owner list_trace verify_ticket_trace
    verify_from transition_ticket_path walk enter check_entry assert_state_transition
    TicketState-discrete includes AssignmentState-discrete transition_assignment
    assignment_state_for_ticket end_of_assignment is_corrective_ticket ticket_transitions
    assignment_transitions
prepares = refl

reads : require_ticket {E = ℕ} repo 10 ≡ ok registered
unfolding require_ticket
reads = refl

executes : includes TicketState-discrete path in_progress ≡ true
unfolding TicketState-discrete includes
executes = refl

lists : list_trace hash registered.id repo.trace_events ≡ ok []
unfolding list_trace verify_ticket_trace verify_from
lists = refl

prepare_transition_path-Owned_example : Owned repo 10
prepare_transition_path-Owned_example =
    prepare_transition_path-Owned repo hash draw 300 "t2" 10 path input prepares executes

prepare_transition_path-Traced_example : Traced hash [] 3 moved
prepare_transition_path-Traced_example =
    prepare_transition_path-Traced repo hash draw 300 "t2" 10 path input reads lists
      (record { first = refl; last = refl; count = refl; seals = refl }) prepares

includes_id-reconcile_actor_capacity_example :
    includes_id
      (or_else (reconcile_actor_capacity coder 70 closed "t2") coder).active_assignment_ids
      70
    ≡ (if 70 == 70 then holds_capacity closed else includes_id coder.active_assignment_ids 70)
includes_id-reconcile_actor_capacity_example =
    includes_id-reconcile_actor_capacity coder 70 closed "t2" 70
