-- ===== src/Tests/Lifecycle.antt =====
-- The life cycles of Tickets, Steps, Phases and Projects on the test data.
use toaa.Base.{
  true, false, List, [], ◌∷◌, none, some, ok, ◌≡◌, ◌≢◌, refl, ◌⊎◌, ◌↔◌, ◌+◌, keep, last?, arith,
}
use toaa.Domain.StateMachine.{assert_state_transition, includes}
use toaa.Domain.Roles.{PendingReason}
use toaa.Domain.Tickets.Types.{TicketState, created, in_progress, resolved, cancelled, closed}
use toaa.Domain.Tickets.Ticket.{Ticket, ticket_type, is_corrective_ticket}
use toaa.Domain.Tickets.Transitions.{
  TicketState-discrete, ticket_transitions, check_entry, enter, walk, arrive,
  transition_ticket_path,
}
use toaa.Domain.Tickets.Transitions.Routes.{Route, walk-iff_Route}
use toaa.Domain.Tickets.Transitions.Invariant.{
  IsConsistent, transition-IsConsistent, transition-one_revision, transition-closed_unsolved,
}
use toaa.Domain.Tickets.Retry.{
  AttemptFailureEvidence, evaluate_attempt_extension, is_relevant, is_tool_loop, signatures,
}
use toaa.Domain.Tickets.Retry.Convergence.{Converges, evaluate_attempt_extension_iff}
use toaa.Domain.Steps.{
  Step, StepState, step_transitions, step_satisfies_dependency, transition_step,
}
use toaa.Domain.Phases.{Phase, PhaseState, phase_transitions, parse_phase, transition_phase}
use toaa.Domain.Phases.Laws as Phases
use toaa.Domain.Projects.{
  Project, ProjectState, project_transitions, parse_project, transition_project,
}
use toaa.Domain.Projects.Laws as Projects
use toaa.Tests.Samples.{shop, first_phase, code_step, solved, new_bug}

abbrev solved_bug : Ticket
solved_bug = record new_bug { solution = some solved }

abbrev to_close : List TicketState
to_close = in_progress ∷ resolved ∷ closed ∷ []

abbrev closed_bug : Ticket
closed_bug = record new_bug { state = closed }

walk-iff_Route_example :
    (walk solved_bug none created to_close ≡ ok closed)
    ↔ Route solved_bug none created to_close closed
walk-iff_Route_example = walk-iff_Route solved_bug none created to_close closed

abbrev solved_and_closed : Ticket
solved_and_closed = record solved_bug {
  envelope = record solved_bug.envelope { revision = 5; updated_at = "t9" };
  state = closed;
  resolved_at = some "t9";
  closed_at = some "t9";
}

closes : transition_ticket_path solved_bug to_close none "t9" ≡ ok solved_and_closed
unfolding transition_ticket_path walk enter check_entry assert_state_transition ticket_transitions
    arrive
closes = refl

new_bug-IsConsistent : IsConsistent solved_bug
new_bug-IsConsistent = (tt, λ _. refl)

transition-IsConsistent_example : IsConsistent solved_and_closed
transition-IsConsistent_example =
    transition-IsConsistent solved_bug to_close none "t9" new_bug-IsConsistent closes

transition-one_revision_example :
    (solved_and_closed ≡ solved_bug)
    ⊎ ((solved_and_closed.state ≢ solved_bug.state)
        × (solved_and_closed.revision ≡ solved_bug.revision + 1)
        × (solved_and_closed.id ≡ solved_bug.id)
        × (solved_and_closed.project_id ≡ solved_bug.project_id)
        × (solved_and_closed.envelope.created_at ≡ solved_bug.envelope.created_at))
transition-one_revision_example = transition-one_revision solved_bug to_close none "t9" closes

stays_closed : transition_ticket_path closed_bug (closed ∷ []) none "t9" ≡ ok closed_bug
unfolding transition_ticket_path walk enter assert_state_transition
stays_closed = refl

abbrev to_archive : List TicketState
to_archive = cancelled ∷ closed ∷ []

abbrev archived_bug : Ticket
archived_bug = record new_bug {
  envelope = record new_bug.envelope { revision = 5; updated_at = "t9" };
  state = closed;
  closed_at = some "t9";
  cancelled_at = some "t9";
}

archives : transition_ticket_path new_bug to_archive none "t9" ≡ ok archived_bug
unfolding transition_ticket_path walk enter check_entry assert_state_transition ticket_transitions
    arrive
archives = refl

corrective : is_corrective_ticket (ticket_type new_bug) ≡ true
unfolding is_corrective_ticket
corrective = refl

transition-closed_unsolved_example : includes TicketState-discrete to_archive cancelled ≡ true
transition-closed_unsolved_example =
    transition-closed_unsolved new_bug to_archive none "t9" corrective refl (λ e. ground arith)
      (λ e. ground arith) (λ e. ground arith) archives refl

abbrev failure : AttemptFailureEvidence
failure = record {
  signature = some "red";
  category = some "test";
  toolchain_build_id = some "b1";
  step_context_fingerprint = none;
}

abbrev three_failures : List AttemptFailureEvidence
three_failures = failure ∷ failure ∷ failure ∷ []

evaluate_attempt_extension_iff_example :
    ((evaluate_attempt_extension three_failures (some "b1") none).extend ≡ true) ↔ (
      (three_failures ≢ []) × (keep (is_relevant (some "b1") none) three_failures ≡ [])
      ⊎ (is_tool_loop (last? (keep (is_relevant (some "b1") none) three_failures)) ≡ false)
        × (signatures (keep (is_relevant (some "b1") none) three_failures) ≢ [])
        × Converges (signatures (keep (is_relevant (some "b1") none) three_failures)))
evaluate_attempt_extension_iff_example =
    evaluate_attempt_extension_iff three_failures (some "b1") none

abbrev started_step : Step
started_step = record code_step {
  envelope = record code_step.envelope { revision = 5; updated_at = "t9" };
  state = StepState.in_progress;
  pending_reason = none;
}

starts : transition_step code_step StepState.in_progress none "t9" ≡ ok started_step
unfolding transition_step assert_state_transition step_transitions
starts = refl

abbrev delivered_step : Step
delivered_step = record code_step { state = StepState.delivered; pending_reason = none }

abbrev closed_step : Step
closed_step = record delivered_step {
  envelope = record code_step.envelope { revision = 5; updated_at = "t9" };
  state = StepState.closed;
}

step_closes : transition_step delivered_step StepState.closed none "t9" ≡ ok closed_step
unfolding transition_step assert_state_transition step_transitions
step_closes = refl

delivered-satisfies : step_satisfies_dependency delivered_step.state ≡ true
unfolding step_satisfies_dependency
delivered-satisfies = refl

phase-IsConsistent : Phases.IsConsistent first_phase
phase-IsConsistent = record {
  materialized = λ _ e. ground arith;
  reasoned = (λ e. ground arith, λ e. ground arith);
}

abbrev delivered_phase : Phase
delivered_phase = record first_phase {
  envelope = record first_phase.envelope { revision = 5; updated_at = "t9" };
  state = PhaseState.delivered;
}

transition_phase-iff_MayEnter_example :
    (transition_phase first_phase PhaseState.delivered none "t9" ≡ ok delivered_phase) ↔ (
      Phases.Edge PhaseState.in_progress PhaseState.delivered
      × Phases.MayEnter first_phase none PhaseState.delivered
      × (Phases.moved first_phase PhaseState.delivered none "t9" ≡ delivered_phase))
transition_phase-iff_MayEnter_example =
    Phases.transition_phase-iff_MayEnter first_phase delivered_phase PhaseState.delivered none "t9"
      (λ e. ground arith)

phase_delivers : transition_phase first_phase PhaseState.delivered none "t9" ≡ ok delivered_phase
unfolding transition_phase assert_state_transition phase_transitions parse_phase
phase_delivers = refl

project-IsConsistent : Projects.IsConsistent shop
project-IsConsistent = record {
  own_id = refl;
  current_known = refl;
  reasoned = (λ e. ground arith, λ e. ground arith);
}

abbrev parked_shop : Project
parked_shop = record shop {
  envelope = record shop.envelope { revision = 5; updated_at = "t9" };
  state = ProjectState.pending;
  pending_reason = some PendingReason.scheduled;
}

transition_project-iff_MayEnter_example :
    (transition_project shop ProjectState.pending (some PendingReason.scheduled) "t9"
      ≡ ok parked_shop)
    ↔ (Projects.MayEnter shop (some PendingReason.scheduled) ProjectState.pending
        × (Projects.moved shop ProjectState.pending (some PendingReason.scheduled) "t9"
            ≡ parked_shop))
transition_project-iff_MayEnter_example =
    Projects.transition_project-iff_MayEnter shop parked_shop ProjectState.pending
      (some PendingReason.scheduled) "t9" (λ e. ground arith)

project_parks :
    transition_project shop ProjectState.pending (some PendingReason.scheduled) "t9"
    ≡ ok parked_shop
unfolding transition_project assert_state_transition project_transitions parse_project
project_parks = refl
