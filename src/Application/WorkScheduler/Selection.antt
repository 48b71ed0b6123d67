-- ===== src/Application/WorkScheduler/Selection.antt =====
-- src/application/project_management/work_scheduler.ts: which Tickets and Stories it selects from.
use toaa.Base.{
  ℕ, Bool, true, false, not, ◌&&◌, ◌||◌, List, [], ◌∷◌, ◌++◌, Option, none, some, ◌==◌, same_option,
  is_some, ltb, length, any, all, keep, find, reverse, sort, if◌then◌else◌,
}
use toaa.Domain.Objects.{ObjectId}
use toaa.Domain.Tickets.Types.{TicketState, TicketType, WorkKind}
use toaa.Domain.Tickets.Ticket.{
  Ticket, TicketDetail, work, bug, enhancement, change_request, ticket_type, work_step_id, WorkType,
}
use toaa.Domain.Steps.{Step, StepState, step_type_order}

-- `isActiveTicket`
unfoldable pub is_active_ticket : TicketState → Bool
is_active_ticket TicketState.closed = false
is_active_ticket TicketState.cancelled = false
is_active_ticket _ = true

abbrev pub is_resolved : TicketState → Bool
is_resolved TicketState.resolved = true
is_resolved _ = false

abbrev pub is_in_progress : TicketState → Bool
is_in_progress TicketState.in_progress = true
is_in_progress _ = false

abbrev pub is_closed_step : StepState → Bool
is_closed_step StepState.closed = true
is_closed_step _ = false

abbrev pub is_in_progress_step : StepState → Bool
is_in_progress_step StepState.in_progress = true
is_in_progress_step _ = false

-- `dependency.state === 'resolved' || dependency.state === 'closed'`
abbrev pub is_done : TicketState → Bool
is_done TicketState.resolved = true
is_done TicketState.closed = true
is_done _ = false

abbrev pub is_unblocked : Ticket → Bool
is_unblocked t = length t.blocked_by_ticket_ids == 0

-- `correctionRank`
unfoldable pub correction_rank : TicketType → ℕ
correction_rank TicketType.change_request = 3
correction_rank TicketType.bug = 2
correction_rank TicketType.enhancement = 1
correction_rank _ = 0

-- The comparator of the corrective Tickets: rank, then priority, then the older id.
unfoldable pub precedes : Ticket → Ticket → Bool
unfolding correction_rank
precedes x y =
    let a = correction_rank (ticket_type x) in
    let b = correction_rank (ticket_type y) in
    ltb b a
    || (a == b && (ltb y.priority x.priority || (x.priority == y.priority && ltb x.id y.id)))

-- The last of the conditions of `activeCorrectiveTickets`.
unfoldable pub repairs : ObjectId → TicketDetail → Option ObjectId → Bool
repairs step_id (bug d) work_step_id =
    same_option work_step_id (some step_id) && length d.change_request_ticket_ids == 0
repairs step_id (enhancement d) work_step_id =
    same_option work_step_id (some step_id) && length d.change_request_ticket_ids == 0
repairs step_id (change_request d) work_step_id =
    d.target_step_id == step_id && not (any (λ a. a.step_id == step_id) d.applications)
repairs step_id (work d) work_step_id = false

unfoldable pub is_candidate : Step → Ticket → Bool
is_candidate step t =
    is_active_ticket t.state
    && not (is_resolved t.state)
    && not (is_some t.duplicate_of_ticket_id)
    && is_unblocked t
    && repairs step.id t.detail (work_step_id t)

-- `activeCorrectiveTickets`
unfoldable pub active_corrective_tickets : Step → List Ticket → List Ticket
active_corrective_tickets step tickets = sort precedes (keep (is_candidate step) tickets)

abbrev pub is_done? : Option Ticket → Bool
is_done? none = false
is_done? (some t) = is_done t.state

-- `ticketDependenciesReady`
unfoldable pub ticket_dependencies_ready : List Ticket → Ticket → Bool
ticket_dependencies_ready tickets t =
    all (λ id. is_done? (find (λ candidate. candidate.id == id) tickets)) t.dependency_ticket_ids

-- `readyCorrectiveTicket`
unfoldable pub ready_corrective_ticket : Step → List Ticket → Option Ticket
ready_corrective_ticket step tickets =
    find (ticket_dependencies_ready tickets) (active_corrective_tickets step tickets)

-- `scheduledStepId`
unfoldable pub scheduled_step_id : TicketDetail → Option ObjectId → Option ObjectId
scheduled_step_id (change_request d) work_step_id = some d.target_step_id
scheduled_step_id (bug d) work_step_id = work_step_id
scheduled_step_id (enhancement d) work_step_id = work_step_id
scheduled_step_id (work d) work_step_id = elim d.work_type [
  | WorkType.story ↦ elim d.work_kind [ WorkKind.v_model_step ↦ work_step_id | _ ↦ none ]
  | _ ↦ none
]

-- A Ticket in progress with its Step.
pub record Candidate : Type 0 where
  pub ticket : Ticket
  pub step : Step

abbrev pub stepped : Ticket → Option Step → List Candidate
stepped t none = []
stepped t (some s) = if is_closed_step s.state then [] else record { ticket = t; step = s } ∷ []

-- `stepById.get`: of two Steps with one id the map holds the later.
abbrev pub step_by_id : List Step → Option ObjectId → Option Step
step_by_id steps none = none
step_by_id steps (some id) = find (λ s. s.id == id) (reverse steps)

-- The Tickets in progress that nothing blocks, each with its Step, if that is there and not closed.
unfoldable pub in_progress_candidates : List Step → List Ticket → List Candidate
in_progress_candidates steps [] = []
in_progress_candidates steps (t ∷ ts) =
    let others = in_progress_candidates steps ts in
    if is_in_progress t.state && is_unblocked t
    then stepped t (step_by_id steps (scheduled_step_id t.detail (work_step_id t))) ++ others
    else others

-- The comparator of `inProgressWork`.
unfoldable pub precedes_in_progress : Candidate → Candidate → Bool
precedes_in_progress x y =
    let a = step_type_order x.step.type in
    let b = step_type_order y.step.type in ltb a b || (a == b && precedes x.ticket y.ticket)

-- The state of a Story that may be handed out.
abbrev pub is_open_story : TicketState → Bool
is_open_story TicketState.created = true
is_open_story TicketState.pending = true
is_open_story TicketState.reopened = true
is_open_story TicketState.in_progress = true
is_open_story _ = false

abbrev pub is_step_story : TicketDetail → Bool
is_step_story (work d) = elim d.work_type [
  | WorkType.story ↦ elim d.work_kind [ WorkKind.v_model_step ↦ true | _ ↦ false ]
  | _ ↦ false
]
is_step_story _ = false

abbrev pub is_story : TicketDetail → Bool
is_story (work d) = elim d.work_type [ WorkType.story ↦ true | _ ↦ false ]
is_story _ = false

-- The `tickets.find(…)` of `next`.
unfoldable pub story_of : Step → List Ticket → Option Ticket
story_of step tickets =
    find (λ t. is_step_story t.detail && same_option t.step_id (some step.id)) tickets

unfoldable pub story_ready : List Ticket → Ticket → Bool
story_ready tickets story =
    is_open_story story.state && is_unblocked story && ticket_dependencies_ready tickets story
