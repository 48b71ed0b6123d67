-- ===== src/Application/WorkScheduler/Ready.antt =====
-- src/application/project_management/work_scheduler.ts: what makes a Ticket fit to be worked on,
-- said without the scheduler's lists and loops.
use toaa.Base.{
  true, not, List, [], ◌∷◌, none, ok, ◌≡◌, ◌≢◌, refl, ◌⊎◌, inl, inr, arith, ◌==◌, Memᴰ,
  Option-cases, and_true, ==_iff, find, all-Memᴰ, find-Memᴰ, length, is_some,
}
use toaa.Domain.Objects.{ObjectId}
use toaa.Domain.Tickets.Types.{TicketState}
use toaa.Domain.Tickets.Ticket.{Ticket, work_step_id}
use toaa.Domain.Steps.{Step, StepState}
use toaa.Application.Repository.{step_object, RepositoryPort}
use toaa.Application.WorkScheduler.Selection.{
  is_active_ticket, is_done, is_done?, is_unblocked, is_candidate, repairs,
  ticket_dependencies_ready,
}

-- The Ticket that an id stands for is resolved or closed.
pub record IsDone (tickets : List Ticket) (id : ObjectId) : Type 0 where
  pub dependency : Ticket
  pub known : Memᴰ dependency tickets
  pub named : dependency.id ≡ id
  pub over : (dependency.state ≡ TicketState.resolved) ⊎ (dependency.state ≡ TicketState.closed)

-- Nothing holds the Ticket back: no blocker, and every dependency is done.
pub record IsFree (tickets : List Ticket) (t : Ticket) : Type 0 where
  pub unblocked : t.blocked_by_ticket_ids ≡ []
  pub settled : (id : ObjectId) → Memᴰ id t.dependency_ticket_ids → IsDone tickets id

-- The Ticket has not ended and its work is not waiting for a verdict.
pub record IsOpen (t : Ticket) : Type 0 where
  pub not_closed : t.state ≢ TicketState.closed
  pub not_cancelled : t.state ≢ TicketState.cancelled
  pub not_resolved : t.state ≢ TicketState.resolved

-- Every Step that this one depends on is delivered or closed.
abbrev pub StepReady : {E : Type 0} → RepositoryPort E → Step → Type 0
StepReady repo step =
    (id : ObjectId)
    → Memᴰ id step.dependency_step_ids
    → (s : Step) × (repo.read id ≡ ok (step_object s))
      × ((s.state ≡ StepState.delivered) ⊎ (s.state ≡ StepState.closed))

is_done-over :
    (s : TicketState) → is_done s ≡ true → (s ≡ TicketState.resolved) ⊎ (s ≡ TicketState.closed)
is_done-over TicketState.resolved h = inl refl
is_done-over TicketState.closed h = inr refl
is_done-over _ h = cc

find-IsDone :
    (tickets : List Ticket) (id : ObjectId)
    → is_done? (find (λ candidate. candidate.id == id) tickets) ≡ true
    → IsDone tickets id
find-IsDone tickets id h = elim (Option-cases (find (λ candidate. candidate.id == id) tickets)) [
  | inl e ↦ cc
  | inr (d, e) ↦
      let (i, same) = find-Memᴰ (λ candidate. candidate.id == id) tickets e in
      record {
        dependency = d;
        known = i;
        named = (==_iff d.id id).0 same;
        over = is_done-over d.state (rw e at h);
      }
]

pub dependencies-settled :
    (tickets : List Ticket) (t : Ticket)
    → ticket_dependencies_ready tickets t ≡ true
    → (id : ObjectId) → Memᴰ id t.dependency_ticket_ids
    → IsDone tickets id
unfolding ticket_dependencies_ready
dependencies-settled tickets t h id i =
    find-IsDone tickets id (all-Memᴰ _ t.dependency_ticket_ids h i)

pub unblocked-nil : (t : Ticket) → is_unblocked t ≡ true → t.blocked_by_ticket_ids ≡ []
unblocked-nil t h =
    elim t.blocked_by_ticket_ids as (λ ids. (length ids == 0) ≡ true → ids ≡ []) [
      | [] ↦ λ _. refl
      | id ∷ ids ↦ λ e. absurd (ground arith)
    ]
      h

pub candidate-IsOpen : (step : Step) (t : Ticket) → is_candidate step t ≡ true → IsOpen t
unfolding is_candidate is_active_ticket
candidate-IsOpen step t h = record {
  not_closed = λ e. ground arith;
  not_cancelled = λ e. ground arith;
  not_resolved = λ e. ground arith;
}

-- The rest of what `activeCorrectiveTickets` asks for.
pub candidate-parts :
    (step : Step) (t : Ticket)
    → is_candidate step t ≡ true
    → (t.duplicate_of_ticket_id ≡ none)
      × (is_unblocked t ≡ true)
      × (repairs step.id t.detail (work_step_id t) ≡ true)
unfolding is_candidate
candidate-parts step t h =
    let (rest, repair) = and_true _ (repairs step.id t.detail (work_step_id t)) h in
    let (rest', unblocked) = and_true _ (is_unblocked t) rest in
    let (_, original) = and_true _ (not (is_some t.duplicate_of_ticket_id)) rest' in
    (
      elim (Option-cases t.duplicate_of_ticket_id) [ inl e ↦ e | inr (_, e) ↦ cc ],
      unblocked,
      repair,
    )
