-- ===== src/Application/WorkScheduler/Fitness.antt =====
-- src/application/project_management/work_scheduler.ts: the reasons to hand out a Ticket, and what
-- the Tickets in progress have in common.
use toaa.Base.{
  true, false, ◌&&◌, List, [], ◌∷◌, Option, none, some, ◌≡◌, ◌≢◌, refl, inl, inr, arith, ◌==◌, Memᴰ,
  Bool-cases, and_true, ==_iff, find-Memᴰ, Memᴰ-append, Memᴰ-reverse, reverse,
}
use toaa.Domain.Objects.{ObjectId}
use toaa.Domain.Tickets.Types.{TicketState}
use toaa.Domain.Tickets.Ticket.{Ticket, work_step_id}
use toaa.Domain.Steps.{Step, StepState}
use toaa.Application.Repository.{RepositoryPort}
use toaa.Application.WorkScheduler.Selection.{
  is_in_progress, is_closed_step, is_step_story, is_unblocked, repairs, scheduled_step_id,
  ticket_dependencies_ready, Candidate, step_by_id, stepped, in_progress_candidates,
}
use toaa.Application.WorkScheduler.Ready.{
  IsFree, IsOpen, StepReady, dependencies-settled, unblocked-nil,
}

-- Why a Ticket is handed out with a Step.
pub data Reason {E : Type 0} (repo : RepositoryPort E) (step : Step) (t : Ticket) : Type 0 where
  -- It is in progress already, at this Step.
  resumed :
      t.state ≡ TicketState.in_progress
      → scheduled_step_id t.detail (work_step_id t) ≡ some step.id
      → step.state ≢ StepState.closed
      → StepReady repo step
      → Reason repo step t
  -- It corrects this Step, closed or not, and is no duplicate.
  corrects :
      repairs step.id t.detail (work_step_id t) ≡ true
      → t.duplicate_of_ticket_id ≡ none
      → Reason repo step t
  -- It is the Story of this Step.
  story :
      is_step_story t.detail ≡ true
      → t.step_id ≡ some step.id
      → step.state ≢ StepState.closed
      → StepReady repo step
      → Reason repo step t

-- What holds of a Ticket that is handed out with a Step.
pub record IsFit {E : Type 0} (repo : RepositoryPort E) (step : Step) (t : Ticket) : Type 0 where
  pub known : Memᴰ t repo.tickets
  pub unfinished : IsOpen t
  pub free : IsFree repo.tickets t
  pub reason : Reason repo step t

pub not_closed-step : (s : StepState) → is_closed_step s ≡ false → s ≢ StepState.closed
not_closed-step s h e = ground arith

pub free :
    (tickets : List Ticket) (t : Ticket)
    → is_unblocked t ≡ true
    → ticket_dependencies_ready tickets t ≡ true
    → IsFree tickets t
free tickets t u d = record {
  unblocked = unblocked-nil t u;
  settled = dependencies-settled tickets t d;
}

pub in_progress-state : (s : TicketState) → is_in_progress s ≡ true → s ≡ TicketState.in_progress
in_progress-state TicketState.in_progress h = refl
in_progress-state _ h = cc

pub in_progress-IsOpen : (t : Ticket) → t.state ≡ TicketState.in_progress → IsOpen t
in_progress-IsOpen t e = record {
  not_closed = λ f. ground arith;
  not_cancelled = λ f. ground arith;
  not_resolved = λ f. ground arith;
}

stepped-Memᴰ :
    (t : Ticket) (s : Option Step) {c : Candidate}
    → Memᴰ c (stepped t s)
    → (c.ticket ≡ t) × (s ≡ some c.step) × (is_closed_step c.step.state ≡ false)
stepped-Memᴰ t none i = elim i [ ]
stepped-Memᴰ t (some s) i = elim (Bool-cases (is_closed_step s.state)) [
  | inl e ↦ elim (rw e at i) [ ]
  | inr e ↦ elim (rw e at i) [
    | Memᴰ.head same ↦ (rw same refl, rw same refl, rw same e)
    | Memᴰ.tail j ↦ elim j [ ]
  ]
]

pub step_by_id-Memᴰ :
    (steps : List Step) (id : Option ObjectId) {s : Step}
    → step_by_id steps id ≡ some s
    → Memᴰ s steps × (id ≡ some s.id)
step_by_id-Memᴰ steps none h = cc
step_by_id-Memᴰ steps (some id) {s} h =
    let (i, e) = find-Memᴰ (λ x. x.id == id) (reverse steps) h in
    let same : s.id ≡ id = (==_iff s.id id).0 e in (Memᴰ-reverse steps i, rw same refl)

-- What the candidates of `inProgressWork` have in common.
pub candidates-Memᴰ :
    (steps : List Step) (tickets : List Ticket) {c : Candidate}
    → Memᴰ c (in_progress_candidates steps tickets)
    → Memᴰ c.ticket tickets
      × (is_in_progress c.ticket.state ≡ true)
      × (is_unblocked c.ticket ≡ true)
      × (step_by_id steps (scheduled_step_id c.ticket.detail (work_step_id c.ticket)) ≡ some c.step)
      × (is_closed_step c.step.state ≡ false)
unfolding in_progress_candidates
candidates-Memᴰ steps [] i = elim i [ ]
candidates-Memᴰ steps (t ∷ ts) i = elim (Bool-cases (is_in_progress t.state && is_unblocked t)) [
  | inl e ↦ elim (Memᴰ-append (stepped t _) _ (rw e at i)) [
    | inl here ↦
        let (same, at, shut) = stepped-Memᴰ t _ here in
        let (going, unblocked) = and_true _ _ e in
        (Memᴰ.head same, rw same going, rw same unblocked, rw same at, shut)
    | inr later ↦ let (j, a, b, c, d) = candidates-Memᴰ steps ts later in (Memᴰ.tail j, a, b, c, d)
  ]
  | inr e ↦ let (j, a, b, c, d) = candidates-Memᴰ steps ts (rw e at i) in (Memᴰ.tail j, a, b, c, d)
]
