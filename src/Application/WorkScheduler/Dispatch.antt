-- ===== src/Application/WorkScheduler/Dispatch.antt =====
-- src/application/project_management/work_scheduler.ts: what the scheduler reads and hands out.
use toaa.Base.{
  Bool, true, false, ◌&&◌, List, [], ◌∷◌, Option, none, some, Result, ok, err, ◌>>=◌, same_option,
  ltb, keep, find, sort, if◌then◌else◌,
}
use toaa.Domain.Objects.{ObjectId}
use toaa.Domain.Tickets.Ticket.{Ticket}
use toaa.Domain.Steps.{Step, step_type_order, step_satisfies_dependency}
use toaa.Domain.Phases.{Phase}
use toaa.Application.Repository.{PersistedObject, phase_object, step_object, RepositoryPort}
use toaa.Application.WorkScheduler.Selection.{
  is_closed_step, is_in_progress_step, is_in_progress, is_story, ready_corrective_ticket,
  ticket_dependencies_ready, Candidate, in_progress_candidates, precedes_in_progress, story_of,
  story_ready,
}

-- What the scheduler throws, or passes on from the repository.
pub data SchedulerError (E : Type 0) : Type 0 where
  repository : E → SchedulerError E
  not_a_phase : ObjectId → SchedulerError E
  not_a_step : ObjectId → SchedulerError E
  multiple_in_progress : List ObjectId → SchedulerError E
  no_active_ticket : ObjectId → SchedulerError E

-- `ScheduledWork`
pub record ScheduledWork : Type 0 where
  pub phase : Phase
  pub step : Step
  pub ticket : Ticket

abbrev pub ids_of : List Step → List ObjectId
ids_of [] = []
ids_of (s ∷ ss) = s.id ∷ ids_of ss

abbrev pub as_phase : {E : Type 0} → ObjectId → PersistedObject → Result (SchedulerError E) Phase
as_phase id (phase_object p) = ok p
as_phase id _ = err (not_a_phase id)

abbrev pub as_step : {E : Type 0} → ObjectId → PersistedObject → Result (SchedulerError E) Step
as_step id (step_object s) = ok s
as_step id _ = err (not_a_step id)

abbrev pub satisfies : PersistedObject → Bool
satisfies (step_object s) = step_satisfies_dependency s.state
satisfies _ = false

module _ {E : Type 0} (repo : RepositoryPort E) where
  -- `this.repository.read`
  abbrev pub read : ObjectId → Result (SchedulerError E) PersistedObject
  read id = elim (repo.read id) [ ok object ↦ ok object | err e ↦ err (repository e) ]

  -- `requirePhase`
  unfoldable pub require_phase : ObjectId → Result (SchedulerError E) Phase
  require_phase id = do object ← read id; as_phase id object

  read_steps : List ObjectId → Result (SchedulerError E) (List Step)
  read_steps [] = ok []
  read_steps (id ∷ ids) = do
    object ← read id
    step ← as_step id object
    steps ← read_steps ids
    ok (step ∷ steps)

  -- `phaseSteps`
  unfoldable pub phase_steps : Phase → Result (SchedulerError E) (List Step)
  unfolding read_steps
  phase_steps phase = do
    steps ← read_steps phase.step_ids
    ok (sort (λ a b. ltb (step_type_order a.type) (step_type_order b.type)) steps)

  -- `stepDependenciesReady`, on the ids: every dependency is read before the verdict.
  unfoldable pub dependencies_ready : List ObjectId → Result (SchedulerError E) Bool
  dependencies_ready [] = ok true
  dependencies_ready (id ∷ ids) = do
    object ← read id
    others ← dependencies_ready ids
    ok (satisfies object && others)

  -- The loop of `inProgressWork` over the sorted candidates.
  unfoldable pub first_ready :
      Phase → List Candidate → Result (SchedulerError E) (Option ScheduledWork)
  first_ready phase [] = ok none
  first_ready phase (c ∷ cs) = do
    step_ready ← dependencies_ready c.step.dependency_step_ids
    elim (step_ready && ticket_dependencies_ready repo.tickets c.ticket) [
      | true ↦ ok (some (record { phase = phase; step = c.step; ticket = c.ticket }))
      | false ↦ first_ready phase cs
    ]

  -- `inProgressWork`
  unfoldable pub in_progress_work :
      Phase → List Step → Result (SchedulerError E) (Option ScheduledWork)
  unfolding in_progress_candidates precedes_in_progress
  in_progress_work phase steps =
      first_ready phase (sort precedes_in_progress (in_progress_candidates steps repo.tickets))

  -- The Story that was found, if it is ready.
  unfoldable pub offer : Option Ticket → Option Ticket
  offer none = none
  offer (some story) = if story_ready repo.tickets story then some story else none

  -- The part of the loop of `next` that considers the Story of one Step.
  unfoldable pub story_work : Step → Result (SchedulerError E) (Option Ticket)
  story_work step = elim (is_closed_step step.state) [
    | true ↦ ok none
    | false ↦ do
      step_ready ← dependencies_ready step.dependency_step_ids
      ok (if step_ready then offer (story_of step repo.tickets) else none)
  ]

  -- One round of the loop of `next`.
  unfoldable pub step_work : Step → Result (SchedulerError E) (Option Ticket)
  step_work step = elim (ready_corrective_ticket step repo.tickets) [
    | some corrective ↦ ok (some corrective)
    | none ↦ story_work step
  ]

  -- The loop of `next` over the Steps.
  unfoldable pub scan : Phase → List Step → Result (SchedulerError E) (Option ScheduledWork)
  scan phase [] = ok none
  scan phase (step ∷ steps) = do
    found ← step_work step
    elim found [
      | some ticket ↦ ok (some (record { phase = phase; step = step; ticket = ticket }))
      | none ↦ scan phase steps
    ]

  -- What `next` does once the Phase and its Steps are read.
  unfoldable pub next_among : Phase → List Step → Result (SchedulerError E) (Option ScheduledWork)
  next_among phase steps = do
    resumed ← in_progress_work phase steps
    elim resumed [ some found ↦ ok (some found) | none ↦ scan phase steps ]

  -- `next`
  unfoldable pub next_work : ObjectId → Result (SchedulerError E) (Option ScheduledWork)
  next_work phase_id = do
    phase ← require_phase phase_id
    steps ← phase_steps phase
    next_among phase steps

  -- The Ticket that `resume` continues at the one Step in progress.
  abbrev active_ticket : Step → Option Ticket
  active_ticket step = elim (ready_corrective_ticket step repo.tickets) [
    | some corrective ↦ some corrective
    | none ↦
        find
          (λ t. is_story t.detail && same_option t.step_id (some step.id) && is_in_progress t.state)
          repo.tickets
  ]

  abbrev resume_step : Phase → Step → Result (SchedulerError E) (Option ScheduledWork)
  resume_step phase step = elim (active_ticket step) [
    | some active ↦ ok (some (record { phase = phase; step = step; ticket = active }))
    | none ↦ err (no_active_ticket step.id)
  ]

  -- What `resume` does for the Steps in progress.
  abbrev pub resume_among :
      ObjectId → Phase → List Step → List Step → Result (SchedulerError E) (Option ScheduledWork)
  resume_among phase_id phase steps (a ∷ b ∷ more) =
      err (multiple_in_progress (ids_of (a ∷ b ∷ more)))
  resume_among phase_id phase steps in_progress = do
    resumed ← in_progress_work phase steps
    elim resumed [
      | some found ↦ ok (some found)
      | none ↦ elim in_progress [ [] ↦ next_work phase_id | step ∷ _ ↦ resume_step phase step ]
    ]

  -- `resume`
  unfoldable pub resume : ObjectId → Result (SchedulerError E) (Option ScheduledWork)
  unfolding next_work in_progress_work
  resume phase_id = do
    phase ← require_phase phase_id
    steps ← phase_steps phase
    resume_among phase_id phase steps (keep (λ s. is_in_progress_step s.state) steps)
