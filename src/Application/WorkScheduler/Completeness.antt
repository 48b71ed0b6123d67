-- ===== src/Application/WorkScheduler/Completeness.antt =====
-- src/application/project_management/work_scheduler.ts: when `next` hands out nothing.
use toaa.Base.{true, List, [], ◌∷◌, ◌++◌, some, ◌≡◌, ◌≢◌, ◌⊎◌, Memᴰ}
use toaa.Domain.Tickets.Types.{TicketState}
use toaa.Domain.Tickets.Ticket.{Ticket, work_step_id}
use toaa.Domain.Steps.{Step, StepState}
use toaa.Application.Repository.{RepositoryPort}
use toaa.Application.WorkScheduler.Selection.{is_step_story, scheduled_step_id, step_by_id}
use toaa.Application.WorkScheduler.Ready.{IsOpen}
use toaa.Application.WorkScheduler.Corrections.{IsCorrection, Awaits, AwaitsStep}

-- The Story of a Step.
abbrev pub StoryOf : Step → Ticket → Type 0
StoryOf step t = (is_step_story t.detail ≡ true) × (t.step_id ≡ some step.id)

-- The Ticket or the Step it would be worked at has a dependency that is not done.
abbrev pub Waits : {E : Type 0} → RepositoryPort E → Step → Ticket → Type 0
Waits repo step t = AwaitsStep repo step ⊎ Awaits repo.tickets t

-- A Ticket in progress that nothing blocks, with the Step it is scheduled at, which is not closed.
pub record Resumable {E : Type 0} (repo : RepositoryPort E) (steps : List Step) (step : Step)
    (t : Ticket) : Type 0 where
  pub known : Memᴰ t repo.tickets
  pub going : t.state ≡ TicketState.in_progress
  pub unblocked : t.blocked_by_ticket_ids ≡ []
  pub scheduled : step_by_id steps (scheduled_step_id t.detail (work_step_id t)) ≡ some step
  pub step_open : step.state ≢ StepState.closed

-- Nothing at a Step can be handed out: every open correction of it that nothing blocks waits for a
-- dependency, and so does its Story, the first in the repository, or the Step, if both are open and
-- nothing blocks the Story.
pub record IsIdle {E : Type 0} (repo : RepositoryPort E) (step : Step) : Type 0 where
  pub corrections_wait :
      (t : Ticket) → Memᴰ t repo.tickets → IsCorrection step t → Awaits repo.tickets t
  pub story_waits :
      (before after : List Ticket) (t : Ticket)
      → repo.tickets ≡ before ++ (t ∷ after)
      → ((u : Ticket) → Memᴰ u before → ¬ StoryOf step u)
      → StoryOf step t
      → IsOpen t
      → t.blocked_by_ticket_ids ≡ []
      → step.state ≢ StepState.closed
      → Waits repo step t
