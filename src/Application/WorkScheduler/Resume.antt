-- ===== src/Application/WorkScheduler/Resume.antt =====
-- src/application/project_management/work_scheduler.ts: how `resume` differs from `next`.
use toaa.Base.{List, [], Option, none, some, Result, ok, err, ◌≡◌, refl, sym, ◌∙◌, keep}
use toaa.Domain.Objects.{ObjectId}
use toaa.Domain.Steps.{Step}
use toaa.Domain.Phases.{Phase}
use toaa.Application.Repository.{RepositoryPort}
use toaa.Application.WorkScheduler.Selection.{is_in_progress_step}
use toaa.Application.WorkScheduler.Dispatch.{
  SchedulerError, ScheduledWork, require_phase, phase_steps, in_progress_work, next_among,
  next_work, resume_among, resume,
}

module _ {E : Type 0} (repo : RepositoryPort E) (phase_id : ObjectId) (phase : Phase)
    (steps : List Step) where
  among_none :
      (r : Result (SchedulerError E) (Option ScheduledWork))
      → in_progress_work repo phase steps ≡ r
      → next_work repo phase_id ≡ next_among repo phase steps
      → resume_among repo phase_id phase steps [] ≡ next_among repo phase steps
  unfolding next_among
  among_none (err e) known next = rw known refl
  among_none (ok none) known next = rw known (next ∙ rw known refl)
  among_none (ok (some w)) known next = rw known refl

  next_work-among :
      require_phase repo phase_id ≡ ok phase
      → phase_steps repo phase ≡ ok steps
      → next_work repo phase_id ≡ next_among repo phase steps
  unfolding next_work
  next_work-among required listed = rw (required, listed) refl

  resume-among :
      require_phase repo phase_id ≡ ok phase
      → phase_steps repo phase ≡ ok steps
      → keep (λ s. is_in_progress_step s.state) steps ≡ []
      → resume repo phase_id ≡ resume_among repo phase_id phase steps []
  unfolding resume
  resume-among required listed idle = rw (required, listed, idle) refl

  -- With no Step in progress, resuming a Phase is asking it for the next work.
  pub resume-next_work :
      require_phase repo phase_id ≡ ok phase
      → phase_steps repo phase ≡ ok steps
      → keep (λ s. is_in_progress_step s.state) steps ≡ []
      → resume repo phase_id ≡ next_work repo phase_id
  resume-next_work required listed idle =
      let next = next_work-among required listed in
      resume-among required listed idle
      ∙ among_none (in_progress_work repo phase steps) refl next
      ∙ sym next
