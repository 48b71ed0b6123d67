-- ===== src/Tests/Scheduling.antt =====
-- The scheduler on a Phase with one Step, its Story and two Bugs.
use toaa.Base.{
  ℕ, true, List, [], ◌∷◌, none, some, Result, ok, err, ◌≡◌, refl, Memᴰ, ◌==◌, if◌then◌else◌,
}
use toaa.Domain.Objects.{ObjectId}
use toaa.Domain.Tickets.Types.{TicketState, WorkKind}
use toaa.Domain.Tickets.Ticket.{Ticket, WorkType, work, work_step}
use toaa.Domain.Steps.{Step}
use toaa.Domain.Phases.{Phase}
use toaa.Application.Repository.{PersistedObject, phase_object, step_object, RepositoryPort}
use toaa.Application.WorkScheduler.Selection.{
  is_active_ticket, correction_rank, precedes, repairs, is_candidate, active_corrective_tickets,
  ticket_dependencies_ready, ready_corrective_ticket, in_progress_candidates,
}
use toaa.Application.WorkScheduler.Dispatch.{
  ScheduledWork, require_phase, phase_steps, first_ready, in_progress_work, step_work, scan,
  next_among, next_work, resume,
}
use toaa.Application.WorkScheduler.Fitness.{IsFit}
use toaa.Application.WorkScheduler.Soundness.{next_work-IsFit}
use toaa.Application.WorkScheduler.Corrections.{IsCorrection, by_bug}
use toaa.Application.WorkScheduler.Priority.{NotAfter, ready_corrective_ticket-NotAfter}
use toaa.Application.WorkScheduler.Resume.{resume-next_work}
use toaa.Tests.Samples.{first_phase, code_step, code_story, new_bug, urgent_bug}

abbrev stored : ObjectId → Result ℕ PersistedObject
stored id =
    if id == 2
    then ok (phase_object first_phase)
    else if id == 3
    then ok (step_object code_step)
    else err id

abbrev tickets : List Ticket
tickets = code_story ∷ new_bug ∷ urgent_bug ∷ []

abbrev repo : RepositoryPort ℕ
repo = record { read = stored; tickets = tickets; trace_events = [] }

-- The Bug and the Story wait for a Task that is not done, and the Bug is in progress.
abbrev open_task : Ticket
open_task = record code_story {
  envelope = record code_story.envelope { id = 40 };
  detail = work (record {
    work_type = WorkType.task;
    work_kind = WorkKind.v_model_step;
    verification_ticket_id = none;
    paired_source_ticket_id = none;
  });
}

abbrev waiting_story : Ticket
waiting_story = record code_story { dependency_ticket_ids = 40 ∷ [] }

abbrev waiting_bug : Ticket
waiting_bug = record new_bug { dependency_ticket_ids = 40 ∷ []; state = TicketState.in_progress }

abbrev stuck_repo : RepositoryPort ℕ
stuck_repo = record {
  read = stored;
  tickets = open_task ∷ waiting_story ∷ waiting_bug ∷ [];
  trace_events = [];
}

abbrev handed_out : ScheduledWork
handed_out = record { phase = first_phase; step = code_step; ticket = urgent_bug }

hands_out : next_work repo 2 ≡ ok (some handed_out)
unfolding next_work require_phase phase_steps next_among in_progress_work in_progress_candidates
    first_ready scan step_work ready_corrective_ticket active_corrective_tickets is_candidate
    is_active_ticket repairs precedes correction_rank ticket_dependencies_ready work_step
hands_out = refl

next_work-IsFit_example :
    (phase : Phase) × (steps : List Step) × (require_phase repo 2 ≡ ok phase)
    × (phase_steps repo phase ≡ ok steps)
    × Memᴰ handed_out.step steps
    × IsFit repo handed_out.step handed_out.ticket
next_work-IsFit_example = next_work-IsFit repo 2 hands_out

chooses : ready_corrective_ticket code_step tickets ≡ some urgent_bug
unfolding ready_corrective_ticket active_corrective_tickets is_candidate is_active_ticket repairs
    precedes correction_rank ticket_dependencies_ready work_step
chooses = refl

new_bug-IsCorrection : IsCorrection code_step new_bug
new_bug-IsCorrection = record {
  unfinished = record { not_closed = λ e. cc; not_cancelled = λ e. cc; not_resolved = λ e. cc };
  original = refl;
  unblocked = refl;
  corrects = by_bug refl refl;
}

new_bug-ready : ticket_dependencies_ready tickets new_bug ≡ true
unfolding ticket_dependencies_ready
new_bug-ready = refl

ready_corrective_ticket-NotAfter_example : NotAfter urgent_bug new_bug
ready_corrective_ticket-NotAfter_example =
    ready_corrective_ticket-NotAfter code_step tickets new_bug chooses (Memᴰ.tail (Memᴰ.head refl))
      new_bug-IsCorrection new_bug-ready

reads_phase : require_phase repo 2 ≡ ok first_phase
unfolding require_phase
reads_phase = refl

lists_steps : phase_steps repo first_phase ≡ ok (code_step ∷ [])
unfolding phase_steps
lists_steps = refl

resume-next_work_example : resume repo 2 ≡ next_work repo 2
resume-next_work_example =
    resume-next_work repo 2 first_phase (code_step ∷ []) reads_phase lists_steps refl
