-- ===== src/Application/WorkScheduler/Soundness.antt =====
-- src/application/project_management/work_scheduler.ts: whatever `next` hands out is fit to be worked.
use toaa.Base.{
  true, false, ◌&&◌, List, [], ◌∷◌, Option, none, some, ok, >>=-eq-ok, ◌≡◌, refl, ◌∙◌, ◌⊎◌, inl,
  inr, arith, Memᴰ, Bool-cases, Option-cases, and_true, same_option, same_option_iff, find-Memᴰ,
  keep-Memᴰ, sort-Memᴰ,
}
use toaa.Domain.Objects.{ObjectId}
use toaa.Domain.Tickets.Ticket.{Ticket}
use toaa.Domain.Steps.{Step, StepState, step_satisfies_dependency}
use toaa.Domain.Phases.{Phase}
use toaa.Application.Repository.{PersistedObject, step_object, RepositoryPort}
use toaa.Application.WorkScheduler.Selection.{
  is_closed_step, is_open_story, is_step_story, is_unblocked, is_candidate,
  ticket_dependencies_ready, active_corrective_tickets, ready_corrective_ticket, Candidate,
  precedes, precedes_in_progress, story_of, story_ready,
}
use toaa.Application.WorkScheduler.Dispatch.{
  ScheduledWork, read, require_phase, phase_steps, satisfies, dependencies_ready, first_ready,
  in_progress_work, offer, story_work, step_work, scan, next_among, next_work,
}
use toaa.Application.WorkScheduler.Ready.{IsOpen, StepReady, candidate-IsOpen, candidate-parts}
use toaa.Application.WorkScheduler.Fitness.{
  resumed, corrects, story, IsFit, not_closed-step, free, in_progress-state, in_progress-IsOpen,
  step_by_id-Memᴰ, candidates-Memᴰ,
}

module _ {E : Type 0} (repo : RepositoryPort E) where
  read-ok :
      (id : ObjectId) {object : PersistedObject}
      → read repo id ≡ ok object
      → repo.read id ≡ ok object
  read-ok id {object} h = ground arith

  satisfies-step :
      (object : PersistedObject)
      → satisfies object ≡ true
      → (s : Step) × (object ≡ step_object s)
        × ((s.state ≡ StepState.delivered) ⊎ (s.state ≡ StepState.closed))
  unfolding step_satisfies_dependency
  satisfies-step (step_object s) h = (s, refl, ground arith)
  satisfies-step _ h = cc

  dependencies-ready :
      (ids : List ObjectId)
      → dependencies_ready repo ids ≡ ok true
      → (id : ObjectId) → Memᴰ id ids
      → (s : Step) × (repo.read id ≡ ok (step_object s))
        × ((s.state ≡ StepState.delivered) ⊎ (s.state ≡ StepState.closed))
  unfolding dependencies_ready
  dependencies-ready [] h id i = elim i [ ]
  dependencies-ready (x ∷ xs) h id i =
      let (object, got, rest) = >>=-eq-ok (read repo x) _ h in
      let (others, ready, both) = >>=-eq-ok (dependencies_ready repo xs) _ rest in
      let both' : (satisfies object && others) ≡ true = ground arith in
      let (a, b) = and_true (satisfies object) others both' in
      elim i [
        | Memᴰ.head same ↦
            let (s, is_step, over) = satisfies-step object a in
            (s, rw same (read-ok x (got ∙ rw is_step refl)), over)
        | Memᴰ.tail j ↦ dependencies-ready xs (ready ∙ rw b refl) id j
      ]

  first_ready-Memᴰ :
      (phase : Phase) (cs : List Candidate) {w : ScheduledWork}
      → first_ready repo phase cs ≡ ok (some w)
      → (c : Candidate) × Memᴰ c cs
        × (w.step ≡ c.step)
        × (w.ticket ≡ c.ticket)
        × StepReady repo c.step
        × (ticket_dependencies_ready repo.tickets c.ticket ≡ true)
  unfolding first_ready
  first_ready-Memᴰ phase [] h = cc
  first_ready-Memᴰ phase (c ∷ cs) {w} h =
      let (ready, known, rest) =
        >>=-eq-ok (dependencies_ready repo c.step.dependency_step_ids) _ h in
      elim (Bool-cases (ready && ticket_dependencies_ready repo.tickets c.ticket)) [
        | inl e ↦
            let (a, b) = and_true ready (ticket_dependencies_ready repo.tickets c.ticket) e in
            let made = rw e at rest in
            (
              c,
              Memᴰ.head refl,
              ground arith,
              ground arith,
              dependencies-ready c.step.dependency_step_ids (known ∙ rw a refl),
              b,
            )
        | inr e ↦
            let (d, i, at, of, steps, tickets) = first_ready-Memᴰ phase cs (rw e at rest) in
            (d, Memᴰ.tail i, at, of, steps, tickets)
      ]

  resumed-IsFit :
      (phase : Phase) (steps : List Step) {w : ScheduledWork}
      → in_progress_work repo phase steps ≡ ok (some w)
      → Memᴰ w.step steps × IsFit repo w.step w.ticket
  unfolding in_progress_work
  resumed-IsFit phase steps {w} h =
      let (c, i, at, of, steps_ready, tickets_ready) = first_ready-Memᴰ phase _ h in
      let (known, going, unblocked, found, shut) =
        candidates-Memᴰ steps repo.tickets (sort-Memᴰ precedes_in_progress _ i) in
      let (j, named) = step_by_id-Memᴰ steps _ found in
      let state = in_progress-state c.ticket.state going in
      let fit : IsFit repo c.step c.ticket = record {
        known = known;
        unfinished = in_progress-IsOpen c.ticket state;
        free = free repo.tickets c.ticket unblocked tickets_ready;
        reason = resumed state named (not_closed-step c.step.state shut) steps_ready;
      } in
      (rw at j, rw (at, of) fit)

  corrective-IsFit :
      (step : Step) {t : Ticket}
      → ready_corrective_ticket step repo.tickets ≡ some t
      → IsFit repo step t
  unfolding ready_corrective_ticket active_corrective_tickets
  corrective-IsFit step {t} h =
      let (i, ready) = find-Memᴰ (ticket_dependencies_ready repo.tickets) _ h in
      let (known, candidate) =
        keep-Memᴰ (is_candidate step) repo.tickets (sort-Memᴰ precedes _ i) in
      let (original, unblocked, repair) = candidate-parts step t candidate in
      record {
        known = known;
        unfinished = candidate-IsOpen step t candidate;
        free = free repo.tickets t unblocked ready;
        reason = corrects repair original;
      }

  story_ready-parts :
      (t : Ticket)
      → story_ready repo.tickets t ≡ true
      → (is_open_story t.state ≡ true)
        × (is_unblocked t ≡ true)
        × (ticket_dependencies_ready repo.tickets t ≡ true)
  unfolding story_ready
  story_ready-parts t h =
      let (rest, ready) = and_true _ (ticket_dependencies_ready repo.tickets t) h in
      let (opened, unblocked) = and_true (is_open_story t.state) (is_unblocked t) rest in
      (opened, unblocked, ready)

  story-IsOpen : (t : Ticket) → is_open_story t.state ≡ true → IsOpen t
  story-IsOpen t h = record {
    not_closed = λ f. ground arith;
    not_cancelled = λ f. ground arith;
    not_resolved = λ f. ground arith;
  }

  chosen-IsFit :
      (step : Step) {t : Ticket}
      → is_closed_step step.state ≡ false
      → dependencies_ready repo step.dependency_step_ids ≡ ok true
      → story_of step repo.tickets ≡ some t
      → story_ready repo.tickets t ≡ true
      → IsFit repo step t
  unfolding story_of
  chosen-IsFit step {t} shut ready found fit =
      let (known, is_of) =
        find-Memᴰ (λ x. is_step_story x.detail && same_option x.step_id (some step.id)) _ found in
      let (is_story, named) =
        and_true (is_step_story t.detail) (same_option t.step_id (some step.id)) is_of in
      let (opened, unblocked, settled) = story_ready-parts t fit in
      record {
        known = known;
        unfinished = story-IsOpen t opened;
        free = free repo.tickets t unblocked settled;
        reason =
            story is_story ((same_option_iff t.step_id (some step.id)).0 named)
              (not_closed-step step.state shut) (dependencies-ready step.dependency_step_ids ready);
      }

  offer-ready :
      (o : Option Ticket) {t : Ticket}
      → offer repo o ≡ some t
      → (o ≡ some t) × (story_ready repo.tickets t ≡ true)
  unfolding offer
  offer-ready none h = cc
  offer-ready (some found) {t} h = elim (Bool-cases (story_ready repo.tickets found)) [
    | inl e ↦ let same : found ≡ t = ground arith in (rw same refl, rw same at e)
    | inr e ↦ cc
  ]

  story-IsFit : (step : Step) {t : Ticket} → story_work repo step ≡ ok (some t) → IsFit repo step t
  unfolding story_work
  story-IsFit step {t} h = elim (Bool-cases (is_closed_step step.state)) [
    | inl e ↦ absurd (ground arith)
    | inr open_step ↦
        let (ready, known, rest) =
          >>=-eq-ok (dependencies_ready repo step.dependency_step_ids) _
            (rw (story_work, open_step) at h) in
        elim (Bool-cases ready) [
          | inr e ↦ cc
          | inl e ↦
              let offered : offer repo (story_of step repo.tickets) ≡ some t = ground arith in
              let (found, fit) = offer-ready (story_of step repo.tickets) offered in
              chosen-IsFit step open_step (known ∙ rw e refl) found fit
        ]
  ]

  step_work-IsFit :
      (step : Step) {t : Ticket} → step_work repo step ≡ ok (some t) → IsFit repo step t
  unfolding step_work
  step_work-IsFit step {t} h = elim (Option-cases (ready_corrective_ticket step repo.tickets)) [
    | inl e ↦ story-IsFit step (rw (step_work, e) at h)
    | inr (found, e) ↦ let same : found ≡ t = ground arith in corrective-IsFit step (rw same at e)
  ]

  scan-IsFit :
      (phase : Phase) (steps : List Step) {w : ScheduledWork}
      → scan repo phase steps ≡ ok (some w)
      → Memᴰ w.step steps × IsFit repo w.step w.ticket
  unfolding scan
  scan-IsFit phase [] h = cc
  scan-IsFit phase (step ∷ steps) {w} h =
      let (found, chosen, rest) = >>=-eq-ok (step_work repo step) _ h in
      elim (Option-cases found) [
        | inl e ↦ let (i, fit) = scan-IsFit phase steps (rw e at rest) in (Memᴰ.tail i, fit)
        | inr (t, e) ↦
            let at : w.step ≡ step = ground arith in
            let of : w.ticket ≡ t = ground arith in
            (Memᴰ.head at, rw (at, of) (step_work-IsFit step (chosen ∙ rw e refl)))
      ]

  next_among-IsFit :
      (phase : Phase) (steps : List Step) {w : ScheduledWork}
      → next_among repo phase steps ≡ ok (some w)
      → Memᴰ w.step steps × IsFit repo w.step w.ticket
  unfolding next_among
  next_among-IsFit phase steps {w} h =
      let (resumed_work, looked, c) = >>=-eq-ok (in_progress_work repo phase steps) _ h in
      elim (Option-cases resumed_work) [
        | inl e ↦ scan-IsFit phase steps (rw e at c)
        | inr (v, e) ↦
            let same : v ≡ w = ground arith in
            let found : in_progress_work repo phase steps ≡ ok (some w) =
              looked ∙ rw (e, same) refl in
            resumed-IsFit phase steps found
      ]

  -- What `next` hands out is a Step of the Phase that was asked for and a Ticket fit to be worked
  -- there: a known Ticket that is not closed, cancelled or resolved, that nothing blocks and whose
  -- dependencies are all resolved or closed, and that is in progress at the Step, corrects it, or
  -- is its Story; for the first and the last the Step is not closed and all that it depends on is
  -- delivered or closed.
  pub next_work-IsFit :
      (phase_id : ObjectId) {w : ScheduledWork}
      → next_work repo phase_id ≡ ok (some w)
      → (phase : Phase) × (steps : List Step) × (require_phase repo phase_id ≡ ok phase)
        × (phase_steps repo phase ≡ ok steps)
        × Memᴰ w.step steps
        × IsFit repo w.step w.ticket
  unfolding next_work
  next_work-IsFit phase_id {w} h =
      let (phase, required, a) = >>=-eq-ok (require_phase repo phase_id) _ h in
      let (steps, listed, b) = >>=-eq-ok (phase_steps repo phase) _ a in
      let (i, fit) = next_among-IsFit phase steps b in (phase, steps, required, listed, i, fit)
