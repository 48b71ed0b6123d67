-- ===== src/Application/WorkScheduler/Corrections.antt =====
-- src/application/project_management/work_scheduler.ts: the corrective Tickets of a Step and what a
-- Ticket or a Step waits for, said without the scheduler's tests.
use toaa.Base.{
  true, false, List, [], ◌∷◌, Option, none, some, ok, >>=-eq-ok, ◌≡◌, ◌≢◌, refl, ap, ◌∙◌, inl, inr,
  arith, ◌==◌, ==_iff, Memᴰ, Bool-cases, same_option_iff, any, any-Memᴰ, not_all-Memᴰ, find,
}
use toaa.Domain.Objects.{ObjectId}
use toaa.Domain.Tickets.Types.{TicketState, TicketType, ChangeRequestApplication}
use toaa.Domain.Tickets.Ticket.{
  Ticket, TicketDetail, BugDetail, EnhancementDetail, ChangeRequestDetail, work, bug, enhancement,
  change_request, detail_type, work_step,
}
use toaa.Domain.Steps.{Step, StepState, step_satisfies_dependency}
use toaa.Application.Repository.{PersistedObject, step_object, RepositoryPort}
use toaa.Application.WorkScheduler.Selection.{
  is_active_ticket, is_resolved, is_closed_step, is_done, is_unblocked, is_open_story, is_candidate,
  repairs, ticket_dependencies_ready,
}
use toaa.Application.WorkScheduler.Dispatch.{read, satisfies, dependencies_ready}
use toaa.Application.WorkScheduler.Ready.{IsOpen}

-- A Ticket whose detail repairs a Step: a bug or an enhancement that has the Step as its target and
-- led to no change request, or a change request for the Step that was not applied to it.
pub data Corrects (step_id : ObjectId) : TicketDetail → Type 0 where
  by_bug :
      {d : BugDetail}
      → d.failure.target_step_id ≡ step_id
      → d.change_request_ticket_ids ≡ []
      → Corrects step_id (bug d)
  by_enhancement :
      {d : EnhancementDetail}
      → d.target_step_id ≡ step_id
      → d.change_request_ticket_ids ≡ []
      → Corrects step_id (enhancement d)
  by_change_request :
      {d : ChangeRequestDetail}
      → d.target_step_id ≡ step_id
      → ((a : ChangeRequestApplication) → Memᴰ a d.applications → a.step_id ≢ step_id)
      → Corrects step_id (change_request d)

-- A Ticket that corrects a Step and that nothing but a dependency can hold back.
pub record IsCorrection (step : Step) (t : Ticket) : Type 0 where
  pub unfinished : IsOpen t
  pub original : t.duplicate_of_ticket_id ≡ none
  pub unblocked : t.blocked_by_ticket_ids ≡ []
  pub corrects : Corrects step.id t.detail

-- A dependency of the Ticket is not done: the first Ticket with its id, if there is one, is neither
-- resolved nor closed.
pub record Awaits (tickets : List Ticket) (t : Ticket) : Type 0 where
  pub dependency : ObjectId
  pub named : Memᴰ dependency t.dependency_ticket_ids
  pub undone :
      (d : Ticket)
      → find (λ candidate. candidate.id == dependency) tickets ≡ some d
      → (d.state ≢ TicketState.resolved) × (d.state ≢ TicketState.closed)

-- A dependency of the Step is stored as no Step that is delivered or closed.
pub record AwaitsStep {E : Type 0} (repo : RepositoryPort E) (step : Step) : Type 0 where
  pub dependency : ObjectId
  pub object : PersistedObject
  pub named : Memᴰ dependency step.dependency_step_ids
  pub reads : repo.read dependency ≡ ok object
  pub undone :
      (s : Step)
      → object ≡ step_object s
      → (s.state ≢ StepState.delivered) × (s.state ≢ StepState.closed)

-- Which type of corrective Ticket goes before which.
pub data Outranks : TicketType → TicketType → Type 0 where
  change_before_bug : Outranks TicketType.change_request TicketType.bug
  change_before_enhancement : Outranks TicketType.change_request TicketType.enhancement
  bug_before_enhancement : Outranks TicketType.bug TicketType.enhancement

pub data Corrective : TicketType → Type 0 where
  of_bug : Corrective TicketType.bug
  of_enhancement : Corrective TicketType.enhancement
  of_change_request : Corrective TicketType.change_request

pub repairs-Corrective :
    (step_id : ObjectId) (detail : TicketDetail) (at : Option ObjectId)
    → repairs step_id detail at ≡ true
    → Corrective (detail_type detail)
unfolding repairs
repairs-Corrective step_id (bug d) at h = of_bug
repairs-Corrective step_id (enhancement d) at h = of_enhancement
repairs-Corrective step_id (change_request d) at h = of_change_request
repairs-Corrective step_id _ at h = cc

never_applied :
    (step_id : ObjectId) (applications : List ChangeRequestApplication)
    → ((a : ChangeRequestApplication) → Memᴰ a applications → a.step_id ≢ step_id)
    → any (λ a. a.step_id == step_id) applications ≡ false
never_applied step_id applications h =
    elim (Bool-cases (any (λ a. a.step_id == step_id) applications)) [
      | inr e ↦ e
      | inl e ↦
          let (a, i, same) = any-Memᴰ (λ a. a.step_id == step_id) applications e in
          absurd (h a i ((==_iff a.step_id step_id).0 same))
    ]

Corrects-repairs :
    (step_id : ObjectId) (detail : TicketDetail) (at : Option ObjectId)
    → Corrects step_id detail
    → repairs step_id detail (work_step detail at) ≡ true
unfolding repairs work_step
Corrects-repairs step_id (bug d) at (by_bug e n) =
    rw ((same_option_iff (some d.failure.target_step_id) (some step_id)).1 (ap (λ x. some x) e), n)
      refl
Corrects-repairs step_id (enhancement d) at (by_enhancement e n) =
    rw ((same_option_iff (some d.target_step_id) (some step_id)).1 (ap (λ x. some x) e), n) refl
Corrects-repairs step_id (change_request d) at (by_change_request e n) =
    rw ((==_iff d.target_step_id step_id).1 e, never_applied step_id d.applications n) refl
Corrects-repairs step_id (work d) at c = elim c [ ]

open_active :
    (s : TicketState)
    → s ≢ TicketState.closed
    → s ≢ TicketState.cancelled
    → s ≢ TicketState.resolved
    → (is_active_ticket s ≡ true) × (is_resolved s ≡ false) × (is_open_story s ≡ true)
unfolding is_active_ticket
open_active TicketState.closed a b c = absurd (a refl)
open_active TicketState.cancelled a b c = absurd (b refl)
open_active TicketState.resolved a b c = absurd (c refl)
open_active _ a b c = (refl, refl, refl)

pub IsOpen-is_open_story : (t : Ticket) → IsOpen t → is_open_story t.state ≡ true
IsOpen-is_open_story t o = (open_active t.state o.not_closed o.not_cancelled o.not_resolved).2

pub nil-is_unblocked : (t : Ticket) → t.blocked_by_ticket_ids ≡ [] → is_unblocked t ≡ true
nil-is_unblocked t h = rw h refl

pub not_closed-is_closed_step : (s : StepState) → s ≢ StepState.closed → is_closed_step s ≡ false
not_closed-is_closed_step StepState.closed h = absurd (h refl)
not_closed-is_closed_step _ h = refl

pub IsCorrection-is_candidate :
    (step : Step) (t : Ticket) → IsCorrection step t → is_candidate step t ≡ true
unfolding is_candidate
IsCorrection-is_candidate step t c =
    let o = c.unfinished in
    let (active, unresolved, _) = open_active t.state o.not_closed o.not_cancelled o.not_resolved in
    rw
      (
        active,
        unresolved,
        c.original,
        nil-is_unblocked t c.unblocked,
        Corrects-repairs step.id t.detail t.step_id c.corrects,
      )
      refl

undone-states :
    (d : Ticket)
    → is_done d.state ≡ false
    → (d.state ≢ TicketState.resolved) × (d.state ≢ TicketState.closed)
undone-states d h = (λ e. ground arith, λ e. ground arith)

pub not_ready-Awaits :
    (tickets : List Ticket) (t : Ticket)
    → ticket_dependencies_ready tickets t ≡ false
    → Awaits tickets t
unfolding ticket_dependencies_ready
not_ready-Awaits tickets t h =
    let (id, named, missing) = not_all-Memᴰ _ t.dependency_ticket_ids h in
    record {
      dependency = id;
      named = named;
      undone = λ d found. undone-states d (rw found at missing);
    }

module _ {E : Type 0} (repo : RepositoryPort E) where
  unsatisfying :
      (object : PersistedObject) (s : Step)
      → satisfies object ≡ false
      → object ≡ step_object s
      → (s.state ≢ StepState.delivered) × (s.state ≢ StepState.closed)
  unfolding step_satisfies_dependency
  unsatisfying object s h e =
      let not_over : step_satisfies_dependency s.state ≡ false = rw e at h in
      (λ f. ground arith, λ f. ground arith)

  reads-read :
      (id : ObjectId) {object : PersistedObject}
      → read repo id ≡ ok object
      → repo.read id ≡ ok object
  reads-read id h = ground arith

  missing_dependency :
      (ids : List ObjectId)
      → dependencies_ready repo ids ≡ ok false
      → (id : ObjectId) × (object : PersistedObject) × Memᴰ id ids
        × (repo.read id ≡ ok object)
        × (satisfies object ≡ false)
  unfolding dependencies_ready
  missing_dependency [] h = cc
  missing_dependency (x ∷ xs) h =
      let (object, got, rest) = >>=-eq-ok (read repo x) _ h in
      let (others, ready, both) = >>=-eq-ok (dependencies_ready repo xs) _ rest in
      elim (Bool-cases (satisfies object)) [
        | inr e ↦ (x, object, Memᴰ.head refl, reads-read x got, e)
        | inl e ↦
            let no_others : others ≡ false = ground arith in
            let (id, o, i, read_o, missing) = missing_dependency xs (ready ∙ rw no_others refl) in
            (id, o, Memᴰ.tail i, read_o, missing)
      ]

  pub not_ready-AwaitsStep :
      (step : Step)
      → dependencies_ready repo step.dependency_step_ids ≡ ok false
      → AwaitsStep repo step
  not_ready-AwaitsStep step h =
      let (id, object, named, reads, missing) = missing_dependency step.dependency_step_ids h in
      record {
        dependency = id;
        object = object;
        named = named;
        reads = reads;
        undone = λ s e. unsatisfying object s missing e;
      }
