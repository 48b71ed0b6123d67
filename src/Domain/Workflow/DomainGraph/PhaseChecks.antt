-- ===== src/Domain/Workflow/DomainGraph/PhaseChecks.antt =====
-- src/domain/workflow/domain_graph.ts: the loop over the Phases.
use toaa.Base.{
  true, false, not, ◌||◌, List, [], ◌∷◌, map, Option, none, some, ◌≡◌, refl, inl, inr, ◌↔◌, arith,
  ◌==◌, ==_iff, length, Bool-cases, same, same_iff, some-injective, subst, and_true,
}
use toaa.Domain.Objects.{ObjectId}
use toaa.Domain.Steps.{Step, StepType, step_types}
use toaa.Domain.Phases.{Phase}
use toaa.Domain.Tickets.Ticket.{Ticket, ticket_type}
use toaa.Domain.Workflow.Issues.{
  missing_reference, invalid_v_model, append_iff, append-append_iff, each_iff, issue_if_iff,
}
use toaa.Domain.Workflow.Dependencies.{by_id}
use toaa.Domain.Workflow.DomainGraph.{
  DomainGraph, step_id, ticket_id, validate_exact_references, present, StepType-discrete, differs,
  breaks_v_model, misses_pair, member_issues, composition_issues, is_epic, is_epic_of, phase_issues,
}
use toaa.Domain.Workflow.DomainGraph.WellFormed.{Stands, IsComposed, PhaseFits}
use toaa.Domain.Workflow.DomainGraph.Checks.{Stands-iff, exact_iff, not_iff, own_iff}

-- The Steps of a Phase in the order of the V-model.
differs_iff :
    (expected actual : List StepType)
    → ((not (length actual == length expected) || differs expected actual) ≡ false)
      ↔ (actual ≡ expected)
unfolding differs
differs_iff [] [] = (λ h. refl, λ h. refl)
differs_iff [] (a ∷ rest) = (λ h. absurd (ground arith), λ e. absurd (cc))
differs_iff (t ∷ ts) [] = (λ h. absurd (ground arith), λ e. absurd (cc))
differs_iff (t ∷ ts) (a ∷ rest) =
    let shift : (length (a ∷ rest) == length (t ∷ ts)) ≡ (length rest == length ts) =
      ground arith in
    let later = differs_iff ts rest in
    elim (Bool-cases (same StepType-discrete a t)) [
      | inl s ↦
          let first = (same_iff StepType-discrete a t).0 s in
          rw (shift, s) (λ h. let more = later.0 h in cc, λ e. later.1 (cc))
      | inr s ↦
          rw (shift, s)
            (
              λ h. absurd (ground arith),
              λ e. let equal = (same_iff StepType-discrete a t).1 (cc) in absurd (cc),
            )
    ]

pair_iff :
    (steps : List Step) (o : Option ObjectId)
    → (misses_pair steps o ≡ false) ↔ ((id : ObjectId) → o ≡ some id → Stands step_id steps id)
pair_iff steps none = (λ h id e. cc, λ h. refl)
pair_iff steps (some pair) =
    let inner = Stands-iff step_id steps pair in
    (
      λ h id e. subst (λ x. Stands step_id steps x) (some-injective e) (inner.0 h),
      λ h. inner.1 (h pair refl),
    )

IsComposed-iff :
    (steps : List Step) (phase : Phase) (ids : List ObjectId)
    → (composition_issues steps phase ids ≡ []) ↔ IsComposed steps phase ids
unfolding breaks_v_model
IsComposed-iff steps phase [] = (λ e. tt, λ h. refl)
IsComposed-iff steps phase (id ∷ ids) =
    append_iff _ _
      (issue_if_iff (breaks_v_model (map (λ s. s.type) (present steps (id ∷ ids)))) invalid_v_model
        phase.id (differs_iff step_types (map (λ s. s.type) (present steps (id ∷ ids)))))
      (each_iff (member_issues steps phase) (present steps (id ∷ ids)) (λ s i.
        append_iff _ _
          (issue_if_iff (not (s.phase_id == phase.id)) missing_reference s.id
            (own_iff s.phase_id phase.id))
          (issue_if_iff (misses_pair steps s.paired_step_id) missing_reference s.id
            (pair_iff steps s.paired_step_id))))

epic_iff :
    (phase : Phase) (o : Option Ticket)
    → (not (is_epic_of phase o) ≡ false) ↔ (
        (epic : Ticket) × (o ≡ some epic)
        × (is_epic (ticket_type epic) ≡ true)
        × (epic.phase_id ≡ phase.id))
epic_iff phase none = (λ h. absurd (cc), λ (e, h, _, _). absurd (cc))
epic_iff phase (some t) = (
  λ h.
      let (a, b) = and_true (is_epic (ticket_type t)) (t.phase_id == phase.id) ((not_iff _).0 h) in
      (t, refl, a, (==_iff t.phase_id phase.id).0 b),
  λ (e, h, a, b).
      let it : t ≡ e = some-injective h in
      (not_iff _).1 (rw it (rw a ((==_iff e.phase_id phase.id).1 b))),
)

pub phase_iff : (g : DomainGraph) (phase : Phase) → (phase_issues g phase ≡ []) ↔ PhaseFits g phase
unfolding phase_issues
phase_iff g phase =
    append-append_iff (validate_exact_references step_id g.steps phase.id phase.step_ids)
      (composition_issues g.steps phase phase.step_ids) _
      (exact_iff step_id g.steps phase.id phase.step_ids)
      (IsComposed-iff g.steps phase phase.step_ids)
      (issue_if_iff (not (is_epic_of phase (by_id ticket_id g.tickets phase.epic_ticket_id)))
        missing_reference phase.id
        (epic_iff phase (by_id ticket_id g.tickets phase.epic_ticket_id)))
