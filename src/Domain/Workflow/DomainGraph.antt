-- ===== src/Domain/Workflow/DomainGraph.antt =====
-- src/domain/workflow/domain_graph.ts: validateDomainGraph.
use toaa.Base.{
  ℕ, zero, suc, ◌+◌, Bool, true, false, not, ◌&&◌, ◌||◌, List, [], ◌∷◌, ◌++◌, map, Option, none,
  some, is_some, ◌==◌, ltb, length, same, Result, ok, err,
}
use toaa.Domain.Objects.{ObjectId, ObjectEnvelope}
use toaa.Domain.Steps.{Step, StepType, step_types}
use toaa.Domain.Phases.{Phase}
use toaa.Domain.Projects.{Project}
use toaa.Domain.Tickets.Types.{TicketType}
use toaa.Domain.Tickets.Ticket.{Ticket, ticket_type}
use toaa.Domain.Workflow.Issues.{
  DomainGraphIssue, duplicate_id, foreign_project, missing_reference, invalid_v_model,
  invalid_ticket_hierarchy, issue_if, each,
}
use toaa.Domain.Workflow.Dependencies.{has, by_id, validate_dependency_graph}
pub mod TaskDepth
pub mod WellFormed
pub mod Checks
pub mod PhaseChecks
pub mod TicketChecks
pub mod Validation

-- `DomainGraph`
pub record DomainGraph : Type 0 where
  pub project : Project
  pub phases : List Phase
  pub steps : List Step
  pub tickets : List Ticket

abbrev pub phase_id : Phase → ObjectId
phase_id p = p.id

abbrev pub step_id : Step → ObjectId
step_id s = s.id

abbrev pub ticket_id : Ticket → ObjectId
ticket_id t = t.id

-- `[graph.project, ...graph.phases, ...graph.steps, ...graph.tickets]`
abbrev pub graph_objects : DomainGraph → List ObjectEnvelope
graph_objects g =
    g.project.envelope
    ∷ (map (λ p. p.envelope) g.phases
        ++ (map (λ s. s.envelope) g.steps ++ map (λ t. t.envelope) g.tickets))

-- The first loop, with `seen`.
unfoldable pub object_issues :
    ObjectId → List ObjectId → List ObjectEnvelope → List DomainGraphIssue
object_issues root seen [] = []
object_issues root seen (o ∷ os) =
    issue_if (has o.id seen) duplicate_id o.id
    ++ (issue_if (not (o.project_id == root)) foreign_project o.id
        ++ object_issues root (o.id ∷ seen) os)

-- `validateExactReferences`
unfoldable pub validate_exact_references :
    {A : Type 0} → (A → ObjectId) → List A → ObjectId → List ObjectId → List DomainGraphIssue
validate_exact_references id_of objects owner ids =
    each (λ id. issue_if (not (is_some (by_id id_of objects id))) missing_reference owner) ids

-- `phase.stepIds.map((id) => steps.get(id)).filter((step) => !!step)`
abbrev pub present : List Step → List ObjectId → List Step
present steps [] = []
present steps (id ∷ ids) = elim (by_id step_id steps id) [
  | none ↦ present steps ids
  | some s ↦ s ∷ present steps ids
]

unfoldable pub StepType-discrete : Discrete StepType
StepType-discrete = hlevel

-- `STEP_TYPES.some((type, index) => actualTypes[index] !== type)`
unfoldable pub differs : List StepType → List StepType → Bool
unfolding StepType-discrete
differs [] actual = false
differs (t ∷ ts) [] = true
differs (t ∷ ts) (a ∷ actual) = not (same StepType-discrete a t) || differs ts actual

-- The Steps of a Phase are not the V-model.
unfoldable pub breaks_v_model : List StepType → Bool
unfolding differs
breaks_v_model actual = not (length actual == length step_types) || differs step_types actual

abbrev pub misses_pair : List Step → Option ObjectId → Bool
misses_pair steps none = false
misses_pair steps (some id) = not (is_some (by_id step_id steps id))

-- The issues of a Step of a Phase.
abbrev pub member_issues : List Step → Phase → Step → List DomainGraphIssue
member_issues steps phase s =
    issue_if (not (s.phase_id == phase.id)) missing_reference s.id
    ++ issue_if (misses_pair steps s.paired_step_id) missing_reference s.id

abbrev pub composition_issues : List Step → Phase → List ObjectId → List DomainGraphIssue
composition_issues steps phase [] = []
composition_issues steps phase (id ∷ ids) =
    issue_if (breaks_v_model (map (λ s. s.type) (present steps (id ∷ ids)))) invalid_v_model
      phase.id
    ++ each (member_issues steps phase) (present steps (id ∷ ids))

abbrev pub is_epic : TicketType → Bool
is_epic TicketType.epic = true
is_epic _ = false

abbrev pub is_story : TicketType → Bool
is_story TicketType.story = true
is_story _ = false

abbrev pub is_task : TicketType → Bool
is_task TicketType.task = true
is_task _ = false

-- `epic && epic.type === 'epic' && epic.phaseId === phase.id`
abbrev pub is_epic_of : Phase → Option Ticket → Bool
is_epic_of phase none = false
is_epic_of phase (some epic) = is_epic (ticket_type epic) && epic.phase_id == phase.id

-- The loop over the Phases.
unfoldable pub phase_issues : DomainGraph → Phase → List DomainGraphIssue
unfolding validate_exact_references breaks_v_model
phase_issues g phase =
    validate_exact_references step_id g.steps phase.id phase.step_ids
    ++ (composition_issues g.steps phase phase.step_ids
        ++ issue_if (not (is_epic_of phase (by_id ticket_id g.tickets phase.epic_ticket_id)))
            missing_reference phase.id)

-- `ticket.parentTicketId ? tickets.get(ticket.parentTicketId) : undefined`
abbrev pub parent_of : List Ticket → Option ObjectId → Option Ticket
parent_of tickets none = none
parent_of tickets (some id) = by_id ticket_id tickets id

-- The loop of `taskDepth`; `none` is infinity. Each round but the last sees another Ticket, so the
-- fuel of `task_depth` does not run out.
unfoldable pub climb : ℕ → List Ticket → List ObjectId → ℕ → Option Ticket → Option ℕ
climb zero tickets seen depth current = none
climb (suc fuel) tickets seen depth none = some depth
climb (suc fuel) tickets seen depth (some t) = elim (is_task (ticket_type t)) [
  | true ↦ elim (has t.id seen) [
    | true ↦ none
    | false ↦ climb fuel tickets (t.id ∷ seen) (depth + 1) (parent_of tickets t.parent_ticket_id)
  ]
  | false ↦ some depth
]

-- `taskDepth`
unfoldable pub task_depth : List Ticket → Ticket → Option ℕ
unfolding climb
task_depth tickets t = climb (suc (suc (length tickets))) tickets [] 0 (some t)

-- `depth > 2`
abbrev pub is_too_deep : Option ℕ → Bool
is_too_deep none = true
is_too_deep (some depth) = ltb 2 depth

abbrev pub is_root_epic : Option Ticket → Bool
is_root_epic none = false
is_root_epic (some root) = is_epic (ticket_type root)

-- The checks of a Ticket below an Epic, at its parent.
unfoldable pub child_issues : List Ticket → Ticket → Option Ticket → List DomainGraphIssue
unfolding task_depth
child_issues tickets t none = issue_if true missing_reference t.id
child_issues tickets t (some parent) =
    issue_if (is_story (ticket_type t) && not (is_epic (ticket_type parent)))
      invalid_ticket_hierarchy t.id
    ++ (issue_if
          (is_task (ticket_type t)
            && (not (is_story (ticket_type parent)) && not (is_task (ticket_type parent))
                || is_too_deep (task_depth tickets t)))
          invalid_ticket_hierarchy t.id
        ++ issue_if (not (is_root_epic (by_id ticket_id tickets t.root_ticket_id)))
            missing_reference t.id)

-- The loop over the Tickets.
unfoldable pub ticket_issues : List Ticket → Ticket → List DomainGraphIssue
unfolding child_issues
ticket_issues tickets t = elim (is_epic (ticket_type t)) [
  | true ↦
      issue_if (is_some t.parent_ticket_id || not (t.root_ticket_id == t.id))
        invalid_ticket_hierarchy t.id
  | false ↦ child_issues tickets t (parent_of tickets t.parent_ticket_id)
]

-- `validateDomainGraph`
unfoldable pub validate_domain_graph : DomainGraph → List DomainGraphIssue
unfolding object_issues validate_exact_references validate_dependency_graph phase_issues
    ticket_issues
validate_domain_graph g =
    object_issues g.project.id [] (graph_objects g)
    ++ (validate_exact_references phase_id g.phases g.project.id g.project.phase_ids
        ++ (validate_dependency_graph phase_id (λ p. p.dependency_phase_ids) g.phases
            ++ (validate_dependency_graph step_id (λ s. s.dependency_step_ids) g.steps
                ++ (validate_dependency_graph ticket_id (λ t. t.dependency_ticket_ids) g.tickets
                    ++ (each (phase_issues g) g.phases
                        ++ each (ticket_issues g.tickets) g.tickets)))))

-- `assertDomainGraph`: the error has the issues.
unfoldable pub assert_domain_graph : DomainGraph → Result (List DomainGraphIssue) (Unit {0})
unfolding validate_domain_graph
assert_domain_graph g = elim (validate_domain_graph g) [ [] ↦ ok tt | i ∷ is ↦ err (i ∷ is) ]
