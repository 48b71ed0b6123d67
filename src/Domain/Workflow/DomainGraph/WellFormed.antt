-- ===== src/Domain/Workflow/DomainGraph/WellFormed.antt =====
-- src/domain/workflow/domain_graph.ts: what a graph without issues is.
use toaa.Base.{true, false, List, [], ◌∷◌, map, none, some, ◌≡◌, Memᴰ, All}
use toaa.Domain.Objects.{ObjectId}
use toaa.Domain.Steps.{Step, step_types}
use toaa.Domain.Phases.{Phase}
use toaa.Domain.Tickets.Ticket.{Ticket, ticket_type}
use toaa.Domain.Workflow.Dependencies.{by_id}
use toaa.Domain.Workflow.Dependencies.Names.{Distinct}
use toaa.Domain.Workflow.Dependencies.Chains.{Grounded}
use toaa.Domain.Workflow.DomainGraph.{
  DomainGraph, phase_id, step_id, ticket_id, graph_objects, present, is_epic, is_story, is_task,
  parent_of,
}
use toaa.Domain.Workflow.DomainGraph.TaskDepth.{HoldsTask}

-- The id is that of one of the objects.
abbrev pub Stands : {A : Type 0} → (A → ObjectId) → List A → ObjectId → Type 0
Stands {A} id_of objects id = (o : A) × (by_id id_of objects id ≡ some o)

-- Every dependency is there, and every chain of dependencies ends.
abbrev pub IsOrdered : {A : Type 0} → (A → ObjectId) → (A → List ObjectId) → List A → Type 0
IsOrdered {A} id_of dependencies objects =
    All (λ o. All (Stands id_of objects) (dependencies o)) objects
    × ((o : A) → Memᴰ o objects → Grounded id_of dependencies objects (id_of o))

-- A Step of a Phase names the Phase, and its pair is there.
abbrev pub IsMember : List Step → Phase → Step → Type 0
IsMember steps phase s =
    (s.phase_id ≡ phase.id)
    × ((id : ObjectId) → s.paired_step_id ≡ some id → Stands step_id steps id)

-- A Phase that has Steps has the V-model.
abbrev pub IsComposed : List Step → Phase → List ObjectId → Type 0
IsComposed steps phase [] = Unit
IsComposed steps phase (id ∷ ids) =
    (map (λ s. s.type) (present steps (id ∷ ids)) ≡ step_types)
    × All (IsMember steps phase) (present steps (id ∷ ids))

abbrev pub PhaseFits : DomainGraph → Phase → Type 0
PhaseFits g phase =
    All (Stands step_id g.steps) phase.step_ids
    × IsComposed g.steps phase phase.step_ids
    × ((epic : Ticket) × (by_id ticket_id g.tickets phase.epic_ticket_id ≡ some epic)
        × (is_epic (ticket_type epic) ≡ true)
        × (epic.phase_id ≡ phase.id))

-- An Epic is its own root; another Ticket has a parent and an Epic as its root, a Story is below an
-- Epic and a task below a parent that holds it.
abbrev pub TicketFits : List Ticket → Ticket → Type 0
TicketFits tickets t =
    (is_epic (ticket_type t) ≡ true → (t.parent_ticket_id ≡ none) × (t.root_ticket_id ≡ t.id))
    × (is_epic (ticket_type t) ≡ false
        → (p : Ticket) × (parent_of tickets t.parent_ticket_id ≡ some p)
          × (is_story (ticket_type t) ≡ true → is_epic (ticket_type p) ≡ true)
          × (is_task (ticket_type t) ≡ true → HoldsTask tickets p)
          × ((root : Ticket) × (by_id ticket_id tickets t.root_ticket_id ≡ some root)
              × (is_epic (ticket_type root) ≡ true)))

abbrev pub IsWellFormed : DomainGraph → Type 0
IsWellFormed g =
    (All (λ o. o.project_id ≡ g.project.id) (graph_objects g)
      × Distinct (map (λ o. o.id) (graph_objects g)))
    × All (Stands phase_id g.phases) g.project.phase_ids
    × IsOrdered phase_id (λ p. p.dependency_phase_ids) g.phases
    × IsOrdered step_id (λ s. s.dependency_step_ids) g.steps
    × IsOrdered ticket_id (λ t. t.dependency_ticket_ids) g.tickets
    × All (PhaseFits g) g.phases
    × All (TicketFits g.tickets) g.tickets
