-- ===== src/Tests/Graphs.antt =====
-- The object graph of a project with an Epic, its Story and two tasks below each other.
use toaa.Base.{[], ◌∷◌, none, some, ok, err, ◌≡◌, refl, ◌↔◌, Memᴰ}
use toaa.Domain.Tickets.Types.{TicketState, WorkKind}
use toaa.Domain.Tickets.Ticket.{Ticket, TicketDetail, work, WorkType}
use toaa.Domain.Phases.{Phase}
use toaa.Domain.Workflow.Issues.{dependency_cycle}
use toaa.Domain.Workflow.Dependencies.{visit, visit_each, find_cycle, validate_dependency_graph}
use toaa.Domain.Workflow.Dependencies.Chains.{Grounded, IsNamed}
use toaa.Domain.Workflow.Dependencies.Cycles.{find_cycle-iff_Grounded}
use toaa.Domain.Workflow.DomainGraph.{
  DomainGraph, ticket_id, object_issues, validate_exact_references, phase_issues, child_issues,
  ticket_issues, climb, task_depth, validate_domain_graph, assert_domain_graph,
}
use toaa.Domain.Workflow.DomainGraph.WellFormed.{IsWellFormed}
use toaa.Domain.Workflow.DomainGraph.Validation.{assert_domain_graph_iff}
use toaa.Tests.Samples.{shop, first_phase, story_detail, ticket_of}

abbrev work_of : WorkType → TicketDetail
work_of type = work (record {
  work_type = type;
  work_kind = WorkKind.v_model_step;
  verification_ticket_id = none;
  paired_source_ticket_id = none;
})

abbrev epic : Ticket
epic = ticket_of 93 (work_of WorkType.epic) TicketState.created

abbrev story : Ticket
story = record (ticket_of 10 story_detail TicketState.created) { parent_ticket_id = some 93 }

abbrev task : Ticket
task = record (ticket_of 20 (work_of WorkType.task) TicketState.created) {
  parent_ticket_id = some 10;
  dependency_ticket_ids = 21 ∷ [];
}

abbrev subtask : Ticket
subtask = record (ticket_of 21 (work_of WorkType.task) TicketState.created) {
  parent_ticket_id = some 20;
}

abbrev planned : Phase
planned = record first_phase { step_ids = [] }

abbrev graph : DomainGraph
graph = record {
  project = shop;
  phases = planned ∷ [];
  steps = [];
  tickets = epic ∷ story ∷ task ∷ subtask ∷ [];
}

passes : assert_domain_graph graph ≡ ok tt
unfolding assert_domain_graph validate_domain_graph object_issues validate_exact_references
    validate_dependency_graph find_cycle visit visit_each phase_issues ticket_issues child_issues
    task_depth climb
passes = refl

-- A task that waits for itself by way of another.
abbrev waits : DomainGraph
waits = record graph {
  tickets = epic ∷ story ∷ task ∷ record subtask { dependency_ticket_ids = 20 ∷ [] } ∷ [];
}

cycle_is_found :
    assert_domain_graph waits ≡ err (record { code = dependency_cycle; object_id = 20 } ∷ [])
unfolding assert_domain_graph validate_domain_graph object_issues validate_exact_references
    validate_dependency_graph find_cycle visit visit_each phase_issues ticket_issues child_issues
    task_depth climb
cycle_is_found = refl

assert_domain_graph_iff_example : (assert_domain_graph graph ≡ ok tt) ↔ IsWellFormed graph
assert_domain_graph_iff_example = assert_domain_graph_iff graph

tasks-IsNamed : IsNamed ticket_id (λ t. t.dependency_ticket_ids) (task ∷ subtask ∷ [])
tasks-IsNamed o (Memᴰ.head e) = rw e refl
tasks-IsNamed o (Memᴰ.tail (Memᴰ.head e)) = rw e refl
tasks-IsNamed o (Memᴰ.tail (Memᴰ.tail i)) = elim i [ ]

find_cycle-iff_Grounded_example :
    (find_cycle ticket_id
        (λ t. t.dependency_ticket_ids)
        (task ∷ subtask ∷ [])
        (task ∷ subtask ∷ [])
        (record { visiting = []; visited = [] })
      ≡ none)
    ↔ ((o : Ticket)
        → Memᴰ o (task ∷ subtask ∷ [])
        → Grounded ticket_id (λ t. t.dependency_ticket_ids) (task ∷ subtask ∷ []) (ticket_id o))
find_cycle-iff_Grounded_example =
    find_cycle-iff_Grounded ticket_id (λ t. t.dependency_ticket_ids) (task ∷ subtask ∷ [])
      tasks-IsNamed
