-- ===== src/Domain/Workflow/DomainGraph/Validation.antt =====
-- src/domain/workflow/domain_graph.ts, validateDomainGraph and assertDomainGraph: which graphs pass.
use toaa.Base.{List, [], ◌∷◌, ◌++◌, map, ◌≡◌, refl, ap, ◌↔◌, All, Result, ok, err, subst}
use toaa.Domain.Objects.{ObjectEnvelope}
use toaa.Domain.Workflow.Issues.{DomainGraphIssue, each, append_iff, append-given, each_iff}
use toaa.Domain.Workflow.Dependencies.{validate_dependency_graph}
use toaa.Domain.Workflow.Dependencies.Names.{Distinct, Distinct-append, by_id-own}
use toaa.Domain.Workflow.DomainGraph.{
  DomainGraph, phase_id, step_id, ticket_id, graph_objects, object_issues,
  validate_exact_references, phase_issues, ticket_issues, validate_domain_graph,
  assert_domain_graph,
}
use toaa.Domain.Workflow.DomainGraph.WellFormed.{IsOrdered, PhaseFits, TicketFits, IsWellFormed}
use toaa.Domain.Workflow.DomainGraph.Checks.{iff_trans, exact_iff, IsOrdered-iff, objects_iff}
use toaa.Domain.Workflow.DomainGraph.PhaseChecks.{phase_iff}
use toaa.Domain.Workflow.DomainGraph.TicketChecks.{ticket_iff}

map_ids :
    {A : Type 0} (f : A → ObjectEnvelope) (xs : List A) (ys : List ObjectEnvelope)
    → map (λ o. o.id) (map f xs ++ ys) ≡ map (λ a. (f a).id) xs ++ map (λ o. o.id) ys
map_ids f [] ys = refl
map_ids f (x ∷ xs) ys = ap (λ l. (f x).id ∷ l) (map_ids f xs ys)

last_ids :
    {A : Type 0} (f : A → ObjectEnvelope) (xs : List A)
    → map (λ o. o.id) (map f xs) ≡ map (λ a. (f a).id) xs
last_ids f [] = refl
last_ids f (x ∷ xs) = ap (λ l. (f x).id ∷ l) (last_ids f xs)

-- The ids of each kind of object are their own.
kinds_Distinct :
    (g : DomainGraph)
    → Distinct (map (λ o. o.id) (graph_objects g))
    → Distinct (map phase_id g.phases)
      × Distinct (map step_id g.steps)
      × Distinct (map ticket_id g.tickets)
kinds_Distinct g (_, d) =
    let s = map (λ x. x.envelope) g.steps in
    let t = map (λ x. x.envelope) g.tickets in
    let (p, rest) =
      Distinct-append (map phase_id g.phases) _
        (subst Distinct (map_ids (λ x. x.envelope) g.phases (s ++ t)) d) in
    let (q, last) =
      Distinct-append (map step_id g.steps) _
        (subst Distinct (map_ids (λ x. x.envelope) g.steps t) rest) in
    (p, q, subst Distinct (last_ids (λ x. x.envelope) g.tickets) last)

first_iff :
    (g : DomainGraph)
    → (object_issues g.project.id [] (graph_objects g) ≡ []) ↔ (
        All (λ o. o.project_id ≡ g.project.id) (graph_objects g)
        × Distinct (map (λ o. o.id) (graph_objects g)))
first_iff g =
    let whole = objects_iff g.project.id [] (graph_objects g) in
    (
      λ e. let (own, d, _) = whole.0 e in (own, d),
      λ (own, d). whole.1 (own, d, λ id i j. elim j [ ]),
    )

module _ (g : DomainGraph) (d : Distinct (map (λ o. o.id) (graph_objects g))) where
  kinds :
      Distinct (map phase_id g.phases)
      × Distinct (map step_id g.steps)
      × Distinct (map ticket_id g.tickets)
  kinds = kinds_Distinct g d

  orders_iff :
      ((validate_dependency_graph phase_id (λ p. p.dependency_phase_ids) g.phases ≡ [])
        ↔ IsOrdered phase_id (λ p. p.dependency_phase_ids) g.phases)
      × ((validate_dependency_graph step_id (λ s. s.dependency_step_ids) g.steps ≡ [])
          ↔ IsOrdered step_id (λ s. s.dependency_step_ids) g.steps)
      × ((validate_dependency_graph ticket_id (λ t. t.dependency_ticket_ids) g.tickets ≡ [])
          ↔ IsOrdered ticket_id (λ t. t.dependency_ticket_ids) g.tickets)
  orders_iff = (
    IsOrdered-iff phase_id (λ p. p.dependency_phase_ids) g.phases
        (λ o i. by_id-own phase_id g.phases kinds.0 i),
    IsOrdered-iff step_id (λ s. s.dependency_step_ids) g.steps
        (λ o i. by_id-own step_id g.steps kinds.1 i),
    IsOrdered-iff ticket_id (λ t. t.dependency_ticket_ids) g.tickets
        (λ o i. by_id-own ticket_id g.tickets kinds.2 i),
  )

  items_iff :
      ((each (phase_issues g) g.phases ++ each (ticket_issues g.tickets) g.tickets) ≡ [])
      ↔ (All (PhaseFits g) g.phases × All (TicketFits g.tickets) g.tickets)
  items_iff =
      append_iff (each (phase_issues g) g.phases) (each (ticket_issues g.tickets) g.tickets)
        (each_iff (phase_issues g) g.phases (λ p i. phase_iff g p))
        (each_iff (ticket_issues g.tickets) g.tickets
          (λ t i. ticket_iff g.tickets t (λ x j. by_id-own ticket_id g.tickets kinds.2 j) i))

validate_domain_graph_iff : (g : DomainGraph) → (validate_domain_graph g ≡ []) ↔ IsWellFormed g
unfolding validate_domain_graph
validate_domain_graph_iff g =
    let whole =
      append-given (object_issues g.project.id [] (graph_objects g)) _ (first_iff g) (λ (own, d).
        let (phases, steps, tickets) = orders_iff g d in
        append_iff (validate_exact_references phase_id g.phases g.project.id g.project.phase_ids) _
          (exact_iff phase_id g.phases g.project.id g.project.phase_ids)
          (append_iff _ _ phases
            (append_iff _ _ steps (append_iff _ _ tickets (items_iff g d))))) in
    (
      λ e. let (a, (b, (c, (d, (x, (y, z)))))) = whole.0 e in (a, b, c, d, x, y, z),
      λ (a, b, c, d, x, y, z). whole.1 (a, (b, (c, (d, (x, (y, z)))))),
    )

-- A graph passes exactly when it is well formed: all objects have ids of their own and belong to the
-- project; what is referred to is there; every chain of dependencies of Phases, Steps and Tickets
-- ends; a Phase that has Steps has the V-model with its pairs, and an Epic of its own; Epics are
-- roots, a Story is below an Epic, a task below a Story or below a task that is not itself below a
-- task, and every Ticket but an Epic has a
-- parent and an Epic as its root.
pub assert_domain_graph_iff : (g : DomainGraph) → (assert_domain_graph g ≡ ok tt) ↔ IsWellFormed g
unfolding assert_domain_graph
assert_domain_graph_iff g =
    iff_trans (passes (validate_domain_graph g)) (validate_domain_graph_iff g)
  where
    passes :
        (issues : List DomainGraphIssue)
        → (elim issues as (λ _. Result (List DomainGraphIssue) (Unit {0})) [
          | [] ↦ ok tt
          | i ∷ is ↦ err (i ∷ is)
        ]
            ≡ ok tt)
          ↔ (issues ≡ [])
    passes [] = (λ e. refl, λ e. refl)
    passes (i ∷ is) = (λ e. absurd (cc), λ e. absurd (cc))
