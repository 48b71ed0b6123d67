-- ===== src/Domain/Workflow/Dependencies.antt =====
-- src/domain/workflow/domain_graph.ts, validateDependencyGraph: objects of one kind and the ids of what
-- each depends on.
use toaa.Base.{
  ℕ, zero, suc, Bool, true, false, not, List, [], ◌∷◌, ◌++◌, Option, none, some, is_some, ◌==◌, any,
  keep, find, reverse, length,
}
use toaa.Domain.Objects.{ObjectId}
use toaa.Domain.Workflow.Issues.{
  DomainGraphIssue, missing_reference, dependency_cycle, issue_if, each,
}
pub mod Names
pub mod Chains
pub mod Runs
pub mod Cycles

abbrev pub has : ObjectId → List ObjectId → Bool
has id ids = any (λ other. other == id) ids

-- `visiting` and `visited`
pub record Marks : Type 0 where
  pub visiting : List ObjectId
  pub visited : List ObjectId

-- `byId.get`: of two objects with one id the map holds the later.
abbrev pub by_id : {A : Type 0} → (A → ObjectId) → List A → ObjectId → Option A
by_id id_of objects id = find (λ o. id_of o == id) (reverse objects)

abbrev pub cycle_issue : Option ObjectId → List DomainGraphIssue
cycle_issue none = []
cycle_issue (some id) = issue_if true dependency_cycle id

module _ {A : Type 0} (id_of : A → ObjectId) (dependencies : A → List ObjectId) where
  -- The loop of `visit` over the dependencies, with `visit` itself as an argument.
  unfoldable pub visit_each :
      (A → Marks → Bool × Marks) → List A → List ObjectId → Marks → Bool × Marks
  visit_each visit objects [] marks = (false, marks)
  visit_each visit objects (d ∷ ds) marks = elim (by_id id_of objects d) [
    | none ↦ visit_each visit objects ds marks
    | some dependency ↦
        let (found, marks') = visit dependency marks in
        elim found [ true ↦ (true, marks') | false ↦ visit_each visit objects ds marks' ]
  ]

  -- `visit`. The fuel bounds the depth: with more than there are objects it does not run out.
  unfoldable pub visit : ℕ → List A → A → Marks → Bool × Marks
  unfolding visit_each
  visit zero objects o marks = (true, marks)
  visit (suc fuel) objects o marks = elim (has (id_of o) marks.visiting) [
    | true ↦ (true, marks)
    | false ↦ elim (has (id_of o) marks.visited) [
      | true ↦ (false, marks)
      | false ↦
          let (found, marks') =
            visit_each (visit fuel objects) objects (dependencies o)
              (record marks { visiting = id_of o ∷ marks.visiting }) in
          elim found [
            | true ↦ (true, marks')
            | false ↦ (
              false,
              record {
                visiting = keep (λ other. not (other == id_of o)) marks'.visiting;
                visited = id_of o ∷ marks'.visited;
              },
            )
          ]
    ]
  ]

  -- The last loop: the object from which a cycle was come by.
  unfoldable pub find_cycle : List A → List A → Marks → Option ObjectId
  unfolding visit
  find_cycle objects [] marks = none
  find_cycle objects (o ∷ os) marks =
      let (found, marks') = visit (suc (length objects)) objects o marks in
      elim found [ true ↦ some (id_of o) | false ↦ find_cycle objects os marks' ]

  -- `validateDependencyGraph`
  unfoldable pub validate_dependency_graph : List A → List DomainGraphIssue
  unfolding find_cycle
  validate_dependency_graph objects =
      each
        (λ o.
          each (λ d. issue_if (not (is_some (by_id id_of objects d))) missing_reference (id_of o))
            (dependencies o))
        objects
      ++ cycle_issue (find_cycle objects objects (record { visiting = []; visited = [] }))
