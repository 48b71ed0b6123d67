-- ===== src/Domain/Workflow/DomainGraph/Checks.antt =====
-- src/domain/workflow/domain_graph.ts: the checks that several kinds of objects share.
use toaa.Base.{
  Bool, true, false, not, ◌||◌, List, [], ◌∷◌, map, Option, none, some, is_some, ◌≡◌, refl, inl,
  inr, ◌↔◌, ◌==◌, ==_iff, Memᴰ, Option-cases, All,
}
use toaa.Domain.Objects.{ObjectId, ObjectEnvelope}
use toaa.Domain.Workflow.Issues.{
  duplicate_id, foreign_project, missing_reference, issue_if, append_iff, append-append_iff,
  each_iff, issue_if_iff,
}
use toaa.Domain.Workflow.Dependencies.{
  has, by_id, validate_dependency_graph, find_cycle, cycle_issue,
}
use toaa.Domain.Workflow.Dependencies.Names.{Distinct, has_iff}
use toaa.Domain.Workflow.Dependencies.Chains.{IsNamed}
use toaa.Domain.Workflow.Dependencies.Cycles.{find_cycle-iff_Grounded}
use toaa.Domain.Workflow.DomainGraph.{object_issues, validate_exact_references}
use toaa.Domain.Workflow.DomainGraph.WellFormed.{Stands, IsOrdered}

pub iff_trans : {P Q R : Type 0} → P ↔ Q → Q ↔ R → P ↔ R
iff_trans f g = (λ p. g.0 (f.0 p), λ r. f.1 (g.1 r))

pub Stands-iff :
    {A : Type 0} (id_of : A → ObjectId) (objects : List A) (id : ObjectId)
    → (not (is_some (by_id id_of objects id)) ≡ false) ↔ Stands id_of objects id
Stands-iff id_of objects id = elim (Option-cases (by_id id_of objects id)) [
  | inl e ↦ rw e (λ h. absurd (cc), λ (o, h). absurd (cc))
  | inr (o, e) ↦ rw e (λ h. (o, refl), λ h. refl)
]

pub exact_iff :
    {A : Type 0} (id_of : A → ObjectId) (objects : List A) (owner : ObjectId) (ids : List ObjectId)
    → (validate_exact_references id_of objects owner ids ≡ []) ↔ All (Stands id_of objects) ids
unfolding validate_exact_references
exact_iff id_of objects owner ids =
    each_iff (λ id. issue_if (not (is_some (by_id id_of objects id))) missing_reference owner) ids
      (λ id i.
        issue_if_iff (not (is_some (by_id id_of objects id))) missing_reference owner
          (Stands-iff id_of objects id))

cycle_iff : (found : Option ObjectId) → (cycle_issue found ≡ []) ↔ (found ≡ none)
cycle_iff none = (λ e. refl, λ e. refl)
cycle_iff (some id) = (λ e. absurd (cc), λ e. absurd (cc))

pub IsOrdered-iff :
    {A : Type 0} (id_of : A → ObjectId) (dependencies : A → List ObjectId) (objects : List A)
    → IsNamed id_of dependencies objects
    → (validate_dependency_graph id_of dependencies objects ≡ [])
      ↔ IsOrdered id_of dependencies objects
unfolding validate_dependency_graph
IsOrdered-iff id_of dependencies objects named =
    append_iff _ (cycle_issue found)
      (each_iff _ objects (λ o i. each_iff _ (dependencies o) (λ d j.
        issue_if_iff (not (is_some (by_id id_of objects d))) missing_reference (id_of o)
          (Stands-iff id_of objects d))))
      (iff_trans (cycle_iff found) (find_cycle-iff_Grounded id_of dependencies objects named))
  where
    found : Option ObjectId
    found = find_cycle id_of dependencies objects objects (record { visiting = []; visited = [] })

pub not_iff : (test : Bool) → (not test ≡ false) ↔ (test ≡ true)
not_iff true = (λ h. refl, λ h. refl)
not_iff false = (λ h. absurd (cc), λ h. absurd (cc))

pub or_iff : (a b : Bool) → ((a || b) ≡ false) ↔ ((a ≡ false) × (b ≡ false))
or_iff true b = (λ h. absurd (cc), λ (h, k). absurd (cc))
or_iff false b = (λ h. (refl, h), λ (h, k). k)

pub own_iff : (a b : ObjectId) → (not (a == b) ≡ false) ↔ (a ≡ b)
own_iff a b = iff_trans (not_iff (a == b)) (==_iff a b)

abbrev pub IsFresh : List ObjectId → List ObjectId → Type 0
IsFresh seen ids = (id : ObjectId) → Memᴰ id ids → ¬ Memᴰ id seen

pub objects_iff :
    (root : ObjectId) (seen : List ObjectId) (os : List ObjectEnvelope)
    → (object_issues root seen os ≡ []) ↔ (
        All (λ o. o.project_id ≡ root) os
        × Distinct (map (λ o. o.id) os)
        × IsFresh seen (map (λ o. o.id) os))
unfolding object_issues
objects_iff root seen [] = (λ e. (tt, tt, λ id i. elim i [ ]), λ h. refl)
objects_iff root seen (o ∷ os) =
    let parts =
      append-append_iff (issue_if (has o.id seen) duplicate_id o.id)
        (issue_if (not (o.project_id == root)) foreign_project o.id)
        (object_issues root (o.id ∷ seen) os)
        (issue_if_iff (has o.id seen) duplicate_id o.id (has_iff o.id seen))
        (issue_if_iff (not (o.project_id == root)) foreign_project o.id (own_iff o.project_id root))
        (objects_iff root (o.id ∷ seen) os) in
    iff_trans parts (
      λ (fresh, own, (all, distinct, later)). (
        (own, all),
        (λ i. later o.id i (Memᴰ.head refl), distinct),
        λ id i. elim i [ Memᴰ.head s ↦ rw s fresh | Memᴰ.tail j ↦ λ k. later id j (Memᴰ.tail k) ],
      ),
      λ ((own, all), (new, distinct), fresh). (
        fresh o.id (Memᴰ.head refl),
        own,
        (
          all,
          distinct,
          λ id i k. elim k [
            | Memᴰ.head s ↦ new (rw s at i)
            | Memᴰ.tail j ↦ fresh id (Memᴰ.tail i) j
          ],
        ),
      ),
    )
