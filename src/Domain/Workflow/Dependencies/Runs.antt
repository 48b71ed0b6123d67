-- ===== src/Domain/Workflow/Dependencies/Runs.antt =====
-- src/domain/workflow/domain_graph.ts, validateDependencyGraph: the ways in which its search goes.
use toaa.Base.{
  ℕ, suc, Bool, true, false, not, List, [], ◌∷◌, Option, none, some, ◌==◌, keep, ◌≡◌, sym, ap, ◌∙◌,
  inl, inr, Bool-cases, Option-cases,
}
use toaa.Domain.Objects.{ObjectId}
use toaa.Domain.Workflow.Dependencies.{has, Marks, visit_each, visit}
use toaa.Domain.Workflow.Dependencies.Chains.{resolve}

module _ {A : Type 0} (id_of : A → ObjectId) (dependencies : A → List ObjectId)
    (objects : List A) where
  abbrev to : ObjectId → Option A
  to = resolve id_of dependencies objects

  -- The ways in which the loop over the dependencies goes.
  pub data Runs (v : A → Marks → Bool × Marks) : List ObjectId → Marks → Bool → Marks → Type 0 where
    done : {m : Marks} → Runs v [] m false m
    gap :
        {d : ObjectId} {ds : List ObjectId} {m m' : Marks} {b : Bool}
        → to d ≡ none
        → Runs v ds m b m'
        → Runs v (d ∷ ds) m b m'
    hit :
        {d : ObjectId} {ds : List ObjectId} {m m' : Marks} {o : A}
        → to d ≡ some o
        → v o m ≡ (true, m')
        → Runs v (d ∷ ds) m true m'
    pass :
        {d : ObjectId} {ds : List ObjectId} {m m₁ m' : Marks} {o : A} {b : Bool}
        → to d ≡ some o
        → v o m ≡ (false, m₁)
        → Runs v ds m₁ b m'
        → Runs v (d ∷ ds) m b m'

  pub visit_each-Runs :
      (v : A → Marks → Bool × Marks) (ds : List ObjectId) (m : Marks) {b : Bool} {m' : Marks}
      → visit_each id_of dependencies v objects ds m ≡ (b, m')
      → Runs v ds m b m'
  unfolding visit_each
  visit_each-Runs v [] m {b} {m'} h =
      let out : false ≡ b = ap (λ x. x.0) h in
      let same_marks : m ≡ m' = ap (λ x. x.1) h in rw (← out, ← same_marks) done
  visit_each-Runs v (d ∷ ds) m {b} {m'} h = elim (Option-cases (to d)) [
    | inl e ↦ gap e (visit_each-Runs v ds m (rw (visit_each, e) at h))
    | inr (o, e) ↦ elim (Bool-cases (v o m).0) [
      | inl t ↦
          let k = rw (visit_each, e, t) at h in
          let out : true ≡ b = ap (λ x. x.0) k in
          let same_marks : (v o m).1 ≡ m' = ap (λ x. x.1) k in
          rw (← out) (hit e (ap (λ a. (a, (v o m).1)) t ∙ ap (λ x. (true, x)) same_marks))
      | inr f ↦
          pass {m₁ = (v o m).1} e (ap (λ a. (a, (v o m).1)) f)
            (visit_each-Runs v ds (v o m).1 (rw (visit_each, e, f) at h))
    ]
  ]

  abbrev pub entered : A → Marks → Marks
  entered o m = record m { visiting = id_of o ∷ m.visiting }

  abbrev pub left : A → Marks → Marks
  left o m = record {
    visiting = keep (λ other. not (other == id_of o)) m.visiting;
    visited = id_of o ∷ m.visited;
  }

  -- The ways in which a visit goes.
  pub data Visits (fuel : ℕ) (o : A) (m : Marks) : Bool → Marks → Type 0 where
    on_path : {m' : Marks} → has (id_of o) m.visiting ≡ true → Visits fuel o m true m'
    seen : {m' : Marks} → has (id_of o) m.visited ≡ true → m' ≡ m → Visits fuel o m false m'
    cyclic :
        {m' : Marks}
        → has (id_of o) m.visiting ≡ false
        → Runs (visit id_of dependencies fuel objects) (dependencies o) (entered o m) true m'
        → Visits fuel o m true m'
    clear :
        {m₁ m' : Marks}
        → has (id_of o) m.visiting ≡ false
        → Runs (visit id_of dependencies fuel objects) (dependencies o) (entered o m) false m₁
        → m' ≡ left o m₁
        → Visits fuel o m false m'

  pub visit-Visits :
      (fuel : ℕ) (o : A) (m : Marks) {b : Bool} {m' : Marks}
      → visit id_of dependencies (suc fuel) objects o m ≡ (b, m')
      → Visits fuel o m b m'
  unfolding visit
  visit-Visits fuel o m {b} {m'} h = elim (Bool-cases (has (id_of o) m.visiting)) [
    | inl e ↦ let out : true ≡ b = ap (λ x. x.0) (rw (visit, e) at h) in rw (← out) (on_path e)
    | inr e ↦ elim (Bool-cases (has (id_of o) m.visited)) [
      | inl f ↦
          let k = rw (visit, e, f) at h in
          let out : false ≡ b = ap (λ x. x.0) k in
          let same_marks : m ≡ m' = ap (λ x. x.1) k in rw (← out) (seen f (sym same_marks))
      | inr f ↦
          let v = visit id_of dependencies fuel objects in
          let r = visit_each id_of dependencies v objects (dependencies o) (entered o m) in
          elim (Bool-cases r.0) [
            | inl t ↦
                let k = rw (visit, e, f, t) at h in
                let out : true ≡ b = ap (λ x. x.0) k in
                let end : r.1 ≡ m' = ap (λ x. x.1) k in
                let it : r ≡ (true, m') = ap (λ a. (a, r.1)) t ∙ ap (λ x. (true, x)) end in
                rw (← out) (cyclic e (visit_each-Runs v (dependencies o) (entered o m) it))
            | inr t ↦
                let k = rw (visit, e, f, t) at h in
                let out : false ≡ b = ap (λ x. x.0) k in
                let end : left o r.1 ≡ m' = ap (λ x. x.1) k in
                let it : r ≡ (false, r.1) = ap (λ a. (a, r.1)) t in
                rw (← out) (clear e (visit_each-Runs v (dependencies o) (entered o m) it) (sym end))
          ]
    ]
  ]
