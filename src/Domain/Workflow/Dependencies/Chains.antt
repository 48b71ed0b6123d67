-- ===== src/Domain/Workflow/Dependencies/Chains.antt =====
-- src/domain/workflow/domain_graph.ts: chains of dependencies, and cycles.
use toaa.Base.{
  List, Option, some, ◌==◌, ==_iff, reverse, ◌≡◌, refl, sym, subst, ◌⊎◌, inl, inr, Memᴰ, find-Memᴰ,
  Memᴰ-reverse,
}
use toaa.Domain.Objects.{ObjectId}
use toaa.Domain.Workflow.Dependencies.{by_id}

module _ {A : Type 0} (id_of : A → ObjectId) (dependencies : A → List ObjectId)
    (objects : List A) where
  abbrev pub resolve : ObjectId → Option A
  resolve = by_id id_of objects

  -- Each object is the one that its id stands for.
  abbrev pub IsNamed : Type 0
  IsNamed = (o : A) → Memᴰ o objects → resolve (id_of o) ≡ some o

  -- Every chain of dependencies from the object ends.
  pub data Grounded : ObjectId → Type 0 where
    grounded :
        {id : ObjectId}
        → ((o : A) (d : ObjectId) → resolve id ≡ some o → Memᴰ d (dependencies o) → Grounded d)
        → Grounded id

  -- A dependency of a dependency, and so on, at least one.
  pub data Leads : ObjectId → ObjectId → Type 0 where
    one : {a b : ObjectId} {o : A} → resolve a ≡ some o → Memᴰ b (dependencies o) → Leads a b
    more : {a b c : ObjectId} → Leads a b → Leads b c → Leads a c

  pub Grounded-Leads : {a b : ObjectId} → Leads a b → Grounded a → Grounded b
  Grounded-Leads (one {b = b} {o = o} e i) (grounded g) = g o b e i
  Grounded-Leads (more l r) g = Grounded-Leads r (Grounded-Leads l g)

  -- The first dependency of a chain.
  Leads-first :
      {a b : ObjectId}
      → Leads a b
      → (o : A) × (d : ObjectId) × (resolve a ≡ some o)
        × Memᴰ d (dependencies o)
        × ((d ≡ b) ⊎ Leads d b)
  Leads-first (one {b = b} {o = o} e i) = (o, b, e, i, inl refl)
  Leads-first (more {b = b} l r) =
      let (o, d, e, i, rest) = Leads-first l in
      (o, d, e, i, inr (elim rest [ inl s ↦ rw s r | inr m ↦ more m r ]))

  pub Grounded-acyclic : {a : ObjectId} → Grounded a → ¬ Leads a a
  Grounded-acyclic {a} (grounded g) l =
      let (o, d, e, i, rest) = Leads-first l in
      Grounded-acyclic (g o d e i) (elim rest [ inl s ↦ rw s l | inr m ↦ more m (one e i) ])

  pub resolve-id : (d : ObjectId) {o : A} → resolve d ≡ some o → Memᴰ o objects × (id_of o ≡ d)
  resolve-id d {o} h =
      let (i, e) = find-Memᴰ (λ x. id_of x == d) (reverse objects) h in
      (Memᴰ-reverse objects i, (==_iff (id_of o) d).0 e)

  pub resolve-own : (d : ObjectId) {o : A} → resolve d ≡ some o → resolve (id_of o) ≡ some o
  resolve-own d {o} h = let (_, e) = resolve-id d h in subst (λ x. resolve x ≡ some o) (sym e) h
