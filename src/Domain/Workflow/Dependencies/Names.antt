-- ===== src/Domain/Workflow/Dependencies/Names.antt =====
-- src/domain/workflow/domain_graph.ts: ids of their own, and looking an object up by its id.
use toaa.Base.{
  true, false, List, [], ◌∷◌, ◌++◌, map, some, ◌==◌, ==_iff, reverse, ◌≡◌, refl, sym, subst, ◌∙◌,
  inl, inr, ◌↔◌, arith, Memᴰ, Bool-cases, Option-cases, find-Memᴰ, find-none, any-Memᴰ, Memᴰ-any,
  Memᴰ-reverse, Memᴰ-append_left, ap,
}
use mathlib.Core.List.{reverse-reverse}
use toaa.Domain.Objects.{ObjectId}
use toaa.Domain.Workflow.Dependencies.{has, by_id}

-- No id stands in the list twice.
abbrev pub Distinct : List ObjectId → Type 0
Distinct [] = Unit
Distinct (x ∷ xs) = (¬ Memᴰ x xs) × Distinct xs

pub Distinct-append : (xs ys : List ObjectId) → Distinct (xs ++ ys) → Distinct xs × Distinct ys
Distinct-append [] ys d = (tt, d)
Distinct-append (x ∷ xs) ys (fresh, d) =
    let (a, b) = Distinct-append xs ys d in ((λ i. fresh (Memᴰ-append_left xs ys i), a), b)

pub has-Memᴰ : (id : ObjectId) (ids : List ObjectId) → has id ids ≡ true → Memᴰ id ids
has-Memᴰ id ids h =
    let (x, i, e) = any-Memᴰ (λ y. y == id) ids h in subst (λ y. Memᴰ y ids) ((==_iff x id).0 e) i

pub has_iff : (id : ObjectId) (ids : List ObjectId) → (has id ids ≡ false) ↔ (¬ Memᴰ id ids)
has_iff id ids = (
  λ h i. let e = Memᴰ-any (λ y. y == id) ids i ((==_iff id id).1 refl) in cc,
  λ h. elim (Bool-cases (has id ids)) [ inl e ↦ absurd (h (has-Memᴰ id ids e)) | inr e ↦ e ],
)

module _ {A : Type 0} (id_of : A → ObjectId) where
  pub Memᴰ-ids : (xs : List A) {o : A} → Memᴰ o xs → Memᴰ (id_of o) (map id_of xs)
  Memᴰ-ids [] i = elim i [ ]
  Memᴰ-ids (x ∷ xs) (Memᴰ.head e) = Memᴰ.head (ap id_of e)
  Memᴰ-ids (x ∷ xs) (Memᴰ.tail i) = Memᴰ.tail (Memᴰ-ids xs i)

  Distinct-same :
      (xs : List A) {a b : A}
      → Distinct (map id_of xs)
      → Memᴰ a xs
      → Memᴰ b xs
      → id_of a ≡ id_of b
      → a ≡ b
  Distinct-same [] d i j e = elim i [ ]
  Distinct-same (x ∷ xs) d (Memᴰ.head s) (Memᴰ.head r) e = s ∙ sym r
  Distinct-same (x ∷ xs) (fresh, d) (Memᴰ.head s) (Memᴰ.tail j) e =
      absurd (fresh (subst (λ y. Memᴰ y (map id_of xs)) (sym e ∙ ap id_of s) (Memᴰ-ids xs j)))
  Distinct-same (x ∷ xs) (fresh, d) (Memᴰ.tail i) (Memᴰ.head s) e =
      absurd (fresh (subst (λ y. Memᴰ y (map id_of xs)) (e ∙ ap id_of s) (Memᴰ-ids xs i)))
  Distinct-same (x ∷ xs) (fresh, d) (Memᴰ.tail i) (Memᴰ.tail j) e = Distinct-same xs d i j e

  -- Among objects with ids of their own each is what its id stands for.
  pub by_id-own :
      (xs : List A) {o : A}
      → Distinct (map id_of xs)
      → Memᴰ o xs
      → by_id id_of xs (id_of o) ≡ some o
  by_id-own xs {o} d i = elim (Option-cases (by_id id_of xs (id_of o))) [
    | inl e ↦
        let turned : Memᴰ o (reverse xs) =
          Memᴰ-reverse (reverse xs) (subst (λ ys. Memᴰ o ys) (sym (reverse-reverse xs)) i) in
        let missed = find-none (λ x. id_of x == id_of o) (reverse xs) e turned in
        absurd (ground arith)
    | inr (o', e) ↦
        let (j, s) = find-Memᴰ (λ x. id_of x == id_of o) (reverse xs) e in
        let it =
          Distinct-same xs d i (Memᴰ-reverse xs j) (sym ((==_iff (id_of o') (id_of o)).0 s)) in
        e ∙ ap some (sym it)
  ]
