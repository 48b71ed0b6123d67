-- ===== src/Base/Sorting.antt =====
-- `Array.sort` with a comparator: stable, by insertion. `precedes x y` says that the comparator
-- puts `x` strictly before `y`.
use mathlib.Core.Bool.{Bool, true, false}
use mathlib.Core.Path.{◌≡◌}
use mathlib.Core.Logic.{◌⊎◌, inl, inr}
use mathlib.Core.Option.{some}
use mathlib.Core.List.{List, [], ◌∷◌, Memᴰ}
use native.Mathlib.Omega.{arith}
use toaa.Base.Tests.{if◌then◌else◌, Bool-cases}
use toaa.Base.Lists.{find}

module _ {A : Type 0} (precedes : A → A → Bool) where
  abbrev pub insert : A → List A → List A
  insert x [] = x ∷ []
  insert x (y ∷ ys) = if precedes y x then y ∷ insert x ys else x ∷ y ∷ ys

  abbrev pub sort : List A → List A
  sort [] = []
  sort (x ∷ xs) = insert x (sort xs)

  insert-Memᴰ : (x : A) (ys : List A) {z : A} → Memᴰ z (insert x ys) → (z ≡ x) ⊎ Memᴰ z ys
  insert-Memᴰ x [] (Memᴰ.head e) = inl e
  insert-Memᴰ x [] (Memᴰ.tail i) = elim i [ ]
  insert-Memᴰ x (y ∷ ys) i = elim (Bool-cases (precedes y x)) [
    | inl e ↦ elim (rw e at i) [
      | Memᴰ.head same ↦ inr (Memᴰ.head same)
      | Memᴰ.tail rest ↦ elim (insert-Memᴰ x ys rest) [
        | inl same ↦ inl same
        | inr j ↦ inr (Memᴰ.tail j)
      ]
    ]
    | inr ne ↦ elim (rw ne at i) [ Memᴰ.head same ↦ inl same | Memᴰ.tail rest ↦ inr rest ]
  ]

  Memᴰ-insert : (x : A) (ys : List A) {z : A} → (z ≡ x) ⊎ Memᴰ z ys → Memᴰ z (insert x ys)
  Memᴰ-insert x [] (inl e) = Memᴰ.head e
  Memᴰ-insert x [] (inr i) = elim i [ ]
  Memᴰ-insert x (y ∷ ys) i = elim (Bool-cases (precedes y x)) [
    | inl e ↦ rw e (elim i [
      | inl same ↦ Memᴰ.tail (Memᴰ-insert x ys (inl same))
      | inr (Memᴰ.head same) ↦ Memᴰ.head same
      | inr (Memᴰ.tail j) ↦ Memᴰ.tail (Memᴰ-insert x ys (inr j))
    ])
    | inr ne ↦ rw ne (elim i [ inl same ↦ Memᴰ.head same | inr j ↦ Memᴰ.tail j ])
  ]

  pub sort-Memᴰ : (xs : List A) {z : A} → Memᴰ z (sort xs) → Memᴰ z xs
  sort-Memᴰ [] i = elim i [ ]
  sort-Memᴰ (x ∷ xs) i = elim (insert-Memᴰ x (sort xs) i) [
    | inl e ↦ Memᴰ.head e
    | inr j ↦ Memᴰ.tail (sort-Memᴰ xs j)
  ]

  pub Memᴰ-sort : (xs : List A) {z : A} → Memᴰ z xs → Memᴰ z (sort xs)
  Memᴰ-sort [] i = elim i [ ]
  Memᴰ-sort (x ∷ xs) (Memᴰ.head e) = Memᴰ-insert x (sort xs) (inl e)
  Memᴰ-sort (x ∷ xs) (Memᴰ.tail i) = Memᴰ-insert x (sort xs) (inr (Memᴰ-sort xs i))

  -- No later item goes strictly before an earlier one.
  data IsSorted : List A → Type 0 where
    nothing : IsSorted []
    more :
        {x : A} {xs : List A}
        → ((y : A) → Memᴰ y xs → precedes y x ≡ false)
        → IsSorted xs
        → IsSorted (x ∷ xs)

  module _ (asym : (x y : A) → precedes x y ≡ true → precedes y x ≡ false)
      (after : (x y z : A)
        → precedes y x ≡ false
        → precedes z y ≡ false
        → precedes z x ≡ false) where
    insert-IsSorted : (x : A) (ys : List A) → IsSorted ys → IsSorted (insert x ys)
    insert-IsSorted x [] s = more (λ y i. elim i [ ]) nothing
    insert-IsSorted x (y ∷ ys) (more least s) = elim (Bool-cases (precedes y x)) [
      | inl e ↦
          let first : (z : A) → Memᴰ z (insert x ys) → precedes z y ≡ false = λ z i.
            elim (insert-Memᴰ x ys i) [ inl same ↦ rw same (asym y x e) | inr j ↦ least z j ] in
          rw e (more first (insert-IsSorted x ys s))
      | inr ne ↦
          let first : (z : A) → Memᴰ z (y ∷ ys) → precedes z x ≡ false = λ z i. elim i [
            | Memᴰ.head same ↦ rw same ne
            | Memᴰ.tail j ↦ after x y z ne (least z j)
          ] in
          rw ne (more first (more least s))
    ]

    sort-IsSorted : (xs : List A) → IsSorted (sort xs)
    sort-IsSorted [] = nothing
    sort-IsSorted (x ∷ xs) = insert-IsSorted x (sort xs) (sort-IsSorted xs)

    find-IsSorted :
        (p : A → Bool) (xs : List A) {x y : A}
        → IsSorted xs
        → find p xs ≡ some x
        → Memᴰ y xs
        → p y ≡ true
        → precedes y x ≡ false
    find-IsSorted p [] s h i e = elim i [ ]
    find-IsSorted p (z ∷ zs) {x} {y} (more least s) h i e = elim (Bool-cases (p z)) [
      | inl first ↦
          let found : z ≡ x = ground arith in
          rw (← found) (elim i [
            | Memᴰ.head same ↦
                rw same (elim (Bool-cases (precedes z z)) [ inl b ↦ asym z z b | inr b ↦ b ])
            | Memᴰ.tail j ↦ least y j
          ])
      | inr skipped ↦
          let later : find p zs ≡ some x = ground arith in
          elim i [
            | Memᴰ.head same ↦ absurd (ground arith)
            | Memᴰ.tail j ↦ find-IsSorted p zs s later j e
          ]
    ]

    -- The first item of the sorted list that passes the test: no other that passes it goes before.
    pub find-sort :
        (p : A → Bool) (xs : List A) {x y : A}
        → find p (sort xs) ≡ some x
        → Memᴰ y xs
        → p y ≡ true
        → precedes y x ≡ false
    find-sort p xs h i e = find-IsSorted p (sort xs) (sort-IsSorted xs) h (Memᴰ-sort xs i) e
