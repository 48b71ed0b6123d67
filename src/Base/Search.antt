-- ===== src/Base/Search.antt =====
-- Searching an array by a Boolean test, and which items the search speaks of.
use mathlib.Core.Path.{◌≡◌, refl}
use mathlib.Core.Logic.{◌⊎◌, inl, inr}
use mathlib.Core.Bool.{Bool, true, false}
use mathlib.Core.Option.{none, some}
use mathlib.Core.List.{List, [], ◌∷◌, ◌++◌, Memᴰ, reverse, reverse_aux}
use native.Mathlib.Omega.{arith}
use toaa.Base.Tests.{Bool-cases, and_true}
use toaa.Base.Lists.{any, all, keep, find}

module _ {A : Type 0} where
  module _ (p : A → Bool) where
    pub any-Memᴰ : (xs : List A) → any p xs ≡ true → (x : A) × Memᴰ x xs × (p x ≡ true)
    any-Memᴰ [] h = absurd (ground arith)
    any-Memᴰ (x ∷ xs) h = elim (Bool-cases (p x)) [
      | inl e ↦ (x, Memᴰ.head refl, e)
      | inr ne ↦ let (y, i, e) = any-Memᴰ xs (ground arith) in (y, Memᴰ.tail i, e)
    ]

    pub Memᴰ-any : (xs : List A) {x : A} → Memᴰ x xs → p x ≡ true → any p xs ≡ true
    Memᴰ-any [] i h = elim i [ ]
    Memᴰ-any (y ∷ ys) (Memᴰ.head e) h = ground arith
    Memᴰ-any (y ∷ ys) (Memᴰ.tail i) h = ground (arith, Memᴰ-any ys i h)

    pub all-Memᴰ : (xs : List A) {x : A} → all p xs ≡ true → Memᴰ x xs → p x ≡ true
    all-Memᴰ [] h i = elim i [ ]
    all-Memᴰ (y ∷ ys) h (Memᴰ.head e) = ground arith
    all-Memᴰ (y ∷ ys) h (Memᴰ.tail i) = all-Memᴰ ys (and_true (p y) _ h).1 i

    pub not_all-Memᴰ : (xs : List A) → all p xs ≡ false → (x : A) × Memᴰ x xs × (p x ≡ false)
    not_all-Memᴰ [] h = absurd (ground arith)
    not_all-Memᴰ (y ∷ ys) h = elim (Bool-cases (p y)) [
      | inr e ↦ (y, Memᴰ.head refl, e)
      | inl e ↦ let (x, i, ne) = not_all-Memᴰ ys (ground arith) in (x, Memᴰ.tail i, ne)
    ]

    pub Memᴰ-all : (xs : List A) → ((x : A) → Memᴰ x xs → p x ≡ true) → all p xs ≡ true
    Memᴰ-all [] h = refl
    Memᴰ-all (y ∷ ys) h = rw (h y (Memᴰ.head refl), Memᴰ-all ys (λ x i. h x (Memᴰ.tail i)))

    pub Memᴰ-keep : (xs : List A) {x : A} → Memᴰ x xs → p x ≡ true → Memᴰ x (keep p xs)
    Memᴰ-keep [] i h = elim i [ ]
    Memᴰ-keep (y ∷ ys) (Memᴰ.head e) h = rw (← e, h) (Memᴰ.head refl)
    Memᴰ-keep (y ∷ ys) (Memᴰ.tail i) h = elim (Bool-cases (p y)) [
      | inl e ↦ rw e (Memᴰ.tail (Memᴰ-keep ys i h))
      | inr ne ↦ rw ne (Memᴰ-keep ys i h)
    ]

    pub keep-Memᴰ : (xs : List A) {x : A} → Memᴰ x (keep p xs) → Memᴰ x xs × (p x ≡ true)
    keep-Memᴰ [] i = elim i [ ]
    keep-Memᴰ (y ∷ ys) i = elim (Bool-cases (p y)) [
      | inl e ↦ elim (rw e at i) [
        | Memᴰ.head same ↦ (Memᴰ.head same, rw same e)
        | Memᴰ.tail rest ↦ let (j, h) = keep-Memᴰ ys rest in (Memᴰ.tail j, h)
      ]
      | inr ne ↦ let (j, h) = keep-Memᴰ ys (rw ne at i) in (Memᴰ.tail j, h)
    ]

    pub find-Memᴰ : (xs : List A) {x : A} → find p xs ≡ some x → Memᴰ x xs × (p x ≡ true)
    find-Memᴰ [] h = absurd (ground arith)
    find-Memᴰ (y ∷ ys) {x} h = elim (Bool-cases (p y)) [
      | inl e ↦ let same : x ≡ y = ground arith in (Memᴰ.head same, rw same e)
      | inr ne ↦
          let later : find p ys ≡ some x = ground arith in
          let (j, h') = find-Memᴰ ys later in (Memᴰ.tail j, h')
    ]

    pub find-none : (xs : List A) {x : A} → find p xs ≡ none → Memᴰ x xs → p x ≡ false
    find-none [] h i = elim i [ ]
    find-none (y ∷ ys) h (Memᴰ.head e) = ground arith
    find-none (y ∷ ys) h (Memᴰ.tail i) = elim (Bool-cases (p y)) [
      | inl e ↦ absurd (ground arith)
      | inr ne ↦ find-none ys (rw ne at h) i
    ]

  pub Memᴰ-append : (xs ys : List A) {x : A} → Memᴰ x (xs ++ ys) → Memᴰ x xs ⊎ Memᴰ x ys
  Memᴰ-append [] ys i = inr i
  Memᴰ-append (z ∷ zs) ys (Memᴰ.head e) = inl (Memᴰ.head e)
  Memᴰ-append (z ∷ zs) ys (Memᴰ.tail i) = elim (Memᴰ-append zs ys i) [
    | inl j ↦ inl (Memᴰ.tail j)
    | inr j ↦ inr j
  ]

  pub Memᴰ-append_left : (xs ys : List A) {x : A} → Memᴰ x xs → Memᴰ x (xs ++ ys)
  Memᴰ-append_left [] ys i = elim i [ ]
  Memᴰ-append_left (z ∷ zs) ys (Memᴰ.head e) = Memᴰ.head e
  Memᴰ-append_left (z ∷ zs) ys (Memᴰ.tail i) = Memᴰ.tail (Memᴰ-append_left zs ys i)

  pub Memᴰ-append_right : (xs ys : List A) {x : A} → Memᴰ x ys → Memᴰ x (xs ++ ys)
  Memᴰ-append_right [] ys i = i
  Memᴰ-append_right (z ∷ zs) ys i = Memᴰ.tail (Memᴰ-append_right zs ys i)

  Memᴰ-reverse_aux : (xs ys : List A) {x : A} → Memᴰ x (reverse_aux xs ys) → Memᴰ x xs ⊎ Memᴰ x ys
  Memᴰ-reverse_aux [] ys i = inr i
  Memᴰ-reverse_aux (z ∷ zs) ys i = elim (Memᴰ-reverse_aux zs (z ∷ ys) i) [
    | inl j ↦ inl (Memᴰ.tail j)
    | inr (Memᴰ.head e) ↦ inl (Memᴰ.head e)
    | inr (Memᴰ.tail j) ↦ inr j
  ]

  pub Memᴰ-reverse : (xs : List A) {x : A} → Memᴰ x (reverse xs) → Memᴰ x xs
  Memᴰ-reverse xs i = elim (Memᴰ-reverse_aux xs [] i) [ inl j ↦ j | inr j ↦ elim j [ ] ]
