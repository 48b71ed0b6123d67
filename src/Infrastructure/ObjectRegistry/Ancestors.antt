-- ===== src/Infrastructure/ObjectRegistry/Ancestors.antt =====
-- src/infrastructure/registry/object_registry.ts, assertProjectAndParentIn: how far the loop over the
-- ancestors goes.
use toaa.Base.{
  ℕ, zero, suc, ◌≤◌, ◌<◌, Bool, true, false, [], ◌∷◌, Option, none, some, ◌≡◌, ◌≢◌, refl, sym, ap,
  ◌∙◌, arith, ◌==◌, length, if◌then◌else◌, ◌↔◌, inl, inr, Bool-cases, Option-cases, ℕ_discrete,
  same, some-injective,
}
use toaa.Domain.Objects.{ObjectId}
use toaa.Infrastructure.ObjectRegistry.Types.{RegistryEntry, Entries, get_entry}
use toaa.Infrastructure.ObjectRegistry.Writes.{is_ancestor}

-- The program's loop, with no bound: from where it stands it goes up so many links, and ends.
pub data Climbs (entries : Entries) (id : ObjectId) : ℕ → Option ObjectId → Bool → Type 0 where
  at_top : Climbs entries id zero none false
  at_gap :
      {next : ObjectId} → get_entry next entries ≡ none → Climbs entries id zero (some next) false
  at_object :
      {next : ObjectId} {ancestor : RegistryEntry}
      → get_entry next entries ≡ some ancestor
      → (ancestor.id == id) ≡ true
      → Climbs entries id zero (some next) true
  up :
      {next : ObjectId} {ancestor : RegistryEntry} {n : ℕ} {b : Bool}
      → get_entry next entries ≡ some ancestor
      → (ancestor.id == id) ≡ false
      → Climbs entries id n ancestor.parent_id b
      → Climbs entries id (suc n) (some next) b

-- The loop goes one way only.
Climbs-unique :
    (m : Entries) (id : ObjectId) {n k : ℕ} {start : Option ObjectId} {a b : Bool}
    → Climbs m id n start a
    → Climbs m id k start b
    → n ≡ k
Climbs-unique m id at_top at_top = refl
Climbs-unique m id (at_gap e) (at_gap f) = refl
Climbs-unique m id (at_gap e) (at_object f x) = refl
Climbs-unique m id (at_gap e) (up f x c) = cc
Climbs-unique m id (at_object f x) (at_gap e) = refl
Climbs-unique m id (at_object f x) (at_object e y) = refl
Climbs-unique m id (at_object f x) (up e y c) =
    let same_entry = some-injective (sym f ∙ e) in absurd (ground arith)
Climbs-unique m id (up f x c) (at_gap e) = cc
Climbs-unique m id (up f x c) (at_object e y) =
    let same_entry = some-injective (sym f ∙ e) in absurd (ground arith)
Climbs-unique m id (up {ancestor = p} f x c) (up {ancestor = q} e y d) =
    let same_entry : q ≡ p = some-injective (sym e ∙ f) in
    ap suc (Climbs-unique m id c (rw same_entry at d))

abbrev without : ObjectId → Entries → Entries
without id [] = []
without id ((k, e) ∷ m) =
    let rest = without id m in if same ℕ_discrete k id then rest else (k, e) ∷ rest

length-without_le : (id : ObjectId) (m : Entries) → length (without id m) ≤ length m
length-without_le id [] = omega arith
length-without_le id ((k, e) ∷ m) = let ih = length-without_le id m in ground arith

length-without :
    (id : ObjectId) (m : Entries) {e : RegistryEntry}
    → get_entry id m ≡ some e
    → length (without id m) < length m
unfolding ℕ_discrete
length-without id [] h = cc
length-without id ((k, v) ∷ m) {e} h = elim (ℕ_discrete k id) [
  | yes s ↦ let le = length-without_le id m in ground arith
  | no ne ↦
      let later : get_entry id m ≡ some e = ground arith in
      let ih = length-without id m later in ground arith
]

get-without : (id j : ObjectId) (m : Entries) → j ≢ id → get_entry j (without id m) ≡ get_entry j m
unfolding ℕ_discrete
get-without id j [] ne = refl
get-without id j ((k, e) ∷ m) ne = let ih = get-without id j m ne in ground arith

Climbs-apart :
    (m : Entries) (id at next : ObjectId) {n k : ℕ} {a b : Bool}
    → Climbs m id n (some at) a
    → Climbs m id k (some next) b
    → k < n
    → next ≢ at
Climbs-apart m id at next long c less e =
    let same_length = Climbs-unique m id long (rw e at c) in omega arith

-- A walk of fewer links than one that starts at an entry does not come by that entry.
Climbs-without :
    (m : Entries) (id at : ObjectId) {n k : ℕ} {start : Option ObjectId} {a b : Bool}
    → Climbs m id n (some at) a
    → Climbs m id k start b
    → k < n
    → Climbs (without at m) id k start b
Climbs-without m id at long at_top less = at_top
Climbs-without m id at long (at_gap {next = next} e) less =
    at_gap (get-without at next m (Climbs-apart m id at next long (at_gap e) less) ∙ e)
Climbs-without m id at long (at_object {next = next} e x) less =
    at_object (get-without at next m (Climbs-apart m id at next long (at_object e x) less) ∙ e) x
Climbs-without m id at long (up {next = next} e x c) less =
    up (get-without at next m (Climbs-apart m id at next long (up e x c) less) ∙ e) x
      (Climbs-without m id at long c (omega arith))

Climbs-short :
    (n : ℕ) (m : Entries) {id : ObjectId} {start : Option ObjectId} {b : Bool}
    → Climbs m id n start b
    → n ≤ length m
Climbs-short zero m c = omega arith
Climbs-short (suc n) m {id} (up {next = next} e x c) =
    let ih =
      Climbs-short n (without next m) (Climbs-without m id next (up e x c) c (omega arith)) in
    let less = length-without next m e in omega (arith, ih, less)

is_ancestor-Climbs :
    (m : Entries) (id : ObjectId) (fuel : ℕ) {n : ℕ} {start : Option ObjectId} {b : Bool}
    → Climbs m id n start b
    → n < fuel
    → is_ancestor fuel m id start ≡ b
unfolding is_ancestor
is_ancestor-Climbs m id zero c h = absurd (omega arith)
is_ancestor-Climbs m id (suc fuel) at_top h = refl
is_ancestor-Climbs m id (suc fuel) (at_gap e) h = rw (is_ancestor, e) refl
is_ancestor-Climbs m id (suc fuel) (at_object e x) h = rw (is_ancestor, e, x) refl
is_ancestor-Climbs m id (suc fuel) (up e x c) h =
    rw (is_ancestor, e, x) (is_ancestor-Climbs m id fuel c (omega arith))

Climbs-is_ancestor :
    (m : Entries) (id : ObjectId) (fuel : ℕ) (start : Option ObjectId)
    → is_ancestor fuel m id start ≡ false
    → (n : ℕ) × Climbs m id n start false
unfolding is_ancestor
Climbs-is_ancestor m id fuel none h = (0, at_top)
Climbs-is_ancestor m id zero (some next) h = cc
Climbs-is_ancestor m id (suc fuel) (some next) h = elim (Option-cases (get_entry next m)) [
  | inl e ↦ (0, at_gap e)
  | inr (ancestor, e) ↦ elim (Bool-cases (ancestor.id == id)) [
    | inl x ↦
        let found : is_ancestor (suc fuel) m id (some next) ≡ true = rw (is_ancestor, e, x) refl in
        cc
    | inr x ↦
        let (n, c) =
          Climbs-is_ancestor m id fuel ancestor.parent_id (rw (is_ancestor, e, x) at h) in
        (suc n, up e x c)
  ]
]

-- The walk over the ancestors of an object says no exactly when the program's loop, which has no
-- bound, ends without coming by the object; the fuel of one link more than there are entries is
-- enough.
pub is_ancestor-iff_Climbs :
    (m : Entries) (id : ObjectId) (start : Option ObjectId)
    → (is_ancestor (suc (length m)) m id start ≡ false) ↔ ((n : ℕ) × Climbs m id n start false)
is_ancestor-iff_Climbs m id start = (
  Climbs-is_ancestor m id (suc (length m)) start,
  λ (n, c).
      is_ancestor-Climbs m id (suc (length m)) c
        (let short = Climbs-short n m c in omega (arith, short)),
)
