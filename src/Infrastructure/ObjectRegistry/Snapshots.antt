-- ===== src/Infrastructure/ObjectRegistry/Snapshots.antt =====
-- src/infrastructure/registry/object_registry.ts: a snapshot holds the entries of the index.
use toaa.Base.{
  ℕ, Bool, true, false, List, [], ◌∷◌, none, some, ◌≡◌, refl, sym, ◌∙◌, inl, inr, arith, ◌==◌,
  ==_iff, some-injective, Memᴰ, Bool-cases, Option-cases, any, any-Memᴰ, ℕ_discrete, get-put, same,
  sort-Memᴰ, Memᴰ-sort, ltb,
}
use toaa.Domain.Objects.{ObjectId}
use toaa.Infrastructure.ObjectRegistry.Types.{
  EventBase, RegistryEntry, RegistryEvent, Entries, get_entry, put_entry, Index,
}
use toaa.Infrastructure.ObjectRegistry.Events.{values, sorted_entries, put_all}
use toaa.Infrastructure.ObjectRegistry.Replay.{Leads, stay, grow}

-- Every entry stands under its own id, and no id twice.
pub data IsKeyed : Entries → Type 0 where
  nothing : IsKeyed []
  more :
      {id : ObjectId} {entry : RegistryEntry} {entries : Entries}
      → get_entry id entries ≡ none
      → entry.id ≡ id
      → IsKeyed entries
      → IsKeyed ((id, entry) ∷ entries)

pub IsKeyed-put :
    (id : ObjectId) (entry : RegistryEntry) (entries : Entries)
    → entry.id ≡ id
    → IsKeyed entries
    → IsKeyed (put_entry id entry entries)
unfolding ℕ_discrete
IsKeyed-put id entry [] own k = more refl own nothing
IsKeyed-put id entry ((j, w) ∷ m) own (more fresh named k) =
    elim (Bool-cases (same ℕ_discrete j id)) [
      | inl e ↦ let same_id : j ≡ id = ground arith in rw e (more fresh (own ∙ sym same_id) k)
      | inr e ↦
          let apart : same ℕ_discrete id j ≡ false = ground arith in
          rw e (
            more (get-put ℕ_discrete id j entry m ∙ rw apart fresh) named
              (IsKeyed-put id entry m own k))
    ]

pub Leads-IsKeyed :
    {hash : EventBase → ℕ} {a b : Index} {events : List RegistryEvent}
    → Leads hash a events b
    → IsKeyed a.entries
    → IsKeyed b.entries
Leads-IsKeyed stay k = k
Leads-IsKeyed (grow {index} {event} f l) k =
    Leads-IsKeyed l (IsKeyed-put event.object_id event.entry index.entries (sym f.own) k)

values-get :
    (m : Entries) {e : RegistryEntry} → IsKeyed m → Memᴰ e (values m) → get_entry e.id m ≡ some e
unfolding ℕ_discrete
values-get [] k i = elim i [ ]
values-get ((j, w) ∷ m) {e} (more fresh named k) (Memᴰ.head at) = rw at (ground arith)
values-get ((j, w) ∷ m) {e} (more fresh named k) (Memᴰ.tail i) =
    let found : get_entry e.id m ≡ some e = values-get m k i in
    elim (ℕ_discrete j e.id) [
      | yes same_id ↦ let none_here = rw same_id at fresh in absurd (ground arith)
      | no apart ↦ ground arith
    ]

pub get-values :
    (m : Entries) (id : ObjectId) {e : RegistryEntry}
    → IsKeyed m
    → get_entry id m ≡ some e
    → Memᴰ e (values m) × (e.id ≡ id)
unfolding ℕ_discrete
get-values [] id k h = cc
get-values ((j, w) ∷ m) id {e} (more fresh named k) h = elim (ℕ_discrete j id) [
  | yes same_id ↦ let it : w ≡ e = ground arith in (Memᴰ.head (sym it), rw (← it) (named ∙ same_id))
  | no apart ↦
      let later : get_entry id m ≡ some e = ground arith in
      let (i, own) = get-values m id k later in (Memᴰ.tail i, own)
]

put_all-skip :
    (xs : List RegistryEntry) (m : Entries) (id : ObjectId)
    → any (λ e. e.id == id) xs ≡ false
    → get_entry id (put_all xs m) ≡ get_entry id m
unfolding ℕ_discrete
put_all-skip [] m id h = refl
put_all-skip (x ∷ xs) m id h =
    let later : any (λ e. e.id == id) xs ≡ false = ground arith in
    let apart : same ℕ_discrete x.id id ≡ false = ground arith in
    put_all-skip xs (put_entry x.id x m) id later ∙ get-put ℕ_discrete x.id id x m ∙ rw apart refl

put_all-Memᴰ :
    (xs : List RegistryEntry) (m : Entries) {e : RegistryEntry}
    → ((a b : RegistryEntry) → Memᴰ a xs → Memᴰ b xs → a.id ≡ b.id → a ≡ b)
    → Memᴰ e xs
    → get_entry e.id (put_all xs m) ≡ some e
unfolding ℕ_discrete
put_all-Memᴰ [] m unique i = elim i [ ]
put_all-Memᴰ (x ∷ xs) m {e} unique i =
    let later : (a b : RegistryEntry) → Memᴰ a xs → Memᴰ b xs → a.id ≡ b.id → a ≡ b =
      λ a b j k. unique a b (Memᴰ.tail j) (Memᴰ.tail k) in
    elim (Bool-cases (any (λ y. y.id == e.id) xs)) [
      | inl h ↦
          let (y, j, own) = any-Memᴰ (λ y. y.id == e.id) xs h in
          let it : y ≡ e = unique y e (Memᴰ.tail j) i ((==_iff y.id e.id).0 own) in
          rw (← it) (put_all-Memᴰ xs (put_entry x.id x m) later j)
      | inr h ↦ elim i [
        | Memᴰ.tail j ↦ put_all-Memᴰ xs (put_entry x.id x m) later j
        | Memᴰ.head at ↦
            let here : same ℕ_discrete x.id e.id ≡ true = rw at (ground arith) in
            put_all-skip xs (put_entry x.id x m) e.id h
            ∙ get-put ℕ_discrete x.id e.id x m
            ∙ rw (here, at) refl
      ]
    ]

-- Reading a snapshot back gives a map with the same value under every id.
pub get-sorted_entries :
    (m : Entries) (id : ObjectId)
    → IsKeyed m
    → get_entry id (put_all (sorted_entries m) []) ≡ get_entry id m
get-sorted_entries m id k =
    let before : RegistryEntry → RegistryEntry → Bool = λ a b. ltb a.id b.id in
    let unique : (a b : RegistryEntry)
        → Memᴰ a (sorted_entries m)
        → Memᴰ b (sorted_entries m)
        → a.id ≡ b.id
        → a ≡ b =
      λ a b i j e. some-injective (
        sym (values-get m k (sort-Memᴰ before _ i))
        ∙ rw e (values-get m k (sort-Memᴰ before _ j))) in
    elim (Option-cases (get_entry id m)) [
      | inr (e, h) ↦
          let (i, own) = get-values m id k h in
          rw (h, ← own) (put_all-Memᴰ (sorted_entries m) [] unique (Memᴰ-sort before _ i))
      | inl h ↦ elim (Bool-cases (any (λ e. e.id == id) (sorted_entries m))) [
        | inr absent ↦ put_all-skip (sorted_entries m) [] id absent ∙ sym h
        | inl there ↦
            let (e, i, own) = any-Memᴰ (λ e. e.id == id) (sorted_entries m) there in
            let found = values-get m k (sort-Memᴰ before _ i) in
            let nothing_found = rw (← (==_iff e.id id).0 own) at h in absurd (ground arith)
      ]
    ]
