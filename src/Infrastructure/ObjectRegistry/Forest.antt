-- ===== src/Infrastructure/ObjectRegistry/Forest.antt =====
-- src/infrastructure/registry/object_registry.ts: the parents of the objects.
use toaa.Base.{
  ℕ, suc, false, Option, some, ◌≡◌, ◌≢◌, refl, sym, subst, ◌∙◌, arith, ◌==◌, ℕ_discrete,
  some-injective, get-put,
}
use toaa.Domain.Objects.{ObjectId}
use toaa.Infrastructure.ObjectRegistry.Types.{RegistryEntry, Entries, get_entry, put_entry}
use toaa.Infrastructure.ObjectRegistry.Ancestors.{Climbs, at_top, at_gap, up}
use toaa.Infrastructure.ObjectRegistry.Snapshots.{IsKeyed, IsKeyed-put, get-values}

-- A parent that is named is there.
abbrev pub IsThere : Entries → Option ObjectId → Type 0
IsThere m parent =
    (id : ObjectId) → parent ≡ some id → (e : RegistryEntry) × (get_entry id m ≡ some e)

-- Going up from an object ends, and does not come back to the object.
pub record IsForest (m : Entries) : Type 0 where
  pub keyed : IsKeyed m
  pub parents :
      (id : ObjectId) (e : RegistryEntry) → get_entry id m ≡ some e → IsThere m e.parent_id
  pub rooted :
      (id : ObjectId) (e : RegistryEntry)
      → get_entry id m ≡ some e
      → (n : ℕ) × Climbs m id n e.parent_id false

module _ (m : Entries) (forest : IsForest m) where
  own : (id : ObjectId) {e : RegistryEntry} → get_entry id m ≡ some e → e.id ≡ id
  own id h = let (_, named) = get-values m id forest.keyed h in named

  differs :
      (id next : ObjectId) {a : RegistryEntry}
      → get_entry next m ≡ some a
      → (a.id == id) ≡ false
      → next ≢ id
  differs id next {a} f x s = let named = own next f in ground arith

  misses :
      (target next : ObjectId) {a : RegistryEntry}
      → get_entry next m ≡ some a
      → next ≢ target
      → (a.id == target) ≡ false
  misses target next {a} f apart = let named = own next f in ground arith

  -- What a climb that ends without the object says of an ancestor.
  Climbs-up :
      (id next : ObjectId) {n : ℕ} {e : RegistryEntry}
      → Climbs m id n (some next) false
      → get_entry next m ≡ some e
      → (next ≢ id) × (k : ℕ) × Climbs m id k e.parent_id false
  Climbs-up id next (at_gap f) h = cc
  Climbs-up id next {e = e} (up {ancestor = a} {n = n} f x c) h =
      let it : a ≡ e = some-injective (sym f ∙ h) in (differs id next f x, n, rw it at c)

  module _ (id : ObjectId) (entry : RegistryEntry) where
    kept : (next : ObjectId) → next ≢ id → get_entry next (put_entry id entry m) ≡ get_entry next m
    unfolding ℕ_discrete
    kept next ne = get-put ℕ_discrete id next entry m ∙ ground arith

    placed : get_entry id (put_entry id entry m) ≡ some entry
    unfolding ℕ_discrete
    placed = get-put ℕ_discrete id id entry m ∙ ground arith

    IsThere-put :
        {parent : Option ObjectId} → IsThere m parent → IsThere (put_entry id entry m) parent
    IsThere-put there next h = elim (ℕ_discrete next id) [
      | yes s ↦ (entry, rw s placed)
      | no ne ↦ let (e, found) = there next h in (e, kept next ne ∙ found)
    ]

    -- A climb that misses `id` is one that misses `target` in the new entries, unless it comes by
    -- `target`.
    retarget :
        (target : ObjectId) (e : RegistryEntry) {k : ℕ} {start : Option ObjectId}
        → get_entry target m ≡ some e
        → ((q : ℕ) → Climbs m id q e.parent_id false → ⊥)
        → IsThere m start
        → Climbs m id k start false
        → Climbs (put_entry id entry m) target k start false
    retarget target e found clash there at_top = at_top
    retarget target e found clash there (at_gap {next = next} f) =
        let (_, g) = there next refl in absurd (cc)
    retarget target e found clash there (up {next = next} {ancestor = a} {n = n} f x c) =
        let apart = differs id next f x in
        elim (ℕ_discrete next target) [
          | yes s ↦
              let here : get_entry target m ≡ some a = rw s at f in
              let same_entry : a ≡ e = some-injective (sym here ∙ found) in
              absurd (clash n (rw same_entry at c))
          | no ne ↦
              up (kept next apart ∙ f) (misses target next f ne)
                (retarget target e found clash (forest.parents next a f) c)
        ]

    Climbs-own :
        {k : ℕ} {start : Option ObjectId}
        → IsThere m start
        → Climbs m id k start false
        → Climbs (put_entry id entry m) id k start false
    Climbs-own there at_top = at_top
    Climbs-own there (at_gap {next = next} f) = let (_, g) = there next refl in absurd (cc)
    Climbs-own there (up {next = next} {ancestor = a} f x c) =
        up (kept next (differs id next f x) ∙ f) x (Climbs-own (forest.parents next a f) c)

    -- The climb from `target`, of which `start` is a later place, in the new entries.
    rejoin :
        (target : ObjectId) (e : RegistryEntry) {k n : ℕ} {start : Option ObjectId}
        → target ≢ id
        → entry.id ≡ id
        → get_entry target m ≡ some e
        → IsThere m entry.parent_id
        → Climbs m id k entry.parent_id false
        → IsThere m start
        → ((q : ℕ) → Climbs m id q e.parent_id false → (r : ℕ) × Climbs m id r start false)
        → Climbs m target n start false
        → (l : ℕ) × Climbs (put_entry id entry m) target l start false
    rejoin target e {k} ne named found above climb there passes at_top = (0, at_top)
    rejoin target e {k} ne named found above climb there passes (at_gap {next = next} f) =
        let (_, g) = there next refl in absurd (cc)
    rejoin target e {k} ne named found above climb there passes
          (up {next = next} {ancestor = a} f x c) =
        elim (ℕ_discrete next id) [
          | yes s ↦
              let clash : (q : ℕ) → Climbs m id q e.parent_id false → ⊥ = λ q d.
                let (r, back) = passes q d in
                let (apart, _, _) = Climbs-up id next back f in apart s in
              let landed : get_entry next (put_entry id entry m) ≡ some entry = rw s placed in
              let other : (entry.id == target) ≡ false = ground arith in
              (
                suc k,
                up {ancestor = entry} landed other (retarget target e found clash above climb),
              )
          | no apart ↦
              let (l, rest) =
                rejoin target e ne named found above climb (forest.parents next a f)
                  (λ q d.
                    let (r, back) = passes q d in
                    let (_, k', later) = Climbs-up id next back f in (k', later))
                  c in
              (suc l, up (kept next apart ∙ f) x rest)
        ]

    -- An object with a parent from which going up ends without the object may be put in.
    pub IsForest-put :
        {k : ℕ}
        → entry.id ≡ id
        → IsThere m entry.parent_id
        → Climbs m id k entry.parent_id false
        → IsForest (put_entry id entry m)
    IsForest-put {k} named above climb = record {
      keyed = IsKeyed-put id entry m named forest.keyed;
      parents = λ j e h. elim (ℕ_discrete j id) [
        | yes s ↦
            let at : get_entry j (put_entry id entry m) ≡ some entry = rw s placed in
            let it : entry ≡ e = some-injective (sym at ∙ h) in
            subst (λ x. IsThere (put_entry id entry m) x.parent_id) it (IsThere-put above)
        | no ne ↦ IsThere-put (forest.parents j e (sym (kept j ne) ∙ h))
      ];
      rooted = λ j e h. elim (ℕ_discrete j id) [
        | yes s ↦
            let at : get_entry j (put_entry id entry m) ≡ some entry = rw s placed in
            let it : entry ≡ e = some-injective (sym at ∙ h) in
            let c = Climbs-own above climb in
            (k, rw s (subst (λ x. Climbs (put_entry id entry m) id k x.parent_id false) it c))
        | no ne ↦
            let found = sym (kept j ne) ∙ h in
            let (n, c) = forest.rooted j e found in
            rejoin j e ne named found above climb (forest.parents j e found) (λ q d. (q, d)) c
      ];
    }
