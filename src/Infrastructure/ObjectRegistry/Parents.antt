-- ===== src/Infrastructure/ObjectRegistry/Parents.antt =====
-- src/infrastructure/registry/object_registry.ts: what the checks on parents come to.
use toaa.Base.{
  ℕ, false, not, Option, none, some, String, Result, ok, >>=-eq-ok, require_some, require-ok,
  require-true, require_some-ok, ok-injective, ◌≡◌, refl, sym, subst, inl, inr, ◌==◌, Bool-cases,
  Option-cases, some-injective, suc, length, is_some, or_option, arith,
}
use toaa.Domain.Objects.{ObjectId, ObjectEnvelope, revise_object_envelope}
use toaa.Infrastructure.ObjectRegistry.Types.{
  EventBase, RegistryEntry, is_project, project_inactive, Entries, get_entry, Registry,
  RegistryError, not_found,
}
use toaa.Infrastructure.ObjectRegistry.Writes.{
  RegisterObjectInput, is_active_project, BatchMode, register_mode, update_mode, active,
  is_ancestor, assert_parent, assert_project_and_parent_in, assert_revises, make_entry, mode_entry,
  registered_entry, updated_entry, buried,
}
use toaa.Infrastructure.ObjectRegistry.Recovery.{Reachable, initial, after}
use toaa.Infrastructure.ObjectRegistry.Snapshots.{nothing, get-values}
use toaa.Infrastructure.ObjectRegistry.Ancestors.{Climbs, at_top, is_ancestor-iff_Climbs}
use toaa.Infrastructure.ObjectRegistry.Puts.{Puts, stay, write, bury, Operates-Puts}
use toaa.Infrastructure.ObjectRegistry.Forest.{IsThere, IsForest, IsForest-put}

-- A parent that an object may have.
abbrev Fits : Entries → ObjectId → Option ObjectId → Type 0
Fits m id parent = IsThere m parent × (n : ℕ) × Climbs m id n parent false

Fits-none :
    (m : Entries) (id : ObjectId) (parent : Option ObjectId)
    → is_some parent ≡ false
    → Fits m id parent
Fits-none m id none h = (λ p e. cc, 0, at_top)
Fits-none m id (some p) h = cc

active-some :
    (found : Option RegistryEntry) {e : RegistryEntry} → active found ≡ some e → found ≡ some e
active-some none h = cc
active-some (some x) h = ground arith

assert_parent-Fits :
    (m : Entries) (envelope : ObjectEnvelope) (parent : ObjectId)
    → assert_parent m envelope parent ≡ ok tt
    → Fits m envelope.id (some parent)
unfolding assert_parent
assert_parent-Fits m envelope parent h =
    let (e, found, a) = >>=-eq-ok (require_some (active (get_entry parent m)) _) _ h in
    let (_, b) = require-ok (e.project_id == envelope.project_id) _ a in
    let acyclic =
      require-true (not (is_ancestor (suc (length m)) m envelope.id (some parent))) _ b in
    let there = active-some (get_entry parent m) (require_some-ok _ _ found) in
    let misses : is_ancestor (suc (length m)) m envelope.id (some parent) ≡ false = ground arith in
    let (n, climb) = (is_ancestor-iff_Climbs m envelope.id (some parent)).0 misses in
    (λ p same. (e, subst (λ q. get_entry q m ≡ some e) (some-injective same) there), n, climb)

assert_project_and_parent_in-Fits :
    (m : Entries) (envelope : ObjectEnvelope) (parent : Option ObjectId)
    → assert_project_and_parent_in m envelope parent ≡ ok tt
    → Fits m envelope.id parent
unfolding assert_project_and_parent_in
assert_project_and_parent_in-Fits m envelope parent h =
    elim (Bool-cases (is_project envelope.object_type)) [
      | inl e ↦
          let (_, a) =
            require-ok (envelope.project_id == envelope.id) _
              (rw (assert_project_and_parent_in, e) at h) in
          let alone = require-true (not (is_some parent)) _ a in
          Fits-none m envelope.id parent (ground arith)
      | inr e ↦
          let (_, a) =
            require-ok (is_active_project (get_entry envelope.project_id m))
              (project_inactive envelope.project_id)
              {k = elim parent [ none ↦ ok tt | some p ↦ assert_parent m envelope p ]}
              (rw (assert_project_and_parent_in, e) at h) in
          elim (Option-cases parent) [
            | inl f ↦ Fits-none m envelope.id parent (rw f refl)
            | inr (p, f) ↦ rw f (assert_parent-Fits m envelope p (rw f at a))
          ]
    ]

module _ (normalize : String → Result RegistryError String) where
  make_entry-Fits :
      (m : Entries) (input : RegisterObjectInput) (parent : Option ObjectId) {entry : RegistryEntry}
      → make_entry normalize m input parent ≡ ok entry
      → Fits m entry.id entry.parent_id
  unfolding make_entry
  make_entry-Fits m input parent {entry} h =
      let (_, checked, a) = >>=-eq-ok (assert_project_and_parent_in m input.envelope parent) _ h in
      let (ref, _, made) = >>=-eq-ok (normalize input.object_ref) _ a in
      subst (λ e. Fits m e.id e.parent_id) (ok-injective made)
        (assert_project_and_parent_in-Fits m input.envelope parent checked)

  mode_entry-Fits :
      (mode : BatchMode) (m : Entries) (input : RegisterObjectInput) {entry : RegistryEntry}
      → mode_entry normalize mode m input ≡ ok entry
      → Fits m entry.id entry.parent_id
  unfolding registered_entry updated_entry
  mode_entry-Fits register_mode m input h =
      let (_, made) = require-ok (not (is_some (get_entry input.envelope.id m))) _ h in
      make_entry-Fits m input input.parent_id made
  mode_entry-Fits update_mode m input h =
      let (current, _, a) =
        >>=-eq-ok (require_some (get_entry input.envelope.id m) (not_found input.envelope.id)) _
          h in
      let (_, _, made) = >>=-eq-ok (assert_revises current input.envelope) _ a in
      make_entry-Fits m input (or_option input.parent_id current.parent_id) made

  Puts-IsForest : {m m' : Entries} → Puts normalize m m' → IsForest m → IsForest m'
  unfolding revise_object_envelope
  Puts-IsForest stay f = f
  Puts-IsForest {m} (write {entry = entry} mode input made rest) f =
      let (above, n, climb) = mode_entry-Fits mode m input made in
      Puts-IsForest rest (IsForest-put m f entry.id entry refl above climb)
  Puts-IsForest {m} (bury {current = current} id now found alive childless rest) f =
      let (_, own) = get-values m id f.keyed found in
      let there : get_entry current.id m ≡ some current =
        subst (λ i. get_entry i m ≡ some current) (sym own) found in
      let (n, climb) = f.rooted current.id current there in
      Puts-IsForest rest
        (IsForest-put m f current.id (buried current now) refl (f.parents id current found) climb)

  -- In a registry that operations lead to, from an empty one, every parent that an object names is
  -- registered, going up from an object ends without coming back to it, and each entry stands once,
  -- under the id of its object.
  pub Reachable-IsForest :
      (hash : EventBase → ℕ) {r : Registry} → Reachable normalize hash r → IsForest r.index.entries
  Reachable-IsForest hash initial = record {
    keyed = nothing;
    parents = λ id e h. cc;
    rooted = λ id e h. absurd (cc);
  }
  Reachable-IsForest hash (after s o) =
      Puts-IsForest (Operates-Puts normalize hash o) (Reachable-IsForest hash s)
