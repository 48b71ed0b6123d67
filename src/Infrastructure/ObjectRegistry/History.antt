-- ===== src/Infrastructure/ObjectRegistry/History.antt =====
-- src/infrastructure/registry/object_registry.ts: what no operation takes back.
use toaa.Base.{
  ℕ, ◌+◌, ◌≤◌, true, false, not, ◌&&◌, Option, some, String, String-discrete, Result, ok, >>=-eq-ok,
  require_some, require-ok, ok-injective, some-injective, ◌≡◌, refl, sym, ap, ◌∙◌, arith, ◌==◌,
  ==_iff, same, same_iff, and_true, ℕ_discrete, get-put, or_option, is_some,
}
use toaa.Domain.Objects.{ObjectId, Timestamp, revise_object_envelope}
use toaa.Infrastructure.ObjectRegistry.Types.{
  ObjectType-discrete, EventBase, RegistryEntry, is_tombstoned, Entries, get_entry, put_entry,
  Registry, RegistryError, not_found,
}
use toaa.Infrastructure.ObjectRegistry.Writes.{
  RegisterObjectInput, BatchMode, register_mode, update_mode, assert_project_and_parent_in,
  assert_revises, make_entry, registered_entry, updated_entry, mode_entry, buried,
}
use toaa.Infrastructure.ObjectRegistry.Recovery.{Operates, Reachable, Reachable-IsSaved}
use toaa.Infrastructure.ObjectRegistry.Snapshots.{
  IsKeyed, IsKeyed-put, nothing, get-values, Leads-IsKeyed,
}
use toaa.Infrastructure.ObjectRegistry.Puts.{Puts, stay, write, bury, Operates-Puts}

-- An entry may stand in the place of an older one of the same object.
pub record Continues (old new : RegistryEntry) : Type 0 where
  pub advances : old.revision ≤ new.revision
  pub same_type : new.object_type ≡ old.object_type
  pub same_project : new.project_id ≡ old.project_id
  pub same_birth : new.created_at ≡ old.created_at
  pub stays_buried : is_tombstoned old ≡ true → new ≡ old

Continues-refl : (e : RegistryEntry) → Continues e e
Continues-refl e = record {
  advances = omega arith;
  same_type = refl;
  same_project = refl;
  same_birth = refl;
  stays_buried = λ _. refl;
}

Continues-trans : {a b c : RegistryEntry} → Continues a b → Continues b c → Continues a c
Continues-trans {a} {b} {c} x y = record {
  advances = let p = x.advances in let q = y.advances in omega arith;
  same_type = y.same_type ∙ x.same_type;
  same_project = y.same_project ∙ x.same_project;
  same_birth = y.same_birth ∙ x.same_birth;
  stays_buried = λ t. let e : b ≡ a = x.stays_buried t in y.stays_buried (rw e t) ∙ e;
}

-- Every object of the first registry is in the second, with an entry that continues its own.
abbrev pub Extends : Entries → Entries → Type 0
Extends a b =
    (id : ObjectId) (old : RegistryEntry)
    → get_entry id a ≡ some old
    → (new : RegistryEntry) × (get_entry id b ≡ some new) × Continues old new

Extends-refl : (a : Entries) → Extends a a
Extends-refl a id old h = (old, h, Continues-refl old)

Extends-trans : (a b c : Entries) → Extends a b → Extends b c → Extends a c
Extends-trans a b c x y id old h =
    let (mid, found, p) = x id old h in
    let (new, found', q) = y id mid found in (new, found', Continues-trans p q)

put-Extends :
    (m : Entries) (id : ObjectId) (entry : RegistryEntry)
    → ((old : RegistryEntry) → get_entry id m ≡ some old → Continues old entry)
    → Extends m (put_entry id entry m)
unfolding ℕ_discrete
put-Extends m id entry continues j old h = elim (ℕ_discrete id j) [
  | yes e ↦ (entry, get-put ℕ_discrete id j entry m ∙ ground arith, continues old (rw e h))
  | no ne ↦ (old, get-put ℕ_discrete id j entry m ∙ ground arith, Continues-refl old)
]

revises-Continues :
    (current : RegistryEntry) (new : RegistryEntry)
    → assert_revises current new.envelope ≡ ok tt
    → Continues current new
unfolding assert_revises
revises-Continues current new h =
    let (alive, a) = require-ok (not (is_tombstoned current)) _ h in
    let (identity, b) =
      require-ok
        (same ObjectType-discrete new.object_type current.object_type
          && new.project_id == current.project_id)
        _ a in
    let (birth, c) = require-ok (same String-discrete new.created_at current.created_at) _ b in
    let next : (new.revision == current.revision + 1) ≡ true = ground arith in
    let (type, project) = and_true _ (new.project_id == current.project_id) identity in
    record {
      advances = let n = (==_iff new.revision (current.revision + 1)).0 next in omega arith;
      same_type = (same_iff ObjectType-discrete new.object_type current.object_type).0 type;
      same_project = (==_iff new.project_id current.project_id).0 project;
      same_birth = (same_iff String-discrete new.created_at current.created_at).0 birth;
      stays_buried = λ t. absurd (ground arith);
    }

buried-Continues :
    (current : RegistryEntry) (now : Timestamp)
    → is_tombstoned current ≡ false
    → Continues current (buried current now)
unfolding revise_object_envelope
buried-Continues current now alive = record {
  advances = omega arith;
  same_type = refl;
  same_project = refl;
  same_birth = refl;
  stays_buried = λ t. absurd (ground arith);
}

module _ (normalize : String → Result RegistryError String) where
  make_entry-envelope :
      (m : Entries) (input : RegisterObjectInput) (parent : Option ObjectId) {entry : RegistryEntry}
      → make_entry normalize m input parent ≡ ok entry
      → entry.envelope ≡ input.envelope
  unfolding make_entry
  make_entry-envelope m input parent {entry} h =
      let (_, _, a) = >>=-eq-ok (assert_project_and_parent_in m input.envelope parent) _ h in
      let (ref, _, made) = >>=-eq-ok (normalize input.object_ref) _ a in
      sym (ap (λ e. e.envelope) (ok-injective made))

  registered-Extends :
      (m : Entries) (input : RegisterObjectInput) {entry : RegistryEntry}
      → registered_entry normalize m input ≡ ok entry
      → Extends m (put_entry entry.id entry m)
  unfolding registered_entry
  registered-Extends m input {entry} h =
      let (unused, made) = require-ok (not (is_some (get_entry input.envelope.id m))) _ h in
      let own = make_entry-envelope m input input.parent_id made in
      put-Extends m entry.id entry (λ old found.
        let there : get_entry input.envelope.id m ≡ some old = rw own at found in
        let clash = rw there at unused in cc)

  updated-Extends :
      (m : Entries) (input : RegisterObjectInput) {entry : RegistryEntry}
      → updated_entry normalize m input ≡ ok entry
      → Extends m (put_entry entry.id entry m)
  unfolding updated_entry
  updated-Extends m input {entry} h =
      let (current, found, a) =
        >>=-eq-ok (require_some (get_entry input.envelope.id m) (not_found input.envelope.id)) _
          h in
      let (_, revises, made) = >>=-eq-ok (assert_revises current input.envelope) _ a in
      let own = make_entry-envelope m input (or_option input.parent_id current.parent_id) made in
      put-Extends m entry.id entry (λ old there.
        let here : get_entry input.envelope.id m ≡ some old = rw own at there in
        let same_old : old ≡ current = ok-injective (rw here at found) in
        rw same_old (revises-Continues current entry (rw own revises)))

  mode-Extends :
      (mode : BatchMode) (m : Entries) (input : RegisterObjectInput) {entry : RegistryEntry}
      → mode_entry normalize mode m input ≡ ok entry
      → Extends m (put_entry entry.id entry m)
  mode-Extends register_mode m input h = registered-Extends m input h
  mode-Extends update_mode m input h = updated-Extends m input h

  Puts-Extends : {m m' : Entries} → Puts normalize m m' → IsKeyed m → Extends m m'
  unfolding revise_object_envelope
  Puts-Extends {m} stay k = Extends-refl m
  Puts-Extends {m} {m'} (write {entry = entry} mode input made rest) k =
      let first = mode-Extends mode m input made in
      let later = Puts-Extends rest (IsKeyed-put entry.id entry m refl k) in
      Extends-trans m (put_entry entry.id entry m) m' first later
  Puts-Extends {m} {m'} (bury {current = current} id now found alive childless rest) k =
      let (_, own) = get-values m id k found in
      let first : Extends m (put_entry current.id (buried current now) m) =
        put-Extends m current.id (buried current now) (λ old there.
          let same_old : old ≡ current = some-injective (sym (rw own at there) ∙ found) in
          rw same_old (buried-Continues current now alive)) in
      let later = Puts-Extends rest (IsKeyed-put current.id (buried current now) m refl k) in
      Extends-trans m (put_entry current.id (buried current now) m) m' first later

  module _ (hash : EventBase → ℕ) where
    -- No operation takes an object out of the registry, gives its id to another type or project,
    -- changes when it was created, lowers its revision, or touches it once it is tombstoned.
    pub Operates-Extends :
        {r r' : Registry}
        → Reachable normalize hash r
        → Operates normalize hash r r'
        → Extends r.index.entries r'.index.entries
    Operates-Extends s o =
        let saved = Reachable-IsSaved normalize hash s in
        Puts-Extends (Operates-Puts normalize hash o) (Leads-IsKeyed saved.logged nothing)
