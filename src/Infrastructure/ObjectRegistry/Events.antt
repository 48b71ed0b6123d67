-- ===== src/Infrastructure/ObjectRegistry/Events.antt =====
-- src/infrastructure/registry/object_registry.ts: writing the log and reading it back.
use toaa.Base.{
  ℕ, zero, suc, ◌+◌, true, false, List, [], ◌∷◌, ◌++◌, Option, none, some, Result, ok, ◌>>=◌, ◌>>◌,
  require, ◌==◌, leb, ltb, same_option, length, sort,
}
use toaa.Domain.Objects.{ObjectId, Timestamp, Digest}
use toaa.Infrastructure.ObjectRegistry.Types.{
  RegistryEntry, Entries, put_entry, RegistryEventType, EventBase, RegistryEvent, Snapshot, Index,
  Registry, empty_index, RegistryError, sequence_gap, chain_broken, hash_invalid, inconsistent_ids,
  snapshot_ahead, snapshot_mismatch,
}

-- `applyEvent`
unfoldable pub apply_event : Index → RegistryEvent → Result RegistryError Index
apply_event index event = do
  require (event.object_id == event.entry.id) (inconsistent_ids event.id)
  ok (record {
    entries = put_entry event.object_id event.entry index.entries;
    event_sequence = event.sequence;
    last_event_hash = some event.event_hash;
  })

-- The loop of `rebuild`.
unfoldable pub replay : Index → List RegistryEvent → Result RegistryError Index
replay index [] = ok index
replay index (event ∷ events) = do
  require (event.sequence == index.event_sequence + 1)
      (sequence_gap (index.event_sequence + 1) event.sequence)
  index' ← apply_event index event
  replay index' events

-- The loop of `load`: events that the snapshot holds already are passed over.
unfoldable pub catch_up : Index → List RegistryEvent → Result RegistryError Index
catch_up index [] = ok index
catch_up index (event ∷ events) = elim (leb event.sequence index.event_sequence) [
  | true ↦ catch_up index events
  | false ↦ do
    require (event.sequence == index.event_sequence + 1)
        (sequence_gap (index.event_sequence + 1) event.sequence)
    index' ← apply_event index event
    catch_up index' events
]

abbrev pub values : Entries → List RegistryEntry
values [] = []
values ((id, entry) ∷ entries) = entry ∷ values entries

-- The entries that `writeSnapshot` stores, in the order of their ids.
abbrev pub sorted_entries : Entries → List RegistryEntry
sorted_entries entries = sort (λ a b. ltb a.id b.id) (values entries)

-- `writeSnapshot`
unfoldable pub snapshot_of : Index → Timestamp → Snapshot
snapshot_of index now = record {
  event_sequence = index.event_sequence;
  last_event_hash = index.last_event_hash;
  updated_at = now;
  entries = sorted_entries index.entries;
}

abbrev pub put_all : List RegistryEntry → Entries → Entries
put_all [] entries = entries
put_all (entry ∷ more) entries = put_all more (put_entry entry.id entry entries)

-- The hash that stands in the log at a number, if the log has that many events.
abbrev pub hash_at : ℕ → List RegistryEvent → Option Digest
hash_at zero events = none
hash_at (suc n) [] = none
hash_at (suc zero) (event ∷ events) = some event.event_hash
hash_at (suc (suc n)) (event ∷ events) = hash_at (suc n) events

module _ (hash : EventBase → Digest) where
  -- The loop of `verifyEventChain`, with the number of events and the hash before.
  unfoldable pub verify_from :
      ℕ → Option Digest → List RegistryEvent → Result RegistryError (Unit {0})
  verify_from count previous [] = ok tt
  verify_from count previous (event ∷ events) = do
    require (event.sequence == count + 1) (sequence_gap (count + 1) event.sequence)
    require (same_option event.previous_event_hash previous) (chain_broken event.sequence)
    require (event.event_hash == hash event.base) (hash_invalid event.sequence)
    verify_from (count + 1) (some event.event_hash) events

  -- `verifyEventChain`
  abbrev pub verify_event_chain : List RegistryEvent → Result RegistryError (Unit {0})
  verify_event_chain events = verify_from 0 none events

  -- The part of `load` that reads the snapshot, if there is one.
  unfoldable pub restore : Option Snapshot → List RegistryEvent → Result RegistryError Index
  restore none events = ok empty_index
  restore (some snapshot) events = do
    require (leb snapshot.event_sequence (length events))
        (snapshot_ahead snapshot.event_sequence (length events))
    require (same_option snapshot.last_event_hash (hash_at snapshot.event_sequence events))
        snapshot_mismatch
    ok (record {
      entries = put_all snapshot.entries [];
      event_sequence = snapshot.event_sequence;
      last_event_hash = snapshot.last_event_hash;
    })

  -- `load`
  unfoldable pub load : Registry → Result RegistryError Registry
  load r = do
    verify_event_chain r.log
    start ← restore r.snapshot r.log
    index ← catch_up start r.log
    ok (record r { index = index })

  -- `rebuild`
  unfoldable pub rebuild : Registry → Timestamp → Result RegistryError Registry
  rebuild r now = do
    verify_event_chain r.log
    index ← replay empty_index r.log
    ok (record { index = index; log = r.log; snapshot = some (snapshot_of index now) })

  -- The event that `commit` or `commitBatch` makes for an entry.
  unfoldable pub make_event :
      Index → RegistryEventType → RegistryEntry → ObjectId → Timestamp → RegistryEvent
  make_event index type entry fresh_id now =
      let base : EventBase = record {
        id = fresh_id;
        sequence = index.event_sequence + 1;
        type = type;
        object_id = entry.id;
        at = now;
        previous_event_hash = index.last_event_hash;
        entry = entry;
      } in
      record { base = base; event_hash = hash base }

  -- `commit`
  unfoldable pub commit :
      Registry
      → RegistryEventType
      → RegistryEntry
      → ObjectId
      → Timestamp
      → Result RegistryError Registry
  commit r type entry fresh_id now = do
    let event = make_event r.index type entry fresh_id now
    index ← apply_event r.index event
    ok (record {
      index = index;
      log = r.log ++ event ∷ [];
      snapshot = some (snapshot_of index now);
    })
