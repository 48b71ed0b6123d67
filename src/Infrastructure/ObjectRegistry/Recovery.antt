-- ===== src/Infrastructure/ObjectRegistry/Recovery.antt =====
-- src/infrastructure/registry/object_registry.ts: what `rebuild` and `load` find again.
use toaa.Base.{
  ℕ, ◌+◌, ◌≤◌, true, false, List, [], ◌∷◌, ◌++◌, none, some, String, Result, ok, ◌≡◌, refl, sym,
  ◌∙◌, ap, subst, arith, ==_iff, leb, same_option_iff, Memᴰ, ℕ_discrete, get-put, same, length,
  length-append, if◌then◌else◌,
}
use toaa.Domain.Objects.{ObjectId, Timestamp, Digest}
use toaa.Infrastructure.ObjectRegistry.Types.{
  EventBase, RegistryEvent, get_entry, Index, Registry, empty_index, RegistryError,
}
use toaa.Infrastructure.ObjectRegistry.Events.{
  apply_event, catch_up, sorted_entries, snapshot_of, put_all, hash_at, verify_event_chain, restore,
  load, rebuild,
}
use toaa.Infrastructure.ObjectRegistry.Writes.{
  RegisterObjectInput, RegistryBatchOperation, register, update, commit_batch, tombstone,
}
use toaa.Infrastructure.ObjectRegistry.Replay.{
  applied, Leads, stay, grow, Leads-append, Leads-replay, Leads-verify_from, fresh, kept, IsSaved,
  register-IsSaved, update-IsSaved, commit_batch-IsSaved, tombstone-IsSaved,
}
use toaa.Infrastructure.ObjectRegistry.Snapshots.{nothing, Leads-IsKeyed, get-sorted_entries}

module _ (normalize : String → Result RegistryError String) (hash : EventBase → Digest) where
  -- One operation that is not refused.
  pub data Operates (r : Registry) : Registry → Type 0 where
    by_register :
        {r' : Registry} (input : RegisterObjectInput) (id : ObjectId) (now : Timestamp)
        → register normalize hash r input id now ≡ ok r'
        → Operates r r'
    by_update :
        {r' : Registry} (input : RegisterObjectInput) (id : ObjectId) (now : Timestamp)
        → update normalize hash r input id now ≡ ok r'
        → Operates r r'
    by_batch :
        {r' : Registry} (operations : List RegistryBatchOperation) (ids : ℕ → ObjectId)
        (now : Timestamp)
        → commit_batch normalize hash r operations ids now ≡ ok r'
        → Operates r r'
    by_tombstone :
        {r' : Registry} (id : ObjectId) (expected : ℕ) (now : Timestamp) (event_id : ObjectId)
        (at : Timestamp)
        → tombstone normalize hash r id expected now event_id at ≡ ok r'
        → Operates r r'

  -- The registries that operations lead to from an empty one.
  pub data Reachable : Registry → Type 0 where
    initial : Reachable (record { index = empty_index; log = []; snapshot = none })
    after : {r r' : Registry} → Reachable r → Operates r r' → Reachable r'

  Operates-IsSaved : {r r' : Registry} → Operates r r' → IsSaved hash r → IsSaved hash r'
  Operates-IsSaved {r} (by_register input id now h) s =
      register-IsSaved hash normalize r input id now s h
  Operates-IsSaved {r} (by_update input id now h) s =
      update-IsSaved hash normalize r input id now s h
  Operates-IsSaved {r} (by_batch operations ids now h) s =
      commit_batch-IsSaved hash normalize r operations ids now s h
  Operates-IsSaved {r} (by_tombstone id expected now event_id at h) s =
      tombstone-IsSaved hash normalize r id expected now event_id at s h

  pub Reachable-IsSaved : {r : Registry} → Reachable r → IsSaved hash r
  Reachable-IsSaved initial = record { logged = stay; snapshotted = fresh refl refl }
  Reachable-IsSaved (after s o) = Operates-IsSaved o (Reachable-IsSaved s)

  -- After any operations, `rebuild` reads from the log alone exactly the index that the registry
  -- has, order of the entries included, and leaves a snapshot of it.
  pub rebuild-Reachable :
      {r : Registry} (now : Timestamp)
      → Reachable r
      → rebuild hash r now
        ≡ ok (record { index = r.index; log = r.log; snapshot = some (snapshot_of r.index now) })
  unfolding rebuild
  rebuild-Reachable {r} now s =
      let saved = Reachable-IsSaved s in
      let verified : verify_event_chain hash r.log ≡ ok tt = Leads-verify_from hash saved.logged in
      rw (verified, Leads-replay hash saved.logged) refl

-- Two indexes with the same value under every id and the same place in the log.
pub record Alike (a b : Index) : Type 0 where
  pub gets : (id : ObjectId) → get_entry id a.entries ≡ get_entry id b.entries
  pub sequences : a.event_sequence ≡ b.event_sequence
  pub hashes : a.last_event_hash ≡ b.last_event_hash

applied-Alike :
    (a b : Index) (event : RegistryEvent) → Alike a b → Alike (applied a event) (applied b event)
applied-Alike a b event same_so_far = record {
  gets = λ id.
      get-put ℕ_discrete event.object_id id event.entry a.entries
      ∙ ap (λ o. if same ℕ_discrete event.object_id id then some event.entry else o)
          (same_so_far.gets id)
      ∙ sym (get-put ℕ_discrete event.object_id id event.entry b.entries);
  sequences = refl;
  hashes = refl;
}

module _ (hash : EventBase → Digest) where
  Leads-sequence :
      {a b : Index} {xs : List RegistryEvent}
      → Leads hash a xs b
      → b.event_sequence ≡ a.event_sequence + length xs
  Leads-sequence stay = omega arith
  Leads-sequence (grow f l) = let rest = Leads-sequence l in let first = f.numbered in ground arith

  Leads-below :
      {a b : Index} {xs : List RegistryEvent} {event : RegistryEvent}
      → Leads hash a xs b
      → Memᴰ event xs
      → event.sequence ≤ b.event_sequence
  Leads-below stay i = elim i [ ]
  Leads-below (grow {event = x} f l) (Memᴰ.head at) =
      rw at (let s = Leads-sequence l in ground arith)
  Leads-below (grow f l) (Memᴰ.tail i) = Leads-below l i

  -- The hash that stands in the log at the number of the index is the index's own.
  Leads-hash_at :
      {a b : Index} {x : RegistryEvent} {xs : List RegistryEvent} (ys : List RegistryEvent)
      → Leads hash a (x ∷ xs) b
      → hash_at (length (x ∷ xs)) ((x ∷ xs) ++ ys) ≡ b.last_event_hash
  Leads-hash_at ys (grow f stay) = refl
  Leads-hash_at ys (grow f (grow g l)) = Leads-hash_at ys (grow g l)

  log-hash_at :
      (xs ys : List RegistryEvent) {b : Index}
      → Leads hash empty_index xs b
      → hash_at b.event_sequence (xs ++ ys) ≡ b.last_event_hash
  log-hash_at [] ys stay = refl
  log-hash_at (x ∷ xs) ys {b} l =
      let before = Leads-sequence l in
      let count : b.event_sequence ≡ length (x ∷ xs) = ground arith in rw count (Leads-hash_at ys l)

  catch_up-skip :
      (index : Index) (xs ys : List RegistryEvent)
      → ((event : RegistryEvent) → Memᴰ event xs → event.sequence ≤ index.event_sequence)
      → catch_up index (xs ++ ys) ≡ catch_up index ys
  unfolding catch_up
  catch_up-skip index [] ys below = refl
  catch_up-skip index (x ∷ xs) ys below =
      let first = below x (Memᴰ.head refl) in
      let old : leb x.sequence index.event_sequence ≡ true = ground arith in
      rw (catch_up, old) (catch_up-skip index xs ys (λ event i. below event (Memᴰ.tail i)))

  catch_up-Leads :
      (a : Index) {b c : Index} {xs : List RegistryEvent}
      → Leads hash b xs c
      → Alike a b
      → (d : Index) × (catch_up a xs ≡ ok d) × Alike d c
  unfolding catch_up apply_event
  catch_up-Leads a stay same_so_far = (a, refl, same_so_far)
  catch_up-Leads a (grow {index = b} {event = x} f l) same_so_far =
      let (d, rest, alike) = catch_up-Leads (applied a x) l (applied-Alike a b x same_so_far) in
      let number : x.sequence ≡ a.event_sequence + 1 =
        f.numbered ∙ ap (λ n. n + 1) (sym same_so_far.sequences) in
      let newer : leb x.sequence a.event_sequence ≡ false = ground arith in
      (
        d,
        rw
            (
              catch_up,
              newer,
              (==_iff x.sequence (a.event_sequence + 1)).1 number,
              (==_iff x.object_id x.entry.id).1 f.own,
            )
            rest,
        alike,
      )

  -- What `load` starts from: the entries of the snapshot, or nothing.
  restore-Alike :
      (r : Registry) (ys : List RegistryEvent)
      → IsSaved hash r
      → (a : Index) × (restore hash r.snapshot (r.log ++ ys) ≡ ok a) × Alike a r.index
  unfolding restore snapshot_of
  restore-Alike r ys s = elim s.snapshotted [
    | fresh e none_yet ↦ (
      empty_index,
      rw e refl,
      rw none_yet (record { gets = λ id. refl; sequences = refl; hashes = refl }),
    )
    | kept now e ↦
        let count = Leads-sequence s.logged in
        let longer = length-append r.log ys in
        let behind : leb r.index.event_sequence (length (r.log ++ ys)) ≡ true = ground arith in
        let hashes =
          (same_option_iff r.index.last_event_hash (hash_at r.index.event_sequence (r.log ++ ys))).1
            (sym (log-hash_at r.log ys s.logged)) in
        (
          record {
            entries = put_all (sorted_entries r.index.entries) [];
            event_sequence = r.index.event_sequence;
            last_event_hash = r.index.last_event_hash;
          },
          rw (e, behind, hashes) refl,
          record {
            gets = λ id. get-sorted_entries r.index.entries id (Leads-IsKeyed s.logged nothing);
            sequences = refl;
            hashes = refl;
          },
        )
  ]

  -- `load` after a stop at the worst moment: events that were appended to the log, and not yet
  -- followed by a snapshot, are all found again. Whatever the fields of the new object are, `load`
  -- ends in an index with the value under every id, and the place in the log, that the registry
  -- has with those events applied.
  pub load-IsSaved :
      (r : Registry) (events : List RegistryEvent) (index stale : Index)
      → IsSaved hash r
      → Leads hash r.index events index
      → (r' : Registry) × (load hash
            (record { index = stale; log = r.log ++ events; snapshot = r.snapshot })
          ≡ ok r')
        × Alike r'.index index
  unfolding load
  load-IsSaved r events index stale s l =
      let (start, restored, alike) = restore-Alike r events s in
      let (d, caught, same_end) = catch_up-Leads start l alike in
      let old : (event : RegistryEvent) → Memᴰ event r.log → event.sequence ≤ start.event_sequence =
        λ event i. subst (λ n. event.sequence ≤ n) (sym alike.sequences) (Leads-below s.logged i) in
      let verified : verify_event_chain hash (r.log ++ events) ≡ ok tt =
        Leads-verify_from hash (Leads-append hash s.logged l) in
      (
        record { index = d; log = r.log ++ events; snapshot = r.snapshot },
        rw (verified, restored, catch_up-skip start r.log events old, caught) refl,
        same_end,
      )
