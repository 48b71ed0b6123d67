-- ===== src/Infrastructure/ObjectRegistry/Replay.antt =====
-- src/infrastructure/registry/object_registry.ts: the log holds all that the index holds.
use toaa.Base.{
  ℕ, ◌+◌, List, [], ◌∷◌, ◌++◌, none, some, String, Result, ok, >>=-eq-ok, ◌≡◌, refl, sym, ◌∙◌, ◌==◌,
  ==_iff, same_option_iff, Bool-cases, require_some, require-ok, not, inl, inr, ok-injective,
}
use toaa.Domain.Objects.{ObjectId, Timestamp, Digest}
use toaa.Infrastructure.ObjectRegistry.Types.{
  not_found, active_children, registered, updated, tombstoned, RegistryEntry, RegistryEventType,
  EventBase, RegistryEvent, Index, Registry, empty_index, RegistryError, put_entry, is_tombstoned,
  get_entry,
}
use toaa.Infrastructure.ObjectRegistry.Events.{
  apply_event, replay, snapshot_of, verify_from, make_event, commit,
}
use toaa.Infrastructure.ObjectRegistry.Writes.{
  RegisterObjectInput, RegistryBatchOperation, BatchMode, registered_entry, updated_entry,
  batch_entries, batch_events, event_type, has_children, buried, register, update, commit_batch,
  tombstone,
}

-- The index with one event applied.
abbrev pub applied : Index → RegistryEvent → Index
applied index event = record {
  entries = put_entry event.object_id event.entry index.entries;
  event_sequence = event.sequence;
  last_event_hash = some event.event_hash;
}

module _ (hash : EventBase → Digest) where
  -- An event that may follow on an index.
  pub record Follows (index : Index) (event : RegistryEvent) : Type 0 where
    pub numbered : event.sequence ≡ index.event_sequence + 1
    pub chained : event.previous_event_hash ≡ index.last_event_hash
    pub sealed : event.event_hash ≡ hash event.base
    pub own : event.object_id ≡ event.entry.id

  -- Events that lead from one index to another, each after the one before it.
  pub data Leads : Index → List RegistryEvent → Index → Type 0 where
    stay : {index : Index} → Leads index [] index
    grow :
        {index index' : Index} {event : RegistryEvent} {events : List RegistryEvent}
        → Follows index event
        → Leads (applied index event) events index'
        → Leads index (event ∷ events) index'

  pub Leads-append :
      {a b c : Index} {xs ys : List RegistryEvent}
      → Leads a xs b
      → Leads b ys c
      → Leads a (xs ++ ys) c
  Leads-append stay m = m
  Leads-append (grow f l) m = grow f (Leads-append l m)

  pub apply_event-applied :
      (index : Index) (event : RegistryEvent)
      → event.object_id ≡ event.entry.id
      → apply_event index event ≡ ok (applied index event)
  unfolding apply_event
  apply_event-applied index event own = rw ((==_iff event.object_id event.entry.id).1 own) refl

  pub Leads-replay : {a b : Index} {xs : List RegistryEvent} → Leads a xs b → replay a xs ≡ ok b
  unfolding replay
  Leads-replay stay = refl
  Leads-replay (grow {index} {event} f l) =
      rw
        (
          (==_iff event.sequence (index.event_sequence + 1)).1 f.numbered,
          apply_event-applied index event f.own,
        )
        (Leads-replay l)

  pub Leads-verify_from :
      {a b : Index} {xs : List RegistryEvent}
      → Leads a xs b
      → verify_from hash a.event_sequence a.last_event_hash xs ≡ ok tt
  unfolding verify_from
  Leads-verify_from stay = refl
  Leads-verify_from (grow {index} {event} f l) =
      let rest = rw f.numbered at (Leads-verify_from l) in
      rw
        (
          (==_iff event.sequence (index.event_sequence + 1)).1 f.numbered,
          (same_option_iff event.previous_event_hash index.last_event_hash).1 f.chained,
          (==_iff event.event_hash (hash event.base)).1 f.sealed,
        )
        rest

  -- The log of a registry leads from the empty index to its own.
  abbrev pub IsLogged : Registry → Type 0
  IsLogged r = Leads empty_index r.log r.index

  pub make_event-Follows :
      (index : Index) (type : RegistryEventType) (entry : RegistryEntry) (id : ObjectId)
      (now : Timestamp)
      → Follows index (make_event hash index type entry id now)
  unfolding make_event
  make_event-Follows index type entry id now = record {
    numbered = refl;
    chained = refl;
    sealed = refl;
    own = refl;
  }

  -- The registry after one event is written, applied and snapshotted.
  abbrev pub committed : Registry → RegistryEvent → Timestamp → Registry
  committed r event now = record {
    index = applied r.index event;
    log = r.log ++ event ∷ [];
    snapshot = some (snapshot_of (applied r.index event) now);
  }

  pub commit-committed :
      (r : Registry) (type : RegistryEventType) (entry : RegistryEntry) (id : ObjectId)
      (now : Timestamp)
      → commit hash r type entry id now
        ≡ ok (committed r (make_event hash r.index type entry id now) now)
  unfolding commit
  commit-committed r type entry id now =
      rw
        (apply_event-applied r.index (make_event hash r.index type entry id now)
          (make_event-Follows r.index type entry id now).own)
        refl

  -- The snapshot is that of the index, or nothing is written yet.
  pub data IsSnapshotted : Registry → Type 0 where
    fresh : {r : Registry} → r.snapshot ≡ none → r.index ≡ empty_index → IsSnapshotted r
    kept :
        {r : Registry} (now : Timestamp)
        → r.snapshot ≡ some (snapshot_of r.index now)
        → IsSnapshotted r

  -- The files hold all that the registry holds.
  pub record IsSaved (r : Registry) : Type 0 where
    pub logged : IsLogged r
    pub snapshotted : IsSnapshotted r

  commit-IsSaved :
      (r : Registry) (type : RegistryEventType) (entry : RegistryEntry) (id : ObjectId)
      (now : Timestamp) {r' : Registry}
      → IsSaved r
      → commit hash r type entry id now ≡ ok r'
      → IsSaved r'
  commit-IsSaved r type entry id now {r'} s h =
      let event = make_event hash r.index type entry id now in
      let same : committed r event now ≡ r' =
        ok-injective (sym (commit-committed r type entry id now) ∙ h) in
      let saved : IsSaved (committed r event now) = record {
        logged = Leads-append s.logged (grow (make_event-Follows r.index type entry id now) stay);
        snapshotted = kept now refl;
      } in
      rw (← same) saved

  module _ (normalize : String → Result RegistryError String) where
    pub register-IsSaved :
        (r : Registry) (input : RegisterObjectInput) (id : ObjectId) (now : Timestamp)
        {r' : Registry}
        → IsSaved r
        → register normalize hash r input id now ≡ ok r'
        → IsSaved r'
    unfolding register
    register-IsSaved r input id now s h =
        let (entry, _, written) =
          >>=-eq-ok (registered_entry normalize r.index.entries input) _ h in
        commit-IsSaved r registered entry id now s written

    pub update-IsSaved :
        (r : Registry) (input : RegisterObjectInput) (id : ObjectId) (now : Timestamp)
        {r' : Registry}
        → IsSaved r
        → update normalize hash r input id now ≡ ok r'
        → IsSaved r'
    unfolding update
    update-IsSaved r input id now s h =
        let (entry, _, written) = >>=-eq-ok (updated_entry normalize r.index.entries input) _ h in
        commit-IsSaved r updated entry id now s written

    pub batch_events-Leads :
        (index : Index) (entries : List (BatchMode × RegistryEntry)) (ids : ℕ → ObjectId)
        (now : Timestamp)
        → (events : List RegistryEvent) × (index' : Index) × (batch_events normalize hash index
              entries ids now
            ≡ ok (events, index'))
          × Leads index events index'
    unfolding batch_events
    batch_events-Leads index [] ids now = ([], index, refl, stay)
    batch_events-Leads index ((mode, entry) ∷ entries) ids now =
        let event = make_event hash index (event_type mode) entry (ids index.event_sequence) now in
        let follows =
          make_event-Follows index (event_type mode) entry (ids index.event_sequence) now in
        let (events, index', written, l) =
          batch_events-Leads (applied index event) entries ids now in
        (
          event ∷ events,
          index',
          rw (apply_event-applied index event follows.own, written) refl,
          grow follows l,
        )

    pub commit_batch-IsSaved :
        (r : Registry) (operations : List RegistryBatchOperation) (ids : ℕ → ObjectId)
        (now : Timestamp) {r' : Registry}
        → IsSaved r
        → commit_batch normalize hash r operations ids now ≡ ok r'
        → IsSaved r'
    unfolding commit_batch
    commit_batch-IsSaved r [] ids now {r'} s h = let same : r ≡ r' = ok-injective h in rw (← same) s
    commit_batch-IsSaved r (operation ∷ operations) ids now {r'} s h =
        let (entries, _, rest) =
          >>=-eq-ok (batch_entries normalize r.index.entries (operation ∷ operations)) _ h in
        let (events, index, written, l) = batch_events-Leads r.index entries ids now in
        let after : Registry = record {
          index = index;
          log = r.log ++ events;
          snapshot = some (snapshot_of index now);
        } in
        let same : after ≡ r' = ok-injective (rw written at rest) in
        let saved : IsSaved after = record {
          logged = Leads-append s.logged l;
          snapshotted = kept now refl;
        } in
        rw (← same) saved

    pub tombstone-IsSaved :
        (r : Registry) (id : ObjectId) (expected : ℕ) (now : Timestamp) (event_id : ObjectId)
        (at : Timestamp) {r' : Registry}
        → IsSaved r
        → tombstone normalize hash r id expected now event_id at ≡ ok r'
        → IsSaved r'
    unfolding tombstone
    tombstone-IsSaved r id expected now event_id at {r'} s h =
        let (current, found, rest) =
          >>=-eq-ok (require_some (get_entry id r.index.entries) (not_found id)) _ h in
        elim (Bool-cases (is_tombstoned current)) [
          | inl e ↦ let same : r ≡ r' = ok-injective (rw e at rest) in rw (← same) s
          | inr e ↦
              let (_, childless) = require-ok (current.revision == expected) _ (rw e at rest) in
              let (_, written) =
                require-ok (not (has_children id r.index.entries)) (active_children id) childless in
              commit-IsSaved r tombstoned (buried current now) event_id at s written
        ]
