-- ===== src/Infrastructure/ObjectRegistry/Puts.antt =====
-- src/infrastructure/registry/object_registry.ts: the operations as the entries that they put.
use toaa.Base.{
  ℕ, false, not, List, [], ◌∷◌, some, String, Result, ok, >>=-eq-ok, require_some, require-ok,
  require_some-ok, ok-injective, ◌≡◌, refl, sym, ap, subst, ◌∙◌, inl, inr, ◌==◌, Bool-cases, arith,
}
use toaa.Domain.Objects.{ObjectId, Timestamp}
use toaa.Infrastructure.ObjectRegistry.Types.{
  EventBase, RegistryEntry, RegistryEvent, RegistryEventType, registered, updated, tombstoned,
  is_tombstoned, Entries, get_entry, put_entry, Index, Registry, RegistryError, not_found,
  active_children,
}
use toaa.Infrastructure.ObjectRegistry.Events.{apply_event, make_event, commit}
use toaa.Infrastructure.ObjectRegistry.Writes.{
  RegisterObjectInput, RegistryBatchOperation, BatchMode, register_mode, update_mode,
  registered_entry, updated_entry, mode_entry, batch_entries, batch_events, event_type,
  has_children, buried, register, update, commit_batch, tombstone,
}
use toaa.Infrastructure.ObjectRegistry.Replay.{
  applied, committed, commit-committed, apply_event-applied,
}
use toaa.Infrastructure.ObjectRegistry.Recovery.{
  Operates, by_register, by_update, by_batch, by_tombstone,
}

module _ (normalize : String → Result RegistryError String) where
  -- From the first entries to the second by entries that the checks let through.
  pub data Puts : Entries → Entries → Type 0 where
    stay : {m : Entries} → Puts m m
    write :
        {m m' : Entries} {entry : RegistryEntry} (mode : BatchMode) (input : RegisterObjectInput)
        → mode_entry normalize mode m input ≡ ok entry
        → Puts (put_entry entry.id entry m) m'
        → Puts m m'
    bury :
        {m m' : Entries} {current : RegistryEntry} (id : ObjectId) (now : Timestamp)
        → get_entry id m ≡ some current
        → is_tombstoned current ≡ false
        → has_children id m ≡ false
        → Puts (put_entry current.id (buried current now) m) m'
        → Puts m m'

  module _ (hash : EventBase → ℕ) where
    commit-put :
        (r : Registry) (type : RegistryEventType) (entry : RegistryEntry) (id : ObjectId)
        (now : Timestamp) {r' : Registry}
        → commit hash r type entry id now ≡ ok r'
        → put_entry entry.id entry r.index.entries ≡ r'.index.entries
    unfolding make_event
    commit-put r type entry id now {r'} h =
        let same_end : committed hash r (make_event hash r.index type entry id now) now ≡ r' =
          ok-injective (sym (commit-committed hash r type entry id now) ∙ h) in
        ap (λ x. x.index.entries) same_end

    commit-Puts :
        (r : Registry) (type : RegistryEventType) (entry : RegistryEntry) (id : ObjectId)
        (now : Timestamp) {r' : Registry}
        → commit hash r type entry id now ≡ ok r'
        → Puts (put_entry entry.id entry r.index.entries) r'.index.entries
    commit-Puts r type entry id now h =
        subst (λ m. Puts (put_entry entry.id entry r.index.entries) m)
          (commit-put r type entry id now h) stay

    batch_events-cons :
        (index : Index) (mode : BatchMode) (entry : RegistryEntry)
        (entries : List (BatchMode × RegistryEntry)) (ids : ℕ → ObjectId) (now : Timestamp)
        {events : List RegistryEvent} {index' : Index}
        → batch_events normalize hash index ((mode, entry) ∷ entries) ids now ≡ ok (events, index')
        → (middle : Index) × (more : List RegistryEvent) × (middle.entries
            ≡ put_entry entry.id entry index.entries)
          × (batch_events normalize hash middle entries ids now ≡ ok (more, index'))
    unfolding batch_events make_event
    batch_events-cons index mode entry entries ids now {index'} h =
        let event = make_event hash index (event_type mode) entry (ids index.event_sequence) now in
        let (middle, at, a) = >>=-eq-ok (apply_event index event) _ h in
        let same_middle : applied index event ≡ middle =
          ok-injective (sym (apply_event-applied hash index event refl) ∙ at) in
        let ((more, last), rest, b) =
          >>=-eq-ok (batch_events normalize hash middle entries ids now) _ a in
        let end : last ≡ index' = ap (λ p. p.1) (ok-injective b) in
        (middle, more, rw (← same_middle) refl, rest ∙ ap (λ i. ok (more, i)) end)

    batch-Puts :
        (index : Index) (operations : List RegistryBatchOperation) (ids : ℕ → ObjectId)
        (now : Timestamp) (entries : List (BatchMode × RegistryEntry)) (events : List RegistryEvent)
        (index' : Index)
        → batch_entries normalize index.entries operations ≡ ok entries
        → batch_events normalize hash index entries ids now ≡ ok (events, index')
        → Puts index.entries index'.entries
    unfolding batch_entries batch_events
    batch-Puts index [] ids now entries events index' h k =
        let unchanged : index ≡ index' =
          ap (λ p. p.1) (ok-injective (rw (← ok-injective h) at k)) in
        rw (← unchanged) stay
    batch-Puts index (operation ∷ operations) ids now entries events index' h k =
        let (entry, made, a) =
          >>=-eq-ok (mode_entry normalize operation.mode index.entries operation.input) _ h in
        let (others, rest, b) =
          >>=-eq-ok (batch_entries normalize (put_entry entry.id entry index.entries) operations) _
            a in
        let (middle, more, at, k') =
          batch_events-cons index operation.mode entry others ids now
            (rw (← ok-injective b) at k) in
        let later =
          batch-Puts middle operations ids now others more index' (rw (← at) at rest) k' in
        write operation.mode operation.input made (subst (λ m. Puts m index'.entries) at later)

    register-Puts :
        (r : Registry) (input : RegisterObjectInput) (id : ObjectId) (now : Timestamp)
        {r' : Registry}
        → register normalize hash r input id now ≡ ok r'
        → Puts r.index.entries r'.index.entries
    unfolding register
    register-Puts r input id now h =
        let (entry, made, written) =
          >>=-eq-ok (registered_entry normalize r.index.entries input) _ h in
        write register_mode input made (commit-Puts r registered entry id now written)

    update-Puts :
        (r : Registry) (input : RegisterObjectInput) (id : ObjectId) (now : Timestamp)
        {r' : Registry}
        → update normalize hash r input id now ≡ ok r'
        → Puts r.index.entries r'.index.entries
    unfolding update
    update-Puts r input id now h =
        let (entry, made, written) =
          >>=-eq-ok (updated_entry normalize r.index.entries input) _ h in
        write update_mode input made (commit-Puts r updated entry id now written)

    commit_batch-Puts :
        (r : Registry) (operations : List RegistryBatchOperation) (ids : ℕ → ObjectId)
        (now : Timestamp) {r' : Registry}
        → commit_batch normalize hash r operations ids now ≡ ok r'
        → Puts r.index.entries r'.index.entries
    unfolding commit_batch
    commit_batch-Puts r [] ids now {r'} h =
        let same_end : r ≡ r' = ok-injective h in rw (← same_end) stay
    commit_batch-Puts r (operation ∷ operations) ids now {r'} h =
        let (entries, made, a) =
          >>=-eq-ok (batch_entries normalize r.index.entries (operation ∷ operations)) _ h in
        let ((events, index), written, b) =
          >>=-eq-ok (batch_events normalize hash r.index entries ids now) _ a in
        let end : index.entries ≡ r'.index.entries = ap (λ x. x.index.entries) (ok-injective b) in
        subst (λ m. Puts r.index.entries m) end
          (batch-Puts r.index (operation ∷ operations) ids now entries events index made written)

    tombstone-Puts :
        (r : Registry) (id : ObjectId) (expected : ℕ) (now : Timestamp) (event_id : ObjectId)
        (at : Timestamp) {r' : Registry}
        → tombstone normalize hash r id expected now event_id at ≡ ok r'
        → Puts r.index.entries r'.index.entries
    unfolding tombstone
    tombstone-Puts r id expected now event_id at {r'} h =
        let (current, found, rest) =
          >>=-eq-ok (require_some (get_entry id r.index.entries) (not_found id)) _ h in
        let there = require_some-ok (get_entry id r.index.entries) (not_found id) found in
        elim (Bool-cases (is_tombstoned current)) [
          | inl e ↦ let same_end : r ≡ r' = ok-injective (rw e at rest) in rw (← same_end) stay
          | inr e ↦
              let (_, childless) = require-ok (current.revision == expected) _ (rw e at rest) in
              let (alone, written) =
                require-ok (not (has_children id r.index.entries)) (active_children id) childless in
              let no_child : has_children id r.index.entries ≡ false = ground arith in
              bury id now there e no_child
                (commit-Puts r tombstoned (buried current now) event_id at written)
        ]

    pub Operates-Puts :
        {r r' : Registry} → Operates normalize hash r r' → Puts r.index.entries r'.index.entries
    Operates-Puts {r} (by_register input id now h) = register-Puts r input id now h
    Operates-Puts {r} (by_update input id now h) = update-Puts r input id now h
    Operates-Puts {r} (by_batch operations ids now h) = commit_batch-Puts r operations ids now h
    Operates-Puts {r} (by_tombstone id expected now event_id at h) =
        tombstone-Puts r id expected now event_id at h
