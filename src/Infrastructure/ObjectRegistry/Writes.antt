-- ===== src/Infrastructure/ObjectRegistry/Writes.antt =====
-- src/infrastructure/registry/object_registry.ts: registering, updating and tombstoning objects.
-- `normalizeObjectRef` stands on Node's path library and is a parameter.
use toaa.Base.{
  ℕ, zero, suc, ◌+◌, Bool, true, false, not, ◌&&◌, List, [], ◌∷◌, ◌++◌, Option, none, some, String,
  String-discrete, Result, ok, ◌>>=◌, ◌>>◌, require, require_some, ◌==◌, same, same_option,
  or_option, is_some, any, length,
}
use toaa.Domain.Objects.{ObjectId, ObjectEnvelope, Timestamp, Digest, revise_object_envelope}
use toaa.Infrastructure.ObjectRegistry.Types.{
  ObjectType-discrete, is_project, RegistryEntry, is_tombstoned, Entries, get_entry, put_entry,
  RegistryEventType, registered, updated, tombstoned, EventBase, RegistryEvent, Index, Registry,
  RegistryError, not_found, id_reused, is_tombstone, identity_changed, created_at_changed,
  project_inactive, parent_inactive, parent_elsewhere, parent_cycle, active_children,
  project_id_not_own, project_has_parent, revision_must_advance, revision_conflict,
}
use toaa.Infrastructure.ObjectRegistry.Events.{apply_event, snapshot_of, make_event, commit}

-- `RegisterObjectInput`
pub record RegisterObjectInput : Type 0 where
  pub envelope : ObjectEnvelope
  pub object_ref : String
  pub content_hash : Digest
  pub parent_id : Option ObjectId
  pub state : Option String

-- `RegistryBatchOperation`
pub data BatchMode : Type 0 where
  register_mode update_mode : BatchMode

pub record RegistryBatchOperation : Type 0 where
  pub mode : BatchMode
  pub input : RegisterObjectInput

-- `!project || project.objectType !== 'project' || project.tombstonedAt`, negated.
abbrev pub is_active_project : Option RegistryEntry → Bool
is_active_project none = false
is_active_project (some e) = is_project e.object_type && not (is_tombstoned e)

abbrev pub active : Option RegistryEntry → Option RegistryEntry
active none = none
active (some e) = elim (is_tombstoned e) [ true ↦ none | false ↦ some e ]

-- The loop over the ancestors: whether `id` is one of them. A chain without a cycle has no more
-- links than there are entries, and the fuel is one more; a chain that uses it up has a cycle.
unfoldable pub is_ancestor : ℕ → Entries → ObjectId → Option ObjectId → Bool
is_ancestor fuel entries id none = false
is_ancestor zero entries id (some next) = true
is_ancestor (suc fuel) entries id (some next) = elim (get_entry next entries) [
  | none ↦ false
  | some ancestor ↦ elim (ancestor.id == id) [
    | true ↦ true
    | false ↦ is_ancestor fuel entries id ancestor.parent_id
  ]
]

-- The part of `assertProjectAndParentIn` for an object with a parent.
unfoldable pub assert_parent : Entries → ObjectEnvelope → ObjectId → Result RegistryError (Unit {0})
unfolding is_ancestor
assert_parent entries envelope parent_id = do
  parent ← require_some (active (get_entry parent_id entries)) (parent_inactive parent_id)
  require (parent.project_id == envelope.project_id) (parent_elsewhere parent_id)
  require (not (is_ancestor (suc (length entries)) entries envelope.id (some parent_id)))
      (parent_cycle envelope.id)

-- `assertProjectAndParentIn`
unfoldable pub assert_project_and_parent_in :
    Entries → ObjectEnvelope → Option ObjectId → Result RegistryError (Unit {0})
unfolding assert_parent
assert_project_and_parent_in entries envelope parent_id = elim (is_project envelope.object_type) [
  | true ↦ do
    require (envelope.project_id == envelope.id) project_id_not_own
    require (not (is_some parent_id)) project_has_parent
  | false ↦ do
    require (is_active_project (get_entry envelope.project_id entries))
        (project_inactive envelope.project_id)
    elim parent_id [ none ↦ ok tt | some parent ↦ assert_parent entries envelope parent ]
]

-- What `update` asks of the new envelope.
unfoldable pub assert_revises : RegistryEntry → ObjectEnvelope → Result RegistryError (Unit {0})
unfolding ObjectType-discrete
assert_revises current envelope = do
  require (not (is_tombstoned current)) (is_tombstone envelope.id)
  require
      (same ObjectType-discrete envelope.object_type current.object_type
        && envelope.project_id == current.project_id)
      (identity_changed envelope.id)
  require (same String-discrete envelope.created_at current.created_at)
      (created_at_changed envelope.id)
  require (envelope.revision == current.revision + 1)
      (revision_must_advance envelope.id current.revision envelope.revision)

abbrev pub event_type : BatchMode → RegistryEventType
event_type register_mode = registered
event_type update_mode = updated

-- `childrenOf(id).length > 0`
abbrev pub has_children : ObjectId → Entries → Bool
has_children id entries =
    any (λ e. not (is_tombstoned e.1) && same_option e.1.parent_id (some id)) entries

-- The entry of `tombstone`.
abbrev pub buried : RegistryEntry → Timestamp → RegistryEntry
buried current now = record current {
  envelope = revise_object_envelope current.envelope none now;
  tombstoned_at = some now;
}

module _ (normalize_object_ref : String → Result RegistryError String) where
  -- The entry that the registry makes of an input.
  unfoldable pub make_entry :
      Entries → RegisterObjectInput → Option ObjectId → Result RegistryError RegistryEntry
  make_entry entries input parent_id = do
    assert_project_and_parent_in entries input.envelope parent_id
    object_ref ← normalize_object_ref input.object_ref
    ok (record {
      envelope = input.envelope;
      parent_id = parent_id;
      object_ref = object_ref;
      content_hash = input.content_hash;
      state = input.state;
      tombstoned_at = none;
    })

  -- The checks and the entry of `register`.
  unfoldable pub registered_entry :
      Entries → RegisterObjectInput → Result RegistryError RegistryEntry
  registered_entry entries input = do
    require (not (is_some (get_entry input.envelope.id entries))) (id_reused input.envelope.id)
    make_entry entries input input.parent_id

  -- The checks and the entry of `update`.
  unfoldable pub updated_entry : Entries → RegisterObjectInput → Result RegistryError RegistryEntry
  updated_entry entries input = do
    current ← require_some (get_entry input.envelope.id entries) (not_found input.envelope.id)
    assert_revises current input.envelope
    make_entry entries input (or_option input.parent_id current.parent_id)

  abbrev pub mode_entry :
      BatchMode → Entries → RegisterObjectInput → Result RegistryError RegistryEntry
  mode_entry register_mode = registered_entry
  mode_entry update_mode = updated_entry

  -- The first loop of `commitBatch`, over its `shadow` of the entries.
  unfoldable pub batch_entries :
      Entries
      → List RegistryBatchOperation
      → Result RegistryError (List (BatchMode × RegistryEntry))
  batch_entries shadow [] = ok []
  batch_entries shadow (operation ∷ operations) = do
    entry ← mode_entry operation.mode shadow operation.input
    entries ← batch_entries (put_entry entry.id entry shadow) operations
    ok ((operation.mode, entry) ∷ entries)

  module _ (hash : EventBase → Digest) where
    -- The other loops of `commitBatch`: the events, and the index with all of them applied.
    -- `fresh n` is the id that is drawn for the event after the first `n`.
    unfoldable pub batch_events :
        Index
        → List (BatchMode × RegistryEntry)
        → (ℕ → ObjectId)
        → Timestamp
        → Result RegistryError (List RegistryEvent × Index)
    batch_events index [] fresh now = ok ([], index)
    batch_events index ((mode, entry) ∷ entries) fresh now = do
      let event = make_event hash index (event_type mode) entry (fresh index.event_sequence) now
      index' ← apply_event index event
      rest ← batch_events index' entries fresh now
      ok (event ∷ rest.0, rest.1)

    -- `register`
    unfoldable pub register :
        Registry → RegisterObjectInput → ObjectId → Timestamp → Result RegistryError Registry
    register r input fresh_id now = do
      entry ← registered_entry r.index.entries input
      commit hash r registered entry fresh_id now

    -- `update`
    unfoldable pub update :
        Registry → RegisterObjectInput → ObjectId → Timestamp → Result RegistryError Registry
    update r input fresh_id now = do
      entry ← updated_entry r.index.entries input
      commit hash r updated entry fresh_id now

    -- `commitBatch`: the events go to the log in one append.
    unfoldable pub commit_batch :
        Registry
        → List RegistryBatchOperation
        → (ℕ → ObjectId)
        → Timestamp
        → Result RegistryError Registry
    commit_batch r [] fresh now = ok r
    commit_batch r (operation ∷ operations) fresh now = do
      entries ← batch_entries r.index.entries (operation ∷ operations)
      written ← batch_events r.index entries fresh now
      ok (record {
        index = written.1;
        log = r.log ++ written.0;
        snapshot = some (snapshot_of written.1 now);
      })

    -- `tombstone`
    unfoldable pub tombstone :
        Registry → ObjectId → ℕ → Timestamp → ObjectId → Timestamp → Result RegistryError Registry
    unfolding revise_object_envelope
    tombstone r id expected now fresh_id at = do
      current ← require_some (get_entry id r.index.entries) (not_found id)
      elim (is_tombstoned current) [
        | true ↦ ok r
        | false ↦ do
          require (current.revision == expected) (revision_conflict id expected current.revision)
          require (not (has_children id r.index.entries)) (active_children id)
          commit hash r tombstoned (buried current now) fresh_id at
      ]
