-- ===== src/Infrastructure/ObjectRegistry/Types.antt =====
-- src/infrastructure/registry/object_registry.ts: the entries, the event log and the snapshot.
use toaa.Base.{ℕ, Bool, true, false, List, [], Option, none, String, ℕ_discrete, get, put, is_some}
use toaa.Domain.Objects.{ObjectId, ObjectType, ObjectEnvelope, Timestamp, Digest}

unfoldable pub ObjectType-discrete : Discrete ObjectType
ObjectType-discrete = hlevel

abbrev pub is_project : ObjectType → Bool
is_project ObjectType.project = true
is_project _ = false

-- `ObjectRegistryEntrySchema`
pub record RegistryEntry : Type 0 where
  pub envelope : ObjectEnvelope
  pub open envelope use {id, object_type, project_id, revision, created_at}
  pub parent_id : Option ObjectId
  pub object_ref : String
  pub content_hash : Digest
  pub state : Option String
  pub tombstoned_at : Option Timestamp

abbrev pub is_tombstoned : RegistryEntry → Bool
is_tombstoned e = is_some e.tombstoned_at

-- `this.entries`
abbrev pub Entries : Type 0
Entries = List (ObjectId × RegistryEntry)

abbrev pub get_entry : ObjectId → Entries → Option RegistryEntry
get_entry = get ℕ_discrete

abbrev pub put_entry : ObjectId → RegistryEntry → Entries → Entries
put_entry = put ℕ_discrete

-- The `type` of an `ObjectRegistryEventSchema`.
pub data RegistryEventType : Type 0 where
  registered updated tombstoned : RegistryEventType

-- `eventBase`: the event without its hash.
pub record EventBase : Type 0 where
  pub id : ObjectId
  pub sequence : ℕ
  pub type : RegistryEventType
  pub object_id : ObjectId
  pub at : Timestamp
  pub previous_event_hash : Option Digest
  pub entry : RegistryEntry

-- `ObjectRegistryEventSchema`
pub record RegistryEvent : Type 0 where
  pub base : EventBase
  pub open base use {id, sequence, type, object_id, previous_event_hash, entry}
  pub event_hash : Digest

-- `ObjectRegistrySnapshotSchema`
pub record Snapshot : Type 0 where
  pub event_sequence : ℕ
  pub last_event_hash : Option Digest
  pub updated_at : Timestamp
  pub entries : List RegistryEntry

-- The fields of an `ObjectRegistry`.
pub record Index : Type 0 where
  pub entries : Entries
  pub event_sequence : ℕ
  pub last_event_hash : Option Digest

-- The registry with its two files: the log that is appended to, and the index that is replaced.
pub record Registry : Type 0 where
  pub index : Index
  pub log : List RegistryEvent
  pub snapshot : Option Snapshot

abbrev pub empty_index : Index
empty_index = record { entries = []; event_sequence = 0; last_event_hash = none }

-- What the registry throws.
pub data RegistryError : Type 0 where
  not_found id_reused is_tombstone identity_changed created_at_changed : ObjectId → RegistryError
  project_inactive parent_inactive parent_elsewhere parent_cycle : ObjectId → RegistryError
  active_children inconsistent_ids : ObjectId → RegistryError
  project_id_not_own project_has_parent bad_object_ref : RegistryError
  revision_must_advance revision_conflict : ObjectId → ℕ → ℕ → RegistryError
  sequence_gap : ℕ → ℕ → RegistryError
  chain_broken hash_invalid : ℕ → RegistryError
  snapshot_ahead : ℕ → ℕ → RegistryError
  snapshot_mismatch : RegistryError
