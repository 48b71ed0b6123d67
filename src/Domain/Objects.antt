-- ===== src/Domain/Objects.antt =====
-- src/domain/identity and src/domain/objects: the envelope of every persisted object.
-- An object id is a UUIDv7, a 128-bit number that the runtime only compares; so is a digest of
-- SHA-256. A timestamp is the text that the runtime stores and never reads back.
use toaa.Base.{ℕ, ◌+◌, Option, some, String, Result, ok, require_some, ◌>>=◌, or_else}

abbrev pub ObjectId : Type 0
ObjectId = ℕ

abbrev pub Digest : Type 0
Digest = ℕ

abbrev pub Timestamp : Type 0
Timestamp = String

-- `OBJECT_TYPES`
pub data ObjectType : Type 0 where
  project phase step ticket actor_registration ticket_assignment ticket_trace_event : ObjectType
  workspace_handle file_tree ticket_change_set merge_request merge_gate_run : ObjectType
  context_record role_definition project_management_plan risk_record decision_record : ObjectType
  interaction_request plan kpi checkpoint deliverable quality_assessment report : ObjectType
  changelist log audit_event domain_event : ObjectType

-- `ObjectEnvelopeSchema`
pub record ObjectEnvelope : Type 0 where
  pub id : ObjectId
  pub name : String
  pub object_type : ObjectType
  pub project_id : ObjectId
  pub schema_version : ℕ
  pub revision : ℕ
  pub created_at : Timestamp
  pub updated_at : Timestamp

-- `reviseObjectEnvelope` at `changes = { name, now }`: the one revision step of a write. The clock
-- is read by the caller.
unfoldable pub revise_object_envelope : ObjectEnvelope → Option String → Timestamp → ObjectEnvelope
revise_object_envelope current name now = record {
  id = current.id;
  name = or_else name current.name;
  object_type = current.object_type;
  project_id = current.project_id;
  schema_version = current.schema_version;
  revision = current.revision + 1;
  created_at = current.created_at;
  updated_at = now;
}

-- The error of `createObjectEnvelope`.
pub data EnvelopeError : Type 0 where
  project_id_required : ObjectType → EnvelopeError

-- `input.objectType === 'project' ? id : input.projectId`
unfoldable pub envelope_project : ObjectType → ObjectId → Option ObjectId → Option ObjectId
envelope_project project id given = some id
envelope_project _ id given = given

-- The envelope that `createObjectEnvelope` makes for a known project.
unfoldable pub fresh_envelope :
    ObjectId → String → ObjectType → ObjectId → Option ℕ → Timestamp → ObjectEnvelope
fresh_envelope id name object_type project_id schema_version now = record {
  id = id;
  name = name;
  object_type = object_type;
  project_id = project_id;
  schema_version = or_else schema_version 1;
  revision = 1;
  created_at = now;
  updated_at = now;
}

-- `createObjectEnvelope`. The fresh id and the clock come from the caller.
unfoldable pub create_object_envelope :
    ObjectId
    → String
    → ObjectType
    → Option ObjectId
    → Option ℕ
    → Timestamp
    → Result EnvelopeError ObjectEnvelope
unfolding envelope_project
create_object_envelope id name object_type given schema_version now = do
  project_id ←
      require_some (envelope_project object_type id given) (project_id_required object_type)
  ok (fresh_envelope id name object_type project_id schema_version now)
