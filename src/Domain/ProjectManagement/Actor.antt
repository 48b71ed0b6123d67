-- ===== src/Domain/ProjectManagement/Actor.antt =====
-- src/domain/project_management/actor.ts: who can be given work.
use toaa.Base.{ℕ, List, Option, none, String}
use toaa.Domain.Objects.{ObjectId, ObjectEnvelope, Timestamp, revise_object_envelope}
use toaa.Domain.Roles.{DomainRole, Role}

-- `ACTOR_STATES`
pub data ActorState : Type 0 where
  active paused unavailable retired : ActorState

-- The `actorKind` of an `ActorRegistrationSchema`.
pub data ActorKind : Type 0 where
  human llm_agent runtime_service : ActorKind

-- A number that need not be whole, which the runtime stores and hands on: its text in JSON.
abbrev pub JsonNumber : Type 0
JsonNumber = String

pub record LlmBinding : Type 0 where
  pub provider_pool : List String
  pub temperature : Option JsonNumber

-- `ActorRegistrationSchema`
pub record ActorRegistration : Type 0 where
  pub envelope : ObjectEnvelope
  pub open envelope use {id, name, project_id, revision}
  pub actor_kind : ActorKind
  pub role : DomainRole
  pub role_definition_id : ObjectId
  pub agent : Option Role
  pub llm_binding : Option LlmBinding
  pub state : ActorState
  pub capacity : ℕ
  pub active_assignment_ids : List ObjectId
  pub quality_score : Option JsonNumber
  pub reliability_score : Option JsonNumber
  pub registered_at : Timestamp
  pub unavailable_reason : Option String

-- `reviseActor` at `changes = { activeAssignmentIds }`.
unfoldable pub revise_actor : ActorRegistration → List ObjectId → Timestamp → ActorRegistration
revise_actor actor active_assignment_ids now = record actor {
  envelope = revise_object_envelope actor.envelope none now;
  active_assignment_ids = active_assignment_ids;
}
