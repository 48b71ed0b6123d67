-- ===== src/Domain/Projects.antt =====
-- src/domain/projects/project.ts: the states of a Project.
pub mod Laws
use toaa.Base.{
  ℕ, Bool, true, false, List, [], ◌∷◌, Option, none, some, String, Result, ok, ◌>>=◌, ◌>>◌, require,
  same, is_some, not, ◌&&◌, any, ◌==◌, if◌then◌else◌,
}
use toaa.Domain.StateMachine.{StateTransitions, InvalidTransition, assert_state_transition}
use toaa.Domain.Objects.{ObjectId, ObjectEnvelope, Timestamp, Digest, revise_object_envelope}
use toaa.Domain.Roles.{PendingReason}

-- `PROJECT_STATES`
pub data ProjectState : Type 0 where
  created planning in_progress pending delivered cancelled closed : ProjectState

-- `PROJECT_TRANSITIONS`
unfoldable pub project_transitions : StateTransitions ProjectState
project_transitions created = planning ∷ cancelled ∷ []
project_transitions planning = in_progress ∷ pending ∷ cancelled ∷ []
project_transitions in_progress = pending ∷ delivered ∷ cancelled ∷ []
project_transitions pending = planning ∷ in_progress ∷ cancelled ∷ []
project_transitions delivered = closed ∷ in_progress ∷ planning ∷ []
project_transitions cancelled = planning ∷ closed ∷ []
project_transitions closed = planning ∷ []

unfoldable pub ProjectState-discrete : Discrete ProjectState
ProjectState-discrete = hlevel

-- `topic` of `ProjectSchema`
pub record Topic : Type 0 where
  pub text : String
  pub source_ref : Option String
  pub digest : Digest

-- `language` of `ProjectSchema`
pub data Language : Type 0 where
  python typescript : Language

-- `intent` of `ProjectSchema`
pub data Intent : Type 0 where
  greenfield feature refactor self : Intent

-- `projectType` of `ProjectSchema`
pub data ProjectType : Type 0 where
  application library mixed : ProjectType

-- `ProjectSchema`
pub record Project : Type 0 where
  pub envelope : ObjectEnvelope
  pub open envelope use {id, name, project_id, revision}
  pub topic : Topic
  pub state : ProjectState
  pub pending_reason : Option PendingReason
  pub language : Language
  pub intent : Intent
  pub project_type : ProjectType
  pub project_plan_id : ObjectId
  pub management_plan_id : ObjectId
  pub pm_actor_id : ObjectId
  pub phase_ids : List ObjectId
  pub current_phase_id : Option ObjectId
  pub kpi_ids : List ObjectId
  pub quality_assessment_id : Option ObjectId
  pub deliverable_ids : List ObjectId
  pub checkpoint_ids : List ObjectId
  pub report_ids : List ObjectId
  pub audit_event_ids : List ObjectId

-- What the transition of a Project throws; the last two are the issues of the schema.
pub data ProjectError : Type 0 where
  invalid_project_transition : InvalidTransition ProjectState → ProjectError
  project_pending_reason_required : ObjectId → ProjectError
  project_id_mismatch : ProjectError
  unknown_current_phase : ProjectError

abbrev pub same_project_state : ProjectState → ProjectState → Bool
same_project_state = same ProjectState-discrete

-- `!project.currentPhaseId || project.phaseIds.includes(project.currentPhaseId)`
abbrev pub knows_phase : List ObjectId → Option ObjectId → Bool
knows_phase phase_ids none = true
knows_phase phase_ids (some current) = any (λ id. id == current) phase_ids

-- `superRefine` of `ProjectSchema`
unfoldable pub parse_project : Project → Result ProjectError Project
parse_project p = do
  require (p.project_id == p.id) project_id_mismatch
  require (knows_phase p.phase_ids p.current_phase_id) unknown_current_phase
  ok p

-- The Project after a declared move, before it is parsed.
abbrev pub enter_project : Project → ProjectState → Option PendingReason → Timestamp → Project
enter_project p next reason now = record p {
  envelope = revise_object_envelope p.envelope none now;
  state = next;
  pending_reason = if same_project_state next pending then reason else none;
}

abbrev pub move_project :
    Project → ProjectState → Option PendingReason → Timestamp → Result ProjectError Project
move_project p next reason now = do
  require (not (same_project_state next pending && not (is_some reason)))
      (project_pending_reason_required p.id)
  parse_project (enter_project p next reason now)

-- `transitionProject`
unfoldable pub transition_project :
    Project → ProjectState → Option PendingReason → Timestamp → Result ProjectError Project
unfolding ProjectState-discrete revise_object_envelope
transition_project p next reason now = do
  changed ← assert_state_transition ProjectState-discrete p.state next project_transitions (
      invalid_project_transition
        (record { machine = "project"; entity_id = p.id; from = p.state; to = next }))
  if changed then move_project p next reason now else ok p
