-- ===== src/Domain/Steps.antt =====
-- src/domain/steps/step.ts: the eight Steps of the V-model and the states of one.
pub mod Laws
pub mod Dependencies
use toaa.Base.{
  ℕ, Bool, true, false, List, [], ◌∷◌, Option, none, String, Result, ok, err, ◌>>=◌, ◌>>◌, require,
  same, is_some, not, ◌&&◌, if◌then◌else◌,
}
use toaa.Domain.StateMachine.{StateTransitions, InvalidTransition, assert_state_transition}
use toaa.Domain.Objects.{ObjectId, ObjectEnvelope, Timestamp, revise_object_envelope}
use toaa.Domain.Roles.{DomainRole, ExecutingRole, PendingReason}

-- `V_MODEL_STEP_PAIRS`, in the order of `STEP_TYPES`.
pub data StepType : Type 0 where
  requirement_analysis high_level_design detailed_design code : StepType
  unit_test integration_test module_test functional_test : StepType

-- `STEP_TYPES`: the development Steps, and the verification Steps in reverse order of the pairs.
abbrev pub step_types : List StepType
step_types =
    requirement_analysis ∷ high_level_design ∷ detailed_design ∷ code ∷ unit_test ∷ integration_test
    ∷ module_test ∷ functional_test ∷ []

-- `STEP_TYPE_ORDER`
unfoldable pub step_type_order : StepType → ℕ
step_type_order requirement_analysis = 0
step_type_order high_level_design = 1
step_type_order detailed_design = 2
step_type_order code = 3
step_type_order unit_test = 4
step_type_order integration_test = 5
step_type_order module_test = 6
step_type_order functional_test = 7

-- `STEP_STATES`
pub data StepState : Type 0 where
  created in_progress pending delivered reopened closed : StepState

-- `STEP_TRANSITIONS`
unfoldable pub step_transitions : StateTransitions StepState
step_transitions created = in_progress ∷ pending ∷ []
step_transitions in_progress = delivered ∷ pending ∷ []
step_transitions pending = in_progress ∷ []
step_transitions delivered = closed ∷ reopened ∷ []
step_transitions reopened = in_progress ∷ []
step_transitions closed = reopened ∷ []

unfoldable pub StepState-discrete : Discrete StepState
StepState-discrete = hlevel

-- `StepSchema`, without the delivery gate and the tolerance that only quality assessment reads.
pub record Step : Type 0 where
  pub envelope : ObjectEnvelope
  pub open envelope use {id, name, project_id, revision}
  pub phase_id : ObjectId
  pub type : StepType
  pub title : String
  pub description : String
  pub role : DomainRole
  pub agent : ExecutingRole
  pub state : StepState
  pub pending_reason : Option PendingReason
  pub dependency_step_ids : List ObjectId
  pub paired_step_id : Option ObjectId
  pub inputs : List String
  pub outputs : List String
  pub acceptance : List String
  pub deliverable_ids : List ObjectId
  pub checkpoint_ids : List ObjectId
  pub report_ids : List ObjectId
  pub tools : List String
  pub attempts : ℕ
  pub max_attempts : ℕ

-- `stepSatisfiesDependency`
unfoldable pub step_satisfies_dependency : StepState → Bool
step_satisfies_dependency delivered = true
step_satisfies_dependency closed = true
step_satisfies_dependency _ = false

-- What the transition of a Step throws.
pub data StepError : Type 0 where
  invalid_step_transition : InvalidTransition StepState → StepError
  step_pending_reason_required : ObjectId → StepError

abbrev pub same_step_state : StepState → StepState → Bool
same_step_state = same StepState-discrete

-- The Step after a declared move.
abbrev pub enter_step : Step → StepState → Option PendingReason → Timestamp → Result StepError Step
enter_step s next reason now = do
  require (not (same_step_state next pending && not (is_some reason)))
      (step_pending_reason_required s.id)
  ok (record s {
    envelope = revise_object_envelope s.envelope none now;
    state = next;
    pending_reason = if same_step_state next pending then reason else none;
  })

-- `transitionStep`
unfoldable pub transition_step :
    Step → StepState → Option PendingReason → Timestamp → Result StepError Step
unfolding StepState-discrete revise_object_envelope
transition_step s next reason now = do
  changed ← assert_state_transition StepState-discrete s.state next step_transitions (
      invalid_step_transition
        (record { machine = "step"; entity_id = s.id; from = s.state; to = next }))
  if changed then enter_step s next reason now else ok s
