-- ===== src/Domain/Phases.antt =====
-- src/domain/phases/phase.ts: the states of a Phase.
pub mod Laws
use toaa.Base.{
  ℕ, Bool, true, false, List, [], ◌∷◌, Option, none, String, Result, ok, ◌>>=◌, ◌>>◌, require, same,
  is_some, not, ◌&&◌, length, ◌==◌, if◌then◌else◌,
}
use toaa.Domain.StateMachine.{
  StateTransitions, InvalidTransition, includes, assert_state_transition,
}
use toaa.Domain.Objects.{ObjectId, ObjectEnvelope, Timestamp, revise_object_envelope}
use toaa.Domain.Roles.{PendingReason}

-- `PHASE_STATES`
pub data PhaseState : Type 0 where
  created in_progress pending delivered reopened closed : PhaseState

-- `PHASE_TRANSITIONS`
unfoldable pub phase_transitions : StateTransitions PhaseState
phase_transitions created = in_progress ∷ pending ∷ []
phase_transitions in_progress = delivered ∷ pending ∷ []
phase_transitions pending = in_progress ∷ []
phase_transitions delivered = closed ∷ reopened ∷ []
phase_transitions reopened = in_progress ∷ []
phase_transitions closed = []

unfoldable pub PhaseState-discrete : Discrete PhaseState
PhaseState-discrete = hlevel

-- `PhaseSchema`, without the delivery gate that only quality assessment reads.
pub record Phase : Type 0 where
  pub envelope : ObjectEnvelope
  pub open envelope use {id, name, project_id, revision}
  pub objective : String
  pub description : String
  pub state : PhaseState
  pub pending_reason : Option PendingReason
  pub priority : ℕ
  pub dependency_phase_ids : List ObjectId
  pub step_ids : List ObjectId
  pub epic_ticket_id : ObjectId
  pub plan_id : ObjectId
  pub kpi_ids : List ObjectId
  pub deliverable_ids : List ObjectId
  pub checkpoint_ids : List ObjectId
  pub report_ids : List ObjectId
  pub scope : List String
  pub verification_gate : List String

-- What the transition of a Phase throws; `not_materialized` is the issue of the schema.
pub data PhaseError : Type 0 where
  invalid_phase_transition : InvalidTransition PhaseState → PhaseError
  phase_pending_reason_required : ObjectId → PhaseError
  not_materialized : ObjectId → PhaseError

abbrev pub same_phase_state : PhaseState → PhaseState → Bool
same_phase_state = same PhaseState-discrete

-- The states that the schema allows only for a materialized Phase.
abbrev pub needs_steps : PhaseState → Bool
needs_steps in_progress = true
needs_steps delivered = true
needs_steps reopened = true
needs_steps closed = true
needs_steps _ = false

-- `superRefine` of `PhaseSchema`
unfoldable pub parse_phase : Phase → Result PhaseError Phase
parse_phase p = do
  require (not (needs_steps p.state && length p.step_ids == 0)) (not_materialized p.id)
  ok p

-- The Phase after a declared move, before it is parsed.
abbrev pub enter_phase : Phase → PhaseState → Option PendingReason → Timestamp → Phase
enter_phase p next reason now = record p {
  envelope = revise_object_envelope p.envelope none now;
  state = next;
  pending_reason = if same_phase_state next pending then reason else none;
}

abbrev pub move_phase :
    Phase → PhaseState → Option PendingReason → Timestamp → Result PhaseError Phase
move_phase p next reason now = do
  require (not (same_phase_state next pending && not (is_some reason)))
      (phase_pending_reason_required p.id)
  parse_phase (enter_phase p next reason now)

-- `transitionPhase`
unfoldable pub transition_phase :
    Phase → PhaseState → Option PendingReason → Timestamp → Result PhaseError Phase
unfolding PhaseState-discrete revise_object_envelope
transition_phase p next reason now = do
  changed ← assert_state_transition PhaseState-discrete p.state next phase_transitions (
      invalid_phase_transition
        (record { machine = "phase"; entity_id = p.id; from = p.state; to = next }))
  if changed then move_phase p next reason now else ok p
