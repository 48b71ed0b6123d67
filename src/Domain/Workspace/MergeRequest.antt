-- ===== src/Domain/Workspace/MergeRequest.antt =====
-- src/domain/workspace/merge_request.ts: local merge requests and the gate runs that judge them.
pub mod Routes
pub mod Gates
use toaa.Base.{
  ℕ, Bool, true, false, not, ◌&&◌, List, [], ◌∷◌, Option, none, some, String, String-discrete,
  Result, ok, ◌>>=◌, same, all, any, or_else, or_option, if◌then◌else◌,
}
use toaa.Domain.StateMachine.{StateTransitions, InvalidTransition, assert_state_transition}
use toaa.Domain.Objects.{ObjectId, ObjectEnvelope, Timestamp, revise_object_envelope}

-- `MERGE_REQUEST_STATES`
pub data MergeRequestState : Type 0 where
  draft ready validating changes_requested approved mergeable merged closed : MergeRequestState

-- `MERGE_REQUEST_TRANSITIONS`
unfoldable pub merge_request_transitions : StateTransitions MergeRequestState
merge_request_transitions draft = ready ∷ closed ∷ []
merge_request_transitions ready = validating ∷ closed ∷ []
merge_request_transitions validating = changes_requested ∷ approved ∷ ready ∷ closed ∷ []
merge_request_transitions changes_requested = ready ∷ closed ∷ []
merge_request_transitions approved = mergeable ∷ changes_requested ∷ ready ∷ closed ∷ []
merge_request_transitions mergeable = merged ∷ ready ∷ closed ∷ []
merge_request_transitions merged = []
merge_request_transitions closed = []

unfoldable pub MergeRequestState-discrete : Discrete MergeRequestState
MergeRequestState-discrete = hlevel

-- `MergeRequestSchema`
pub record MergeRequest : Type 0 where
  pub envelope : ObjectEnvelope
  pub open envelope use {id, revision}
  pub change_set_id : ObjectId
  pub root_ticket_id : ObjectId
  pub source_branch : String
  pub target_branch : String
  pub base_revision : String
  pub source_revision : String
  pub target_revision : Option String
  pub gate_run_ids : List ObjectId
  pub merged_revision : Option String
  pub state : MergeRequestState

-- `changes` of `advanceMergeRequest`. What it may say of the envelope is overwritten.
pub record MergeRequestChanges : Type 0 where
  pub change_set_id : Option ObjectId
  pub root_ticket_id : Option ObjectId
  pub target_branch : Option String
  pub source_branch : Option String
  pub base_revision : Option String
  pub source_revision : Option String
  pub target_revision : Option String
  pub gate_run_ids : Option (List ObjectId)
  pub merged_revision : Option String

abbrev pub no_changes : MergeRequestChanges
no_changes = record {
  change_set_id = none;
  root_ticket_id = none;
  target_branch = none;
  source_branch = none;
  base_revision = none;
  source_revision = none;
  target_revision = none;
  gate_run_ids = none;
  merged_revision = none;
}

-- `changes` of `reviseMergeRequest`, which may name a state as well.
pub record MergeRequestRevision : Type 0 where
  pub changes : MergeRequestChanges
  pub state : Option MergeRequestState

-- `{ ...request, ...changes }`
unfoldable pub apply_changes : MergeRequest → MergeRequestChanges → MergeRequest
apply_changes r c = record r {
  change_set_id = or_else c.change_set_id r.change_set_id;
  root_ticket_id = or_else c.root_ticket_id r.root_ticket_id;
  target_branch = or_else c.target_branch r.target_branch;
  source_branch = or_else c.source_branch r.source_branch;
  base_revision = or_else c.base_revision r.base_revision;
  source_revision = or_else c.source_revision r.source_revision;
  target_revision = or_option c.target_revision r.target_revision;
  gate_run_ids = or_else c.gate_run_ids r.gate_run_ids;
  merged_revision = or_option c.merged_revision r.merged_revision;
}

abbrev pub MergeError : Type 0
MergeError = InvalidTransition MergeRequestState

abbrev pub refused_move : MergeRequest → MergeRequestState → MergeRequestState → MergeError
refused_move r from to = record {
  machine = "merge-request";
  entity_id = r.id;
  from = from;
  to = to;
}

-- One round of the loop of `advanceMergeRequest`: the new value of `state`.
unfoldable pub hop :
    MergeRequest → MergeRequestState → MergeRequestState → Result MergeError MergeRequestState
hop r state next = do
  changed ←
      assert_state_transition MergeRequestState-discrete state next merge_request_transitions
        (refused_move r state next)
  ok (if changed then next else state)

unfoldable pub hops :
    MergeRequest → MergeRequestState → List MergeRequestState → Result MergeError MergeRequestState
hops r state [] = ok state
hops r state (next ∷ path) = do state' ← hop r state next; hops r state' path

-- `transitionMergeRequest`
unfoldable pub transition_merge_request :
    MergeRequest → MergeRequestState → Timestamp → Result MergeError MergeRequest
transition_merge_request r next now = do
  changed ←
      assert_state_transition MergeRequestState-discrete r.state next merge_request_transitions
        (refused_move r r.state next)
  ok (
      if changed
      then record r { envelope = revise_object_envelope r.envelope none now; state = next }
      else r)

-- `advanceMergeRequest`: the whole path and the changed fields are one revision.
unfoldable pub advance_merge_request :
    MergeRequest
    → List MergeRequestState
    → MergeRequestChanges
    → Timestamp
    → Result MergeError MergeRequest
advance_merge_request r path changes now = do
  state ← hops r r.state path
  ok (record (apply_changes r changes) {
    envelope = revise_object_envelope r.envelope none now;
    state = state;
  })

-- `gateValidationPath`
unfoldable pub gate_validation_path : MergeRequestState → List MergeRequestState
gate_validation_path validating = []
gate_validation_path ready = validating ∷ []
gate_validation_path _ = ready ∷ validating ∷ []

-- `reviseMergeRequest`: a state that is named is written without a look at the table.
unfoldable pub revise_merge_request : MergeRequest → MergeRequestRevision → Timestamp → MergeRequest
revise_merge_request r revision now = record (apply_changes r revision.changes) {
  envelope = revise_object_envelope r.envelope none now;
  state = or_else revision.state r.state;
}

-- `GATE_RUN_STATUSES`
pub data GateRunStatus : Type 0 where
  running passed failed stale blocked infrastructure_failed : GateRunStatus

-- `GateCheckResultSchema`'s `kind`
pub data GateCheckKind : Type 0 where
  execution infrastructure : GateCheckKind

-- `GateCheckResultSchema`
pub record GateCheckResult : Type 0 where
  pub name : String
  pub passes : Bool
  pub summary : String
  pub kind : GateCheckKind

-- `MergeGateRunSchema`
pub record MergeGateRun : Type 0 where
  pub envelope : ObjectEnvelope
  pub merge_request_id : ObjectId
  pub source_revision : String
  pub target_revision : String
  pub candidate_revision : Option String
  pub worktree_path : Option String
  pub status : GateRunStatus
  pub check_results : List GateCheckResult
  pub started_at : Timestamp
  pub finished_at : Option Timestamp

-- `heads` of `isGateCurrent`
pub record Heads : Type 0 where
  pub source : String
  pub target : String

-- `isGateCurrent`
unfoldable pub is_gate_current : MergeGateRun → Heads → Bool
is_gate_current run heads =
    same String-discrete run.source_revision heads.source
    && same String-discrete run.target_revision heads.target

abbrev pub is_infrastructure : GateCheckKind → Bool
is_infrastructure execution = false
is_infrastructure infrastructure = true

-- `gateOutcome`
unfoldable pub gate_outcome : List GateCheckResult → GateRunStatus
gate_outcome [] = failed
gate_outcome (check ∷ checks) =
    if any (λ c. not c.passes && is_infrastructure c.kind) (check ∷ checks)
    then infrastructure_failed
    else if all (λ c. c.passes) (check ∷ checks)
    then passed
    else failed
