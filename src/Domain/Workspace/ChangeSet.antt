-- ===== src/Domain/Workspace/ChangeSet.antt =====
-- src/domain/workspace/change_set.ts: working copies and the change that a Ticket delivers.
pub mod Delivery
use Prim.Native.String.{◌++◌ as join}
use toaa.Base.{
  ℕ, Bool, List, [], ◌∷◌, Option, none, String, Result, ok, ◌>>=◌, or_else, or_option, ◌==◌,
  if◌then◌else◌,
}
use toaa.Base.Decimal.{decimal}
use toaa.Domain.StateMachine.{StateTransitions, InvalidTransition, assert_state_transition}
use toaa.Domain.Tickets.Types.{WorkspaceKind}
use toaa.Domain.Objects.{ObjectId, ObjectEnvelope, Timestamp, revise_object_envelope}

-- `WORKSPACE_STATES`
pub data WorkspaceState : Type 0 where
  active released : WorkspaceState

-- `WorkspaceHandleSchema`
pub record WorkspaceHandle : Type 0 where
  pub envelope : ObjectEnvelope
  pub kind : WorkspaceKind
  pub relative_path : String
  pub branch : String
  pub owner_ticket_id : Option ObjectId
  pub state : WorkspaceState
  pub created_revision : String

abbrev release_from : WorkspaceState → WorkspaceHandle → Timestamp → WorkspaceHandle
release_from released workspace now = workspace
release_from active workspace now = record workspace {
  envelope = revise_object_envelope workspace.envelope none now;
  state = released;
}

-- `releaseWorkspaceHandle`
unfoldable pub release_workspace_handle : WorkspaceHandle → Timestamp → WorkspaceHandle
unfolding revise_object_envelope
release_workspace_handle workspace now = release_from workspace.state workspace now

-- `CHANGE_SET_STATES`
pub data ChangeSetState : Type 0 where
  developing reviewing changes_requested gate_passed merged abandoned : ChangeSetState

-- `CHANGE_SET_TRANSITIONS`
unfoldable pub change_set_transitions : StateTransitions ChangeSetState
change_set_transitions developing = reviewing ∷ abandoned ∷ []
change_set_transitions reviewing = changes_requested ∷ gate_passed ∷ abandoned ∷ []
change_set_transitions changes_requested = developing ∷ reviewing ∷ abandoned ∷ []
change_set_transitions gate_passed = merged ∷ reviewing ∷ abandoned ∷ []
change_set_transitions merged = []
change_set_transitions abandoned = []

unfoldable pub ChangeSetState-discrete : Discrete ChangeSetState
ChangeSetState-discrete = hlevel

-- `TicketChangeSetSchema`
pub record TicketChangeSet : Type 0 where
  pub envelope : ObjectEnvelope
  pub open envelope use {id, revision}
  pub root_ticket_id : ObjectId
  pub generation : ℕ
  pub corrective_ticket_ids : List ObjectId
  pub changelist_ids : List ObjectId
  pub source_branch : String
  pub workspace_id : ObjectId
  pub merge_request_id : Option ObjectId
  pub base_revision : String
  pub current_revision : String
  pub merged_revision : Option String
  pub state : ChangeSetState

-- `changes` of `transitionChangeSet`. What it may say of the envelope is overwritten.
pub record ChangeSetChanges : Type 0 where
  pub root_ticket_id : Option ObjectId
  pub generation : Option ℕ
  pub corrective_ticket_ids : Option (List ObjectId)
  pub changelist_ids : Option (List ObjectId)
  pub source_branch : Option String
  pub workspace_id : Option ObjectId
  pub merge_request_id : Option ObjectId
  pub base_revision : Option String
  pub current_revision : Option String
  pub merged_revision : Option String

-- `changes` of `reviseChangeSet`, which may name a state as well.
pub record ChangeSetRevision : Type 0 where
  pub changes : ChangeSetChanges
  pub state : Option ChangeSetState

-- `{ ...changeSet, ...changes }`
unfoldable pub apply_changes : TicketChangeSet → ChangeSetChanges → TicketChangeSet
apply_changes s c = record s {
  root_ticket_id = or_else c.root_ticket_id s.root_ticket_id;
  generation = or_else c.generation s.generation;
  corrective_ticket_ids = or_else c.corrective_ticket_ids s.corrective_ticket_ids;
  changelist_ids = or_else c.changelist_ids s.changelist_ids;
  source_branch = or_else c.source_branch s.source_branch;
  workspace_id = or_else c.workspace_id s.workspace_id;
  merge_request_id = or_option c.merge_request_id s.merge_request_id;
  base_revision = or_else c.base_revision s.base_revision;
  current_revision = or_else c.current_revision s.current_revision;
  merged_revision = or_option c.merged_revision s.merged_revision;
}

-- `transitionChangeSet`
unfoldable pub transition_change_set :
    TicketChangeSet
    → ChangeSetState
    → ChangeSetChanges
    → Timestamp
    → Result (InvalidTransition ChangeSetState) TicketChangeSet
transition_change_set s next changes now = do
  changed ←
      assert_state_transition ChangeSetState-discrete s.state next change_set_transitions
        (record { machine = "ticket-change-set"; entity_id = s.id; from = s.state; to = next })
  ok (
      if changed
      then record (apply_changes s changes) {
        envelope = revise_object_envelope s.envelope none now;
        state = next;
      }
      else s)

-- `reviseChangeSet`: a state that is named is written without a look at the table.
unfoldable pub revise_change_set : TicketChangeSet → ChangeSetRevision → Timestamp → TicketChangeSet
revise_change_set s r now = record (apply_changes s r.changes) {
  envelope = revise_object_envelope s.envelope none now;
  state = or_else r.state s.state;
}

-- `ticketBranchName`
unfoldable pub ticket_branch_name : String → ℕ → String
unfolding decimal
ticket_branch_name ticket_id generation =
    let root = join "xcompiler/ticket/" ticket_id in
    if generation == 1 then root else join root (join "-r" (decimal generation))
