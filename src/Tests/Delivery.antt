-- ===== src/Tests/Delivery.antt =====
-- Change sets, merge requests and gates on test data.
use toaa.Base.{true, false, List, [], ◌∷◌, none, some, ok, ◌≡◌, refl, ◌+◌, arith}
use toaa.Domain.StateMachine.{assert_state_transition}
use toaa.Domain.StateMachine.Visits.{Visits}
use toaa.Domain.Objects.{ObjectType, revise_object_envelope}
use toaa.Domain.Workspace.MergeRequest as Requests
use toaa.Domain.Workspace.MergeRequest.{
  MergeRequest, MergeRequestState, GateCheckResult, GateCheckKind, GateRunStatus, gate_outcome,
  merge_request_transitions, MergeRequestState-discrete, no_changes, advance_merge_request,
  gate_validation_path, hop, hops,
}
use toaa.Domain.Workspace.MergeRequest.Routes as Routes
use toaa.Domain.Workspace.MergeRequest.Routes.{
  advance-Visits, advance-gate_validation_path, advance-final,
}
use toaa.Domain.Workspace.MergeRequest.Gates.{Means, gate_outcome-Means}
use toaa.Domain.Workspace.ChangeSet.{
  TicketChangeSet, ChangeSetState, ChangeSetChanges, ChangeSetRevision, revise_change_set,
  ChangeSetState-discrete, change_set_transitions, apply_changes, transition_change_set,
}
use toaa.Domain.Workspace.ChangeSet.Delivery as Delivery
use toaa.Domain.Workspace.ChangeSet.Delivery.{Writes, rest, move, revise, Writes-Visits}
use toaa.Tests.Samples.{envelope_of}

abbrev request : MergeRequest
request = record {
  envelope = envelope_of 30 ObjectType.merge_request;
  change_set_id = 31;
  root_ticket_id = 10;
  source_branch = "xcompiler/ticket/10";
  target_branch = "main";
  base_revision = "aaaaaaa";
  source_revision = "bbbbbbb";
  target_revision = none;
  gate_run_ids = [];
  merged_revision = none;
  state = MergeRequestState.ready;
}

abbrev to_merge : List MergeRequestState
to_merge =
    MergeRequestState.validating ∷ MergeRequestState.approved ∷ MergeRequestState.mergeable
    ∷ MergeRequestState.merged ∷ []

abbrev merged_request : MergeRequest
merged_request = record request {
  envelope = record request.envelope { revision = 5; updated_at = "t9" };
  state = MergeRequestState.merged;
}

merges : advance_merge_request request to_merge no_changes "t9" ≡ ok merged_request
unfolding advance_merge_request hops hop assert_state_transition merge_request_transitions
    Requests.apply_changes revise_object_envelope MergeRequestState-discrete
merges = refl

advance-Visits_example : Visits (Routes.before_merge request.state) to_merge
advance-Visits_example = advance-Visits request to_merge no_changes "t9" merges refl

advance-gate_validation_path_example :
    (r' : MergeRequest) × (advance_merge_request request
        (gate_validation_path request.state)
        no_changes
        "t9"
      ≡ ok r')
    × (r'.state ≡ MergeRequestState.validating)
    × (r'.revision ≡ request.revision + 1)
advance-gate_validation_path_example =
    advance-gate_validation_path request no_changes "t9" (λ e. ground arith) (λ e. ground arith)

abbrev merged_again : MergeRequest
merged_again = record merged_request {
  envelope = record request.envelope { revision = 6; updated_at = "t10" };
}

stays_merged :
    advance_merge_request merged_request (MergeRequestState.merged ∷ []) no_changes "t10"
    ≡ ok merged_again
unfolding advance_merge_request hops hop assert_state_transition Requests.apply_changes
    revise_object_envelope MergeRequestState-discrete
stays_merged = refl

abbrev checks : List GateCheckResult
checks =
    record { name = "unit"; passes = true; summary = ""; kind = GateCheckKind.execution }
    ∷ record { name = "image"; passes = false; summary = ""; kind = GateCheckKind.infrastructure }
    ∷ []

gate_outcome-Means_example : Means (gate_outcome checks) checks
gate_outcome-Means_example = gate_outcome-Means checks

abbrev change : TicketChangeSet
change = record {
  envelope = envelope_of 31 ObjectType.ticket_change_set;
  root_ticket_id = 10;
  generation = 1;
  corrective_ticket_ids = [];
  changelist_ids = [];
  source_branch = "xcompiler/ticket/10";
  workspace_id = 32;
  merge_request_id = some 30;
  base_revision = "aaaaaaa";
  current_revision = "bbbbbbb";
  merged_revision = none;
  state = ChangeSetState.gate_passed;
}

abbrev with_revision : ChangeSetChanges
with_revision = record {
  root_ticket_id = none;
  generation = none;
  corrective_ticket_ids = none;
  changelist_ids = none;
  source_branch = none;
  workspace_id = none;
  merge_request_id = none;
  base_revision = none;
  current_revision = none;
  merged_revision = some "ccccccc";
}

abbrev merged_change : TicketChangeSet
merged_change = record change {
  envelope = record change.envelope { revision = 5; updated_at = "t9" };
  merged_revision = some "ccccccc";
  state = ChangeSetState.merged;
}

change_merges :
    transition_change_set change ChangeSetState.merged with_revision "t9" ≡ ok merged_change
unfolding transition_change_set assert_state_transition change_set_transitions apply_changes
    revise_object_envelope ChangeSetState-discrete
change_merges = refl

-- A revision of the branch, then the merge.
abbrev branch_only : ChangeSetRevision
branch_only = record {
  changes = record with_revision { merged_revision = none; source_branch = some "x" };
  state = none;
}

abbrev merged_later : TicketChangeSet
merged_later = record change {
  envelope = record change.envelope { revision = 6; updated_at = "t9" };
  source_branch = "x";
  merged_revision = some "ccccccc";
  state = ChangeSetState.merged;
}

revised_merges :
    transition_change_set
      (revise_change_set change branch_only "t8")
      ChangeSetState.merged
      with_revision
      "t9"
    ≡ ok merged_later
unfolding transition_change_set assert_state_transition change_set_transitions apply_changes
    revise_object_envelope ChangeSetState-discrete revise_change_set
revised_merges = refl

abbrev writes : Writes change (ChangeSetState.merged ∷ []) merged_later
writes = revise branch_only "t8" refl (move with_revision "t9" revised_merges rest)

Writes-Visits_example : Visits (Delivery.before_merge change.state) (ChangeSetState.merged ∷ [])
Writes-Visits_example = Writes-Visits writes refl
