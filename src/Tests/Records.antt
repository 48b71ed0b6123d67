-- ===== src/Tests/Records.antt =====
-- Bindings, commits, duplicates and dependencies on test data.
use toaa.Base.{
  ℕ, true, false, List, [], ◌∷◌, ◌++◌, none, some, some-injective, ok, ◌≡◌, refl, ◌↔◌, Memᴰ,
  ℕ_discrete, Bool,
}
use toaa.Domain.Objects.{ObjectId, Digest, revise_object_envelope}
use toaa.Domain.Tickets.Types.{
  WorkspaceKind, TicketWorkspaceBinding, BindingReason, TicketCommit, TicketCommitKind,
  FailureIdentity,
}
use toaa.Domain.Tickets.Records.{
  attempt_baseline_revision, bind_ticket_workspace, starts_attempt, BugTicket, set_of,
  link_duplicate_bugs,
}
use toaa.Domain.Tickets.Records.Rollback.{append_all, attempt_baseline_revision-append_all}
use toaa.Domain.Tickets.Records.Bindings.{IsCurrent, bind_ticket_workspace-IsCurrent}
use toaa.Domain.Tickets.Records.Duplicates.{IsLinked, link_duplicate_bugs-IsLinked}
use toaa.Domain.Steps.{Step}
use toaa.Domain.Steps.Dependencies.{StepMap, get_step, explore, step_depends_on}
use toaa.Domain.Steps.Dependencies.Reach.{Reaches, step_depends_on-iff_Reaches}
use toaa.Tests.Samples.{code_step, new_bug, urgent_bug, sample_bug}

abbrev commit_of : TicketCommitKind → ℕ → ℕ → TicketCommit
commit_of kind attempt revision = record {
  revision = revision;
  kind = kind;
  attempt = attempt;
  step_id = 3;
  summary = "work";
  recorded_at = "t2";
}

abbrev later : List TicketCommit
later = commit_of TicketCommitKind.attempt 1 101 ∷ commit_of TicketCommitKind.baseline 2 102 ∷ []

none_restarts : (c : TicketCommit) → Memᴰ c later → starts_attempt 1 c ≡ false
none_restarts c (Memᴰ.head e) = rw e refl
none_restarts c (Memᴰ.tail (Memᴰ.head e)) = rw e refl
none_restarts c (Memᴰ.tail (Memᴰ.tail i)) = elim i [ ]

attempt_baseline_revision-append_all_example :
    (attempt_baseline_revision
        (append_all new_bug (commit_of TicketCommitKind.baseline 1 100 ∷ later))
        1
      ≡ some 100)
    × ((append_all new_bug (commit_of TicketCommitKind.baseline 1 100 ∷ later)).baseline_revision
        ≡ some 100)
attempt_baseline_revision-append_all_example =
    attempt_baseline_revision-append_all new_bug (commit_of TicketCommitKind.baseline 1 100) later
      refl none_restarts

abbrev worktree : TicketWorkspaceBinding
worktree = record {
  kind = WorkspaceKind.ticket;
  relative_path = "worktrees/11";
  branch = "xcompiler/ticket/11";
  revision = 100;
  workspace_id = some 32;
  change_set_id = none;
  merge_gate_run_id = none;
  reason = BindingReason.initial;
  bound_at = "t2";
}

bind_ticket_workspace-IsCurrent_example :
    IsCurrent (bind_ticket_workspace new_bug worktree "t2")
    × ((rest : List TicketWorkspaceBinding) × ((bind_ticket_workspace new_bug worktree
            "t2").workspace_binding_history
          ≡ new_bug.workspace_binding_history ++ rest))
    × (bind_ticket_workspace (bind_ticket_workspace new_bug worktree "t2") worktree "t3"
        ≡ bind_ticket_workspace new_bug worktree "t2")
bind_ticket_workspace-IsCurrent_example =
    bind_ticket_workspace-IsCurrent new_bug worktree "t2" "t3" refl

abbrev identity_key : FailureIdentity → Digest
identity_key identity = identity.target_step_id

abbrev first_bug : BugTicket
first_bug = record { ticket = new_bug; detail = sample_bug }

abbrev second_bug : BugTicket
second_bug = record { ticket = urgent_bug; detail = sample_bug }

abbrev linked_first : BugTicket
linked_first = record first_bug {
  ticket = record new_bug {
    envelope = revise_object_envelope new_bug.envelope none "t2";
    duplicate_ticket_ids = 12 ∷ [];
  };
}

abbrev linked_second : BugTicket
linked_second = record second_bug {
  ticket = record urgent_bug { duplicate_of_ticket_id = some 11 };
}

links :
    link_duplicate_bugs identity_key first_bug second_bug "t2" ≡ ok (linked_first, linked_second)
unfolding link_duplicate_bugs set_of
links = refl

link_duplicate_bugs-IsLinked_example : IsLinked first_bug second_bug linked_first linked_second
link_duplicate_bugs-IsLinked_example =
    link_duplicate_bugs-IsLinked identity_key first_bug second_bug "t2" links

abbrev test_step : Step
test_step = record code_step {
  envelope = record code_step.envelope { id = 4 };
  dependency_step_ids = 3 ∷ [];
}

abbrev two_steps : StepMap
two_steps = (3, record code_step { dependency_step_ids = 2 ∷ 4 ∷ [] }) ∷ (4, test_step) ∷ []

own_entry :
    (s : Step)
    → get_step 4 two_steps ≡ some s
    → s.dependency_step_ids ≡ test_step.dependency_step_ids
unfolding ℕ_discrete
own_entry s h = let same : test_step ≡ s = some-injective h in rw (← same) refl

step_depends_on-iff_Reaches_example :
    (answer : Bool) × (explore test_step 2 two_steps ≡ some answer)
    × (step_depends_on test_step 2 two_steps ≡ answer)
    × ((answer ≡ true)
        ↔ ((id : ObjectId) × Memᴰ id test_step.dependency_step_ids × Reaches two_steps 2 id))
step_depends_on-iff_Reaches_example = step_depends_on-iff_Reaches test_step 2 two_steps own_entry
