-- ===== src/Domain/Tickets/Records.antt =====
-- src/domain/tickets/ticket.ts: what is recorded on a Ticket beside its state: where it is worked
-- on, the commits made for it, and the duplicates of a Bug.
pub mod Rollback
pub mod Bindings
pub mod Duplicates
use toaa.Base.{
  ℕ, Bool, true, false, not, ◌&&◌, List, [], ◌∷◌, ◌++◌, Option, none, some, String, String-discrete,
  Result, ok, ◌>>◌, require, ◌==◌, same, same_option, or_option, any, find, reverse, if◌then◌else◌,
}
use toaa.Domain.Objects.{ObjectId, Timestamp, Digest, revise_object_envelope}
use toaa.Domain.Tickets.Types.{
  WorkspaceKind, TicketWorkspaceBinding, TicketCommit, TicketCommitKind, baseline, attempt,
  verified, FailureIdentity,
}
use toaa.Domain.Tickets.Ticket.{Ticket, BugDetail}

unfoldable pub WorkspaceKind-discrete : Discrete WorkspaceKind
WorkspaceKind-discrete = hlevel

-- `sameWorkspaceBinding`: all but the reason and the time.
unfoldable pub same_workspace_binding : TicketWorkspaceBinding → TicketWorkspaceBinding → Bool
unfolding WorkspaceKind-discrete
same_workspace_binding a b =
    same WorkspaceKind-discrete a.kind b.kind
    && same String-discrete a.relative_path b.relative_path
    && same String-discrete a.branch b.branch
    && a.revision == b.revision
    && same_option a.workspace_id b.workspace_id
    && same_option a.change_set_id b.change_set_id
    && same_option a.merge_gate_run_id b.merge_gate_run_id

-- `ticket.workspaceBinding && sameWorkspaceBinding(ticket.workspaceBinding, parsed)`
unfoldable pub is_bound : Option TicketWorkspaceBinding → TicketWorkspaceBinding → Bool
is_bound none binding = false
is_bound (some current) binding = same_workspace_binding current binding

-- `bindTicketWorkspace`
unfoldable pub bind_ticket_workspace : Ticket → TicketWorkspaceBinding → Timestamp → Ticket
bind_ticket_workspace t binding now = if is_bound t.workspace_binding binding then t else record t {
  envelope = revise_object_envelope t.envelope none now;
  workspace_binding = some binding;
  workspace_binding_history = t.workspace_binding_history ++ binding ∷ [];
}

abbrev pub is_baseline : TicketCommitKind → Bool
is_baseline baseline = true
is_baseline _ = false

abbrev pub is_verified : TicketCommitKind → Bool
is_verified verified = true
is_verified _ = false

-- `appendTicketCommit`
unfoldable pub append_ticket_commit : Ticket → TicketCommit → Ticket
append_ticket_commit t commit = record t {
  baseline_revision =
      or_option t.baseline_revision
        (if is_baseline commit.kind then some commit.revision else none);
  commits = t.commits ++ commit ∷ [];
}

abbrev pub revision_of : Option TicketCommit → Option ℕ
revision_of none = none
revision_of (some commit) = some commit.revision

-- The test of `attemptBaselineRevision`.
abbrev pub starts_attempt : ℕ → TicketCommit → Bool
starts_attempt number commit = is_baseline commit.kind && commit.attempt == number

-- `attemptBaselineRevision`
unfoldable pub attempt_baseline_revision : Ticket → ℕ → Option ℕ
attempt_baseline_revision t number = revision_of (find (starts_attempt number) (reverse t.commits))

-- `lastVerifiedRevision`
unfoldable pub last_verified_revision : Ticket → Option ℕ
last_verified_revision t =
    revision_of (find (λ commit. is_verified commit.kind) (reverse t.commits))

-- `BugTicket`: a Ticket with the detail of a Bug.
pub record BugTicket : Type 0 where
  pub ticket : Ticket
  pub detail : BugDetail

-- What `linkDuplicateBugs` throws.
pub data DuplicateError : Type 0 where
  own_duplicate other_project other_step other_failure : DuplicateError
  follows_another : ObjectId → DuplicateError

-- `Set.add`
abbrev pub add_new : ObjectId → List ObjectId → List ObjectId
add_new id set = if any (λ x. x == id) set then set else set ++ id ∷ []

-- `new Set(ids)`, on a set that is there.
unfoldable pub set_of : List ObjectId → List ObjectId → List ObjectId
set_of set [] = set
set_of set (id ∷ ids) = set_of (add_new id set) ids

-- `!duplicateOfTicketId || duplicateOfTicketId === original.id`
abbrev pub may_follow : ObjectId → Option ObjectId → Bool
may_follow original none = true
may_follow original (some id) = id == original

-- `failureIdentityKey` is the SHA-256 of an identity's canonical text, and a parameter.
module _ (failure_identity_key : FailureIdentity → Digest) where
  -- `linkDuplicateBugs`
  unfoldable pub link_duplicate_bugs :
      BugTicket → BugTicket → Timestamp → Result DuplicateError (BugTicket × BugTicket)
  link_duplicate_bugs original duplicate now = do
    require (not (original.ticket.id == duplicate.ticket.id)) own_duplicate
    require (original.ticket.project_id == duplicate.ticket.project_id) other_project
    require (original.detail.failure.target_step_id == duplicate.detail.failure.target_step_id)
        other_step
    require
        (failure_identity_key original.detail.failure.identity
          == failure_identity_key duplicate.detail.failure.identity)
        other_failure
    require (may_follow original.ticket.id duplicate.ticket.duplicate_of_ticket_id)
        (follows_another duplicate.ticket.id)
    ok (
      record original {
        ticket = record original.ticket {
          envelope = revise_object_envelope original.ticket.envelope none now;
          duplicate_ticket_ids =
              set_of [] (original.ticket.duplicate_ticket_ids ++ duplicate.ticket.id ∷ []);
        };
      },
      record duplicate {
        ticket = record duplicate.ticket { duplicate_of_ticket_id = some original.ticket.id };
      },
    )
