-- ===== src/Domain/Tickets/Records/Bindings.antt =====
-- src/domain/tickets/ticket.ts: the places where a Ticket was worked on.
use toaa.Base.{
  true, List, [], ◌∷◌, ◌++◌, some, String-discrete, ◌≡◌, refl, sym, append-nil, inl, inr, ==_iff,
  same_iff, same_option_iff, Bool-cases, last?,
}
use toaa.Domain.Objects.{Timestamp}
use toaa.Domain.Tickets.Types.{TicketWorkspaceBinding}
use toaa.Domain.Tickets.Ticket.{Ticket}
use toaa.Domain.Tickets.Records.{
  WorkspaceKind-discrete, same_workspace_binding, is_bound, bind_ticket_workspace,
}

same_workspace_binding_refl : (b : TicketWorkspaceBinding) → same_workspace_binding b b ≡ true
unfolding same_workspace_binding
same_workspace_binding_refl b =
    rw
      (
        (same_iff WorkspaceKind-discrete b.kind b.kind).1 refl,
        (same_iff String-discrete b.relative_path b.relative_path).1 refl,
        (same_iff String-discrete b.branch b.branch).1 refl,
        (==_iff b.revision b.revision).1 refl,
        (same_option_iff b.workspace_id b.workspace_id).1 refl,
        (same_option_iff b.change_set_id b.change_set_id).1 refl,
        (same_option_iff b.merge_gate_run_id b.merge_gate_run_id).1 refl,
      )
      refl

-- The history of a Ticket ends with the place where it is.
abbrev pub IsCurrent : Ticket → Type 0
IsCurrent t = last? t.workspace_binding_history ≡ t.workspace_binding

last?-snoc :
    (xs : List TicketWorkspaceBinding) (b : TicketWorkspaceBinding) → last? (xs ++ b ∷ []) ≡ some b
last?-snoc [] b = refl
last?-snoc (x ∷ []) b = refl
last?-snoc (x ∷ y ∷ ys) b = last?-snoc (y ∷ ys) b

-- Binding a Ticket keeps the rule that its history ends with the place where it is, loses nothing of
-- the history, and binding it to the same place again changes nothing, whatever the time.
pub bind_ticket_workspace-IsCurrent :
    (t : Ticket) (b : TicketWorkspaceBinding) (now later : Timestamp)
    → IsCurrent t
    → let t' = bind_ticket_workspace t b now in
      IsCurrent t'
      × ((rest : List TicketWorkspaceBinding) × (t'.workspace_binding_history
            ≡ t.workspace_binding_history ++ rest))
      × (bind_ticket_workspace t' b later ≡ t')
unfolding bind_ticket_workspace is_bound
bind_ticket_workspace-IsCurrent t b now later current =
    elim (Bool-cases (is_bound t.workspace_binding b)) [
      | inl e ↦
          rw (bind_ticket_workspace, e)
            (
              current,
              ([], sym (append-nil t.workspace_binding_history)),
              rw (bind_ticket_workspace, e) refl,
            )
      | inr e ↦
          rw (bind_ticket_workspace, e)
            (
              last?-snoc t.workspace_binding_history b,
              (b ∷ [], refl),
              rw (bind_ticket_workspace, is_bound, same_workspace_binding_refl b) refl,
            )
    ]
