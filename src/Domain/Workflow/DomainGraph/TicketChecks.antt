-- ===== src/Domain/Workflow/DomainGraph/TicketChecks.antt =====
-- src/domain/workflow/domain_graph.ts: the loop over the Tickets.
use toaa.Base.{
  Bool, true, false, not, ◌&&◌, ◌||◌, List, [], Option, none, some, is_some, ◌≡◌, refl, sym, inl,
  inr, ◌↔◌, ◌==◌, Memᴰ, Bool-cases, some-injective,
}
use toaa.Domain.Objects.{ObjectId}
use toaa.Domain.Tickets.Ticket.{Ticket, ticket_type}
use toaa.Domain.Workflow.Issues.{
  missing_reference, invalid_ticket_hierarchy, append-append_iff, issue_if_iff,
}
use toaa.Domain.Workflow.Dependencies.{by_id}
use toaa.Domain.Workflow.DomainGraph.{
  ticket_id, is_epic, is_story, is_task, parent_of, task_depth, is_too_deep, is_root_epic,
  child_issues, ticket_issues,
}
use toaa.Domain.Workflow.DomainGraph.TaskDepth.{HoldsTask, task_check_iff}
use toaa.Domain.Workflow.DomainGraph.WellFormed.{TicketFits}
use toaa.Domain.Workflow.DomainGraph.Checks.{iff_trans, not_iff, or_iff, own_iff}

implies_iff : (a b : Bool) → ((a && not b) ≡ false) ↔ (a ≡ true → b ≡ true)
implies_iff true true = (λ h e. refl, λ h. refl)
implies_iff true false = (λ h e. absurd (cc), λ h. let k = h refl in cc)
implies_iff false b = (λ h e. absurd (cc), λ h. refl)

guarded_iff :
    {P : Type 0} (a b : Bool) → (a ≡ true → (b ≡ false) ↔ P) → ((a && b) ≡ false) ↔ (a ≡ true → P)
guarded_iff true b f = let g = f refl in (λ h e. g.0 h, λ h. g.1 (h refl))
guarded_iff false b f = (λ h e. absurd (cc), λ h. refl)

root_iff :
    (o : Option Ticket)
    → (not (is_root_epic o) ≡ false)
      ↔ ((root : Ticket) × (o ≡ some root) × (is_epic (ticket_type root) ≡ true))
root_iff none = (λ h. absurd (cc), λ (t, h, _). absurd (cc))
root_iff (some t) = (
  λ h. (t, refl, (not_iff _).0 h),
  λ (r, h, e). (not_iff _).1 (let it : t ≡ r = some-injective h in rw it e),
)

child_iff :
    (tickets : List Ticket) (t : Ticket) (o : Option Ticket)
    → parent_of tickets t.parent_ticket_id ≡ o
    → ((x : Ticket) → Memᴰ x tickets → by_id ticket_id tickets x.id ≡ some x)
    → Memᴰ t tickets
    → (child_issues tickets t o ≡ []) ↔ (
        (p : Ticket) × (o ≡ some p)
        × (is_story (ticket_type t) ≡ true → is_epic (ticket_type p) ≡ true)
        × (is_task (ticket_type t) ≡ true → HoldsTask tickets p)
        × ((root : Ticket) × (by_id ticket_id tickets t.root_ticket_id ≡ some root)
            × (is_epic (ticket_type root) ≡ true)))
unfolding child_issues
child_iff tickets t none e named i = (λ h. absurd (cc), λ (p, h, _, _, _). absurd (cc))
child_iff tickets t (some p) e named i =
    let parts =
      append-append_iff _ _ _
        (issue_if_iff (is_story (ticket_type t) && not (is_epic (ticket_type p)))
          invalid_ticket_hierarchy t.id
          (implies_iff (is_story (ticket_type t)) (is_epic (ticket_type p))))
        (issue_if_iff
          (is_task (ticket_type t)
            && (not (is_story (ticket_type p)) && not (is_task (ticket_type p))
                || is_too_deep (task_depth tickets t)))
          invalid_ticket_hierarchy t.id
          (guarded_iff (is_task (ticket_type t)) _ (λ k. task_check_iff tickets t p i named k e)))
        (issue_if_iff (not (is_root_epic (by_id ticket_id tickets t.root_ticket_id)))
          missing_reference t.id (root_iff (by_id ticket_id tickets t.root_ticket_id))) in
    (
      λ h. let (a, b, c) = parts.0 h in (p, refl, a, b, c),
      λ (q, h, a, b, c).
          let it : q ≡ p = some-injective (sym h) in parts.1 (rw (← it) a, rw (← it) b, c),
    )

no_parent_iff : (o : Option ObjectId) → (is_some o ≡ false) ↔ (o ≡ none)
no_parent_iff none = (λ h. refl, λ h. refl)
no_parent_iff (some id) = (λ h. absurd (cc), λ h. absurd (cc))

pub ticket_iff :
    (tickets : List Ticket) (t : Ticket)
    → ((x : Ticket) → Memᴰ x tickets → by_id ticket_id tickets x.id ≡ some x)
    → Memᴰ t tickets
    → (ticket_issues tickets t ≡ []) ↔ TicketFits tickets t
unfolding ticket_issues
ticket_iff tickets t named i = elim (Bool-cases (is_epic (ticket_type t))) [
  | inl e ↦
      let whole =
        issue_if_iff (is_some t.parent_ticket_id || not (t.root_ticket_id == t.id))
          invalid_ticket_hierarchy t.id
          (iff_trans (or_iff (is_some t.parent_ticket_id) (not (t.root_ticket_id == t.id))) (
            λ (a, b). ((no_parent_iff t.parent_ticket_id).0 a, (own_iff t.root_ticket_id t.id).0 b),
            λ (a, b). ((no_parent_iff t.parent_ticket_id).1 a, (own_iff t.root_ticket_id t.id).1 b),
          )) in
      rw (ticket_issues, e) (λ h. (λ k. whole.0 h, λ k. absurd (cc)), λ (h, _). whole.1 (h refl))
  | inr e ↦
      let whole = child_iff tickets t (parent_of tickets t.parent_ticket_id) refl named i in
      rw (ticket_issues, e) (λ h. (λ k. absurd (cc), λ k. whole.0 h), λ (_, h). whole.1 (h refl))
]
