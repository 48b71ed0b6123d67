-- ===== src/Application/WorkScheduler/Priority.antt =====
-- src/application/project_management/work_scheduler.ts: which corrective Ticket goes first.
use toaa.Base.{
  true, false, List, some, ◌≡◌, refl, ◌⊎◌, inl, inr, ◌≤◌, ◌<◌, arith, Memᴰ, Memᴰ-keep, find-sort,
  keep, keep-Memᴰ, find-Memᴰ, sort-Memᴰ,
}
use toaa.Domain.Tickets.Types.{TicketType}
use toaa.Domain.Tickets.Ticket.{Ticket, ticket_type, work_step_id}
use toaa.Domain.Steps.{Step}
use toaa.Application.WorkScheduler.Selection.{
  correction_rank, precedes, is_candidate, active_corrective_tickets, ticket_dependencies_ready,
  ready_corrective_ticket,
}
use toaa.Application.WorkScheduler.Ready.{candidate-parts}
use toaa.Application.WorkScheduler.Corrections.{
  Outranks, change_before_bug, change_before_enhancement, bug_before_enhancement, Corrective,
  of_bug, of_enhancement, of_change_request, repairs-Corrective, IsCorrection,
  IsCorrection-is_candidate,
}

-- One Ticket does not come after another: its type goes first, or the types are the same and its
-- priority is higher, or both are the same and its id is not younger.
abbrev pub NotAfter : Ticket → Ticket → Type 0
NotAfter t u =
    Outranks (ticket_type t) (ticket_type u)
    ⊎ ((ticket_type t ≡ ticket_type u)
        × ((u.priority < t.priority) ⊎ ((u.priority ≡ t.priority) × (t.id ≤ u.id))))

-- The same by the rank.
abbrev ByRank : TicketType → TicketType → Type 0 → Type 0
ByRank a b P =
    (correction_rank b < correction_rank a) ⊎ ((correction_rank b ≡ correction_rank a) × P)

rank-Outranks :
    {a b : TicketType} {P : Type 0}
    → Corrective a
    → Corrective b
    → ByRank a b P
    → Outranks a b ⊎ ((a ≡ b) × P)
unfolding correction_rank
rank-Outranks of_change_request of_change_request (inl l) = absurd (ground arith)
rank-Outranks of_change_request of_change_request (inr (e, p)) = inr (refl, p)
rank-Outranks of_change_request of_bug h = inl change_before_bug
rank-Outranks of_change_request of_enhancement h = inl change_before_enhancement
rank-Outranks of_bug of_change_request (inl l) = absurd (ground arith)
rank-Outranks of_bug of_change_request (inr (e, p)) = absurd (ground arith)
rank-Outranks of_bug of_bug (inl l) = absurd (ground arith)
rank-Outranks of_bug of_bug (inr (e, p)) = inr (refl, p)
rank-Outranks of_bug of_enhancement h = inl bug_before_enhancement
rank-Outranks of_enhancement of_change_request (inl l) = absurd (ground arith)
rank-Outranks of_enhancement of_change_request (inr (e, p)) = absurd (ground arith)
rank-Outranks of_enhancement of_bug (inl l) = absurd (ground arith)
rank-Outranks of_enhancement of_bug (inr (e, p)) = absurd (ground arith)
rank-Outranks of_enhancement of_enhancement (inl l) = absurd (ground arith)
rank-Outranks of_enhancement of_enhancement (inr (e, p)) = inr (refl, p)

precedes-asym : (x y : Ticket) → precedes x y ≡ true → precedes y x ≡ false
unfolding precedes
precedes-asym x y h = ground arith

precedes-after :
    (x y z : Ticket) → precedes y x ≡ false → precedes z y ≡ false → precedes z x ≡ false
unfolding precedes
precedes-after x y z h k = ground arith

precedes-ByRank :
    (t u : Ticket)
    → precedes u t ≡ false
    → ByRank
        (ticket_type t)
        (ticket_type u)
        ((u.priority < t.priority) ⊎ ((u.priority ≡ t.priority) × (t.id ≤ u.id)))
unfolding precedes
precedes-ByRank t u h = ground arith

candidate-Corrective :
    (step : Step) (t : Ticket) → is_candidate step t ≡ true → Corrective (ticket_type t)
candidate-Corrective step t h =
    repairs-Corrective step.id t.detail (work_step_id t) (candidate-parts step t h).2

chosen-is_candidate :
    (step : Step) (tickets : List Ticket) {t : Ticket}
    → ready_corrective_ticket step tickets ≡ some t
    → is_candidate step t ≡ true
unfolding ready_corrective_ticket active_corrective_tickets
chosen-is_candidate step tickets h =
    let (i, _) = find-Memᴰ (ticket_dependencies_ready tickets) _ h in
    let (_, candidate) = keep-Memᴰ (is_candidate step) tickets (sort-Memᴰ precedes _ i) in candidate

-- The corrective Ticket that a Step gets does not come after any other open correction of the Step
-- whose dependencies are done: change requests before bugs before enhancements, then the higher
-- priority, then the older id.
pub ready_corrective_ticket-NotAfter :
    (step : Step) (tickets : List Ticket) (u : Ticket) {t : Ticket}
    → ready_corrective_ticket step tickets ≡ some t
    → Memᴰ u tickets
    → IsCorrection step u
    → ticket_dependencies_ready tickets u ≡ true
    → NotAfter t u
unfolding ready_corrective_ticket active_corrective_tickets
ready_corrective_ticket-NotAfter step tickets u {t} h i correction ready =
    let candidate = IsCorrection-is_candidate step u correction in
    let least =
      find-sort precedes precedes-asym precedes-after (ticket_dependencies_ready tickets)
        (keep (is_candidate step) tickets) h (Memᴰ-keep (is_candidate step) tickets i candidate)
        ready in
    rank-Outranks (candidate-Corrective step t (chosen-is_candidate step tickets h))
      (candidate-Corrective step u candidate) (precedes-ByRank t u least)
