-- ===== src/Domain/Tickets/Transitions/Single.antt =====
-- src/domain/tickets/ticket.ts, transitionTicketPath on a path of one state.
use toaa.Base.{[], ◌∷◌, Option, ok, inl, inr, ◌≡◌, refl, sym, ◌∙◌, subst, >>=-eq-ok}
use toaa.Domain.Objects.{Timestamp, revise_object_envelope}
use toaa.Domain.Roles.{PendingReason}
use toaa.Domain.Tickets.Types.{TicketState}
use toaa.Domain.Tickets.Ticket.{Ticket}
use toaa.Domain.Tickets.Transitions.{walk, arrive, transition_ticket_path}
use toaa.Domain.Tickets.Transitions.Routes.{Route, here, stay, move, walk-iff_Route}
use toaa.Domain.Tickets.Transitions.Invariant.{finish-cases}

Route-single :
    {t : Ticket} {reason : Option PendingReason} {s n u : TicketState}
    → Route t reason s (n ∷ []) u
    → u ≡ n
Route-single (stay e here) = e
Route-single (move edge may here) = refl

-- What a Ticket is after a move to one state.
pub record Entered (t : Ticket) (next : TicketState) (t' : Ticket) : Type 0 where
  pub state : t'.state ≡ next
  pub same_id : t'.id ≡ t.id
  pub same_blockers : t'.blocked_by_ticket_ids ≡ t.blocked_by_ticket_ids

pub transition_ticket_path-Entered :
    (t : Ticket) (n : TicketState) (reason : Option PendingReason) (now : Timestamp) {t' : Ticket}
    → transition_ticket_path t (n ∷ []) reason now ≡ ok t'
    → Entered t n t'
unfolding transition_ticket_path arrive revise_object_envelope
transition_ticket_path-Entered t n reason now {t'} h =
    let (u, walked, rest) = >>=-eq-ok (walk t reason t.state (n ∷ [])) _ h in
    let is_n = Route-single ((walk-iff_Route t reason t.state (n ∷ []) u).0 walked) in
    elim (finish-cases u t.state t (arrive t (n ∷ []) u reason now) rest) [
      | inl (same, e) ↦
          subst (Entered t n) (sym e)
            (record { state = sym same ∙ is_n; same_id = refl; same_blockers = refl })
      | inr (other, e) ↦
          subst (Entered t n) (sym e)
            (record { state = is_n; same_id = refl; same_blockers = refl })
    ]
