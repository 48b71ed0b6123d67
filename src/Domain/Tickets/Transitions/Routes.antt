-- ===== src/Domain/Tickets/Transitions/Routes.antt =====
-- The life cycle of a Ticket as a diagram, and the transition function as its interpreter.
use toaa.Base.{
  true, false, List, [], ◌∷◌, Option, ok, is_some, ◌≡◌, ◌≢◌, refl, ◌⊎◌, inl, inr, ◌↔◌, arith, subst,
  >>=-eq-ok,
}
use toaa.Domain.Roles.{PendingReason}
use toaa.Domain.Tickets.Types.{
  TicketState, created, in_progress, pending, resolved, reopened, cancelled, closed,
}
use toaa.Domain.Tickets.Ticket.{Ticket, ticket_type, is_corrective_ticket}
use toaa.Domain.StateMachine.{includes}
use toaa.Domain.StateMachine.Laws.{assert-cases, assert-same, assert-declared}
use toaa.Domain.Tickets.Transitions.{
  TicketState-discrete, ticket_transitions, check_entry, enter, walk,
}

-- The moves of the life cycle.
pub data Edge : TicketState → TicketState → Type 0 where
  start : Edge created in_progress
  park_new : Edge created pending
  drop_new : Edge created cancelled
  park : Edge in_progress pending
  resolve : Edge in_progress resolved
  drop : Edge in_progress cancelled
  resume : Edge pending in_progress
  drop_parked : Edge pending cancelled
  close : Edge resolved closed
  reopen : Edge resolved reopened
  restart : Edge reopened in_progress
  drop_reopened : Edge reopened cancelled
  revive : Edge cancelled reopened
  archive : Edge cancelled closed

-- What a Ticket needs to enter a state.
abbrev pub MayEnter : Ticket → Option PendingReason → TicketState → Type 0
MayEnter t reason pending = is_some reason ≡ true
MayEnter t reason resolved =
    (is_corrective_ticket (ticket_type t) ≡ false) ⊎ (is_some t.solution ≡ true)
MayEnter t reason in_progress = is_some t.active_assignment_id ≡ true
MayEnter t reason _ = Unit

-- A path through the diagram. A state that is named twice in a row is passed over.
pub data Route (t : Ticket) (reason : Option PendingReason)
    : TicketState → List TicketState → TicketState → Type 0 where
  here : {s : TicketState} → Route t reason s [] s
  stay :
      {s n u : TicketState} {path : List TicketState}
      → s ≡ n
      → Route t reason s path u
      → Route t reason s (n ∷ path) u
  move :
      {s n u : TicketState} {path : List TicketState}
      → Edge s n
      → MayEnter t reason n
      → Route t reason n path u
      → Route t reason s (n ∷ path) u

check_entry-MayEnter :
    (t : Ticket) (reason : Option PendingReason) (n : TicketState)
    → check_entry t reason n ≡ ok tt
    → MayEnter t reason n
unfolding check_entry
check_entry-MayEnter t reason pending h = ground arith
check_entry-MayEnter t reason resolved h = ground arith
check_entry-MayEnter t reason in_progress h = ground arith
check_entry-MayEnter t reason _ h = tt

MayEnter-check_entry :
    (t : Ticket) (reason : Option PendingReason) (n : TicketState)
    → MayEnter t reason n
    → check_entry t reason n ≡ ok tt
unfolding check_entry
MayEnter-check_entry t reason pending h = ground arith
MayEnter-check_entry t reason resolved h = ground arith
MayEnter-check_entry t reason in_progress h = ground arith
MayEnter-check_entry t reason _ h = refl

declared-Edge :
    (s n : TicketState) → includes TicketState-discrete (ticket_transitions s) n ≡ true → Edge s n
unfolding ticket_transitions TicketState-discrete
declared-Edge created in_progress h = start
declared-Edge created pending h = park_new
declared-Edge created cancelled h = drop_new
declared-Edge in_progress pending h = park
declared-Edge in_progress resolved h = resolve
declared-Edge in_progress cancelled h = drop
declared-Edge pending in_progress h = resume
declared-Edge pending cancelled h = drop_parked
declared-Edge resolved closed h = close
declared-Edge resolved reopened h = reopen
declared-Edge reopened in_progress h = restart
declared-Edge reopened cancelled h = drop_reopened
declared-Edge cancelled reopened h = revive
declared-Edge cancelled closed h = archive
declared-Edge _ _ h = cc

Edge-declared :
    {s n : TicketState}
    → Edge s n
    → (s ≢ n) × (includes TicketState-discrete (ticket_transitions s) n ≡ true)
unfolding ticket_transitions TicketState-discrete
Edge-declared start = (λ e. cc, refl)
Edge-declared _ = (λ e. cc, refl)

-- One round either stays where it is or follows an edge into a state that may be entered.
pub enter-cases :
    (t : Ticket) (reason : Option PendingReason) (s n : TicketState) {c : TicketState}
    → enter t reason s n ≡ ok c
    → ((s ≡ n) × (c ≡ s)) ⊎ (Edge s n × MayEnter t reason n × (c ≡ n))
unfolding enter
enter-cases t reason s n h =
    let (b, asserted, rest) = >>=-eq-ok _ _ h in
    elim (assert-cases TicketState-discrete ticket_transitions _ s n asserted) [
      | inl (e, stays) ↦ inl (e, ground arith)
      | inr (_, declared, moves) ↦
          inr (
            declared-Edge s n declared,
            check_entry-MayEnter t reason n (ground arith),
            ground arith,
          )
    ]

walk-Route :
    (t : Ticket) (reason : Option PendingReason) (s : TicketState) (path : List TicketState)
    {u : TicketState}
    → walk t reason s path ≡ ok u
    → Route t reason s path u
unfolding walk
walk-Route t reason s [] {u} h = let e : s ≡ u = cc in subst (Route t reason s []) e here
walk-Route t reason s (n ∷ path) {u} h =
    let (c, entered, rest) = >>=-eq-ok (enter t reason s n) _ h in
    elim (enter-cases t reason s n entered) [
      | inl (e, same) ↦ stay e (walk-Route t reason s path (rw same at rest))
      | inr (edge, may, moved) ↦ move edge may (walk-Route t reason n path (rw moved at rest))
    ]

Route-walk :
    {t : Ticket} {reason : Option PendingReason} {s u : TicketState} {path : List TicketState}
    → Route t reason s path u
    → walk t reason s path ≡ ok u
unfolding walk enter
Route-walk here = refl
Route-walk {t} {reason} (stay {s = s} {n = n} {path = path} e r) =
    rw (← e, assert-same TicketState-discrete ticket_transitions _ s) (Route-walk r)
Route-walk {t} {reason} (move {s = s} {n = n} edge may r) =
    let (ne, declared) = Edge-declared edge in
    rw
      (
        assert-declared TicketState-discrete ticket_transitions _ s n ne declared,
        MayEnter-check_entry t reason n may,
      )
      (Route-walk r)

-- The loop of `transitionTicketPath` accepts a path exactly when it is a route through the life
-- cycle whose every entered state may be entered, and then it ends where the route ends.
pub walk-iff_Route :
    (t : Ticket) (reason : Option PendingReason) (s : TicketState) (path : List TicketState)
    (u : TicketState)
    → (walk t reason s path ≡ ok u) ↔ Route t reason s path u
walk-iff_Route t reason s path u = (walk-Route t reason s path, Route-walk)
