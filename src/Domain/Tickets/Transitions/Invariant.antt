-- ===== src/Domain/Tickets/Transitions/Invariant.antt =====
-- src/domain/tickets/ticket.ts: what every transition keeps, and what no path can do.
use toaa.Base.{
  true, List, [], ◌∷◌, Option, none, ok, ◌≡◌, ◌≢◌, refl, sym, ◌⊎◌, inl, inr, ◌+◌, arith, subst, ◌∙◌,
  >>=-eq-ok, if◌then◌else◌, Result,
}
use toaa.Domain.StateMachine.{includes}
use toaa.Domain.Objects.{Timestamp}
use toaa.Domain.Roles.{PendingReason}
use toaa.Domain.Tickets.Types.{TicketState, in_progress, pending, resolved, cancelled, closed}
use toaa.Domain.Tickets.Ticket.{Ticket, ticket_type, is_corrective_ticket}
use toaa.Domain.Tickets.Transitions.{
  TicketState-discrete, walk, same_state, arrive, transition_ticket_path,
}
use toaa.Domain.Tickets.Transitions.Routes.{Edge, MayEnter, Route, here, stay, move, walk-iff_Route}

-- The state of a Ticket is one that it may be in, and only a pending Ticket has a reason to wait.
abbrev pub IsConsistent : Ticket → Type 0
IsConsistent t = MayEnter t t.pending_reason t.state × (t.state ≢ pending → t.pending_reason ≡ none)

pub finish-cases :
    {E A : Type 0} (u s : TicketState) (x y : A) {z : A}
    → ◌≡◌ {A = Result E A} (ok (if same_state u s then x else y)) (ok z)
    → ((u ≡ s) × (z ≡ x)) ⊎ ((u ≢ s) × (z ≡ y))
finish-cases u s x y h = elim (TicketState-discrete u s) [
  | yes e ↦ inl (e, ground arith)
  | no ne ↦ inr (ne, ground arith)
]

-- What a successful transition does: nothing, or one arrival at the end of a route.
pub transition-cases :
    (t : Ticket) (path : List TicketState) (reason : Option PendingReason) (now : Timestamp)
    {t' : Ticket}
    → transition_ticket_path t path reason now ≡ ok t'
    → (t' ≡ t)
      ⊎ ((u : TicketState) × (u ≢ t.state)
          × Route t reason t.state path u
          × (t' ≡ arrive t path u reason now))
unfolding transition_ticket_path
transition-cases t [] reason now h = inl (ground arith)
transition-cases t (n ∷ path) reason now h =
    let (u, walked, rest) = >>=-eq-ok (walk t reason t.state (n ∷ path)) _ h in
    elim (finish-cases u t.state t (arrive t (n ∷ path) u reason now) rest) [
      | inl (_, e) ↦ inl e
      | inr (ne, e) ↦ inr (u, ne, (walk-iff_Route t reason t.state (n ∷ path) u).0 walked, e)
    ]

Route-MayEnter :
    {t : Ticket} {reason : Option PendingReason} {s u : TicketState} {path : List TicketState}
    → Route t reason s path u
    → u ≢ s
    → MayEnter t reason u
Route-MayEnter here ne = absurd (ne refl)
Route-MayEnter (stay e r) ne = Route-MayEnter r ne
Route-MayEnter {t} {reason} {u = u} (move {n = n} edge may r) ne = elim (TicketState-discrete u n) [
  | yes e ↦ subst (MayEnter t reason) (sym e) may
  | no other ↦ Route-MayEnter r other
]

arrive-IsConsistent :
    (t : Ticket) (path : List TicketState) (u : TicketState) (reason : Option PendingReason)
    (now : Timestamp)
    → MayEnter t reason u
    → IsConsistent (arrive t path u reason now)
unfolding arrive
arrive-IsConsistent t path pending reason now may = (may, λ ne. absurd (ne refl))
arrive-IsConsistent t path in_progress reason now may = (may, λ _. refl)
arrive-IsConsistent t path resolved reason now may = (may, λ _. refl)
arrive-IsConsistent t path _ reason now may = (tt, λ _. refl)

-- A transition that succeeds leads from a consistent Ticket to a consistent one: pending work has
-- a reason and no other work has one, work in progress has an assignment, and a resolved
-- corrective Ticket has a solution.
pub transition-IsConsistent :
    (t : Ticket) (path : List TicketState) (reason : Option PendingReason) (now : Timestamp)
    {t' : Ticket}
    → IsConsistent t
    → transition_ticket_path t path reason now ≡ ok t'
    → IsConsistent t'
transition-IsConsistent t path reason now c h = elim (transition-cases t path reason now h) [
  | inl e ↦ subst IsConsistent (sym e) c
  | inr (u, ne, route, e) ↦
      subst IsConsistent (sym e) (arrive-IsConsistent t path u reason now (Route-MayEnter route ne))
]

-- However long the path, a transition is one write: it advances the revision by one and keeps the
-- id, the project and the creation time, or the state stays and nothing at all changes.
pub transition-one_revision :
    (t : Ticket) (path : List TicketState) (reason : Option PendingReason) (now : Timestamp)
    {t' : Ticket}
    → transition_ticket_path t path reason now ≡ ok t'
    → (t' ≡ t)
      ⊎ ((t'.state ≢ t.state)
          × (t'.revision ≡ t.revision + 1)
          × (t'.id ≡ t.id)
          × (t'.project_id ≡ t.project_id)
          × (t'.envelope.created_at ≡ t.envelope.created_at))
unfolding arrive
transition-one_revision t path reason now h = elim (transition-cases t path reason now h) [
  | inl e ↦ inl e
  | inr (u, ne, _, e) ↦ inr (rw e ne, rw e refl, rw e refl, rw e refl, rw e refl)
]

Route-closed :
    {t : Ticket} {reason : Option PendingReason} {s u : TicketState} {path : List TicketState}
    → Route t reason s path u
    → s ≡ closed
    → u ≡ closed
Route-closed here e = e
Route-closed (stay _ r) e = Route-closed r e
Route-closed (move {n = n} edge _ r) e = absurd (edge-not_closed edge e)
  where
    edge-not_closed : {s n : TicketState} → Edge s n → s ≢ closed
    edge-not_closed Edge.start = λ e. cc
    edge-not_closed _ = λ e. cc

-- A closed Ticket is immutable: whatever path is asked for, a transition that succeeds returns the
-- Ticket unchanged.
pub transition-closed :
    (t : Ticket) (path : List TicketState) (reason : Option PendingReason) (now : Timestamp)
    {t' : Ticket}
    → t.state ≡ closed
    → transition_ticket_path t path reason now ≡ ok t'
    → t' ≡ t
transition-closed t path reason now c h = elim (transition-cases t path reason now h) [
  | inl e ↦ e
  | inr (u, ne, route, _) ↦ absurd (ne (Route-closed route c ∙ sym c))
]

Edge-into_closed : {s n : TicketState} → Edge s n → n ≡ closed → (s ≡ cancelled) ⊎ (s ≡ resolved)
Edge-into_closed Edge.close e = inr refl
Edge-into_closed Edge.archive e = inl refl
Edge-into_closed _ e = absurd (ground arith)

includes-cons :
    (n s : TicketState) (path : List TicketState)
    → includes TicketState-discrete path s ≡ true
    → includes TicketState-discrete (n ∷ path) s ≡ true
includes-cons n s path h = ground arith

includes-head :
    (n s : TicketState) (path : List TicketState)
    → n ≡ s
    → includes TicketState-discrete (n ∷ path) s ≡ true
includes-head n s path e = ground arith

Route-into_closed :
    {t : Ticket} {reason : Option PendingReason} {s u : TicketState} {path : List TicketState}
    → Route t reason s path u
    → u ≡ closed
    → s ≢ closed
    → (s ≡ cancelled)
      ⊎ (s ≡ resolved)
      ⊎ (includes TicketState-discrete path cancelled ≡ true)
      ⊎ MayEnter t reason resolved
Route-into_closed here e ne = absurd (ne e)
Route-into_closed (stay {n = n} {path = path} _ r) e ne = elim (Route-into_closed r e ne) [
  | inl c ↦ inl c
  | inr (inl c) ↦ inr (inl c)
  | inr (inr (inl c)) ↦ inr (inr (inl (includes-cons n cancelled path c)))
  | inr (inr (inr may)) ↦ inr (inr (inr may))
]
Route-into_closed {t} {reason} (move {n = n} {path = path} edge may r) e ne =
    elim (TicketState-discrete n closed) [
      | yes c ↦ elim (Edge-into_closed edge c) [ inl d ↦ inl d | inr d ↦ inr (inl d) ]
      | no open_state ↦ elim (Route-into_closed r e open_state) [
        | inl c ↦ inr (inr (inl (includes-head n cancelled path c)))
        | inr (inl c) ↦ inr (inr (inr (subst (MayEnter t reason) c may)))
        | inr (inr (inl c)) ↦ inr (inr (inl (includes-cons n cancelled path c)))
        | inr (inr (inr m)) ↦ inr (inr (inr m))
      ]
    ]

-- A corrective Ticket with no solution cannot close as done: a transition that takes it from an
-- open state other than resolved to closed goes through cancelled on its path.
pub transition-closed_unsolved :
    (t : Ticket) (path : List TicketState) (reason : Option PendingReason) (now : Timestamp)
    {t' : Ticket}
    → is_corrective_ticket (ticket_type t) ≡ true
    → t.solution ≡ none
    → t.state ≢ closed
    → t.state ≢ cancelled
    → t.state ≢ resolved
    → transition_ticket_path t path reason now ≡ ok t'
    → t'.state ≡ closed
    → includes TicketState-discrete path cancelled ≡ true
unfolding arrive
transition-closed_unsolved t path reason now corrective unsolved nc nx nr h ends =
    elim (transition-cases t path reason now h) [
      | inl e ↦ absurd (nc (rw e at ends))
      | inr (u, ne, route, e) ↦ elim (Route-into_closed route (rw e at ends) nc) [
        | inl c ↦ absurd (nx c)
        | inr (inl c) ↦ absurd (nr c)
        | inr (inr (inl c)) ↦ c
        | inr (inr (inr (inl plain))) ↦ absurd (ground arith)
        | inr (inr (inr (inr solved))) ↦ absurd (ground arith)
      ]
    ]
