-- ===== src/Application/TicketBlockers/Resumed.antt =====
-- src/application/project_management/ticket_blocker_service.ts, unblock: when a Ticket is taken up again.
use toaa.Base.{
  ℕ, Bool, true, false, ◌&&◌, List, [], ◌∷◌, ok, >>=-eq-ok, ok-injective, Memᴰ, Bool-cases, inl,
  inr, ◌≡◌, refl, ap, arith, String,
}
use toaa.Domain.StateMachine.{includes}
use toaa.Domain.Objects.{ObjectId, Timestamp, Digest}
use toaa.Domain.Tickets.Types.{in_progress}
use toaa.Domain.Tickets.Ticket.{Ticket}
use toaa.Domain.Tickets.Transitions.{TicketState-discrete}
use toaa.Domain.ProjectManagement.Trace.{TraceHashInput}
use toaa.Application.TicketTrace.{Draw}
use toaa.Application.Repository.{PersistedObject, ticket_object, RepositoryPort}
use toaa.Application.TicketLifecycle.{prepare_transition}
use toaa.Application.TicketLifecycle.Owners.{Owned, prepare_transition_path-Owned}
use toaa.Application.TicketBlockers.{pass, resuming, take_up, let_go, unblock}
use toaa.Application.BlockerEdges.{executes, waits, no_ids, without}
use toaa.Application.TicketBlockers.Held.{pass-eq-ok}

no_ids-nil : (ids : List ObjectId) → no_ids ids ≡ true → ids ≡ []
no_ids-nil [] h = refl
no_ids-nil (id ∷ ids) h = absurd (ground arith)

ticket_object-injective : {t u : Ticket} → ticket_object t ≡ ticket_object u → t ≡ u
ticket_object-injective h = cc

module _ (id_text : ObjectId → String) {E : Type 0} (repo : RepositoryPort E)
    (hash : TraceHashInput → Digest) (draw : ℕ → Draw) (event_id : ObjectId) (now : Timestamp) where
  take_up-Owned :
      (blocked : Ticket) (blocker_id : ObjectId) {objects : List PersistedObject}
      → take_up id_text repo hash draw event_id now blocked blocker_id ≡ ok objects
      → Owned repo blocked.id
  unfolding take_up prepare_transition TicketState-discrete includes
  take_up-Owned blocked blocker_id h =
      let input = resuming id_text blocked blocker_id in
      let (p, prepared, e) =
        >>=-eq-ok
          (pass (prepare_transition repo hash draw event_id now blocked.id in_progress input)) _
          h in
      prepare_transition_path-Owned repo hash draw event_id now blocked.id (in_progress ∷ []) input
        (pass-eq-ok _ prepared) refl

  -- What is stored of a Ticket that only loses a blocker is in the state that it was in.
  let_go-state :
      (blocked : Ticket) (blocker_id : ObjectId) {u : Ticket}
      → Memᴰ (ticket_object u) (let_go id_text repo hash draw event_id now blocked blocker_id)
      → u.state ≡ blocked.state
  unfolding let_go
  let_go-state blocked blocker_id (Memᴰ.head e) = ap (λ x. x.state) (ticket_object-injective e)
  let_go-state blocked blocker_id (Memᴰ.tail (Memᴰ.head e)) = cc
  let_go-state blocked blocker_id (Memᴰ.tail (Memᴰ.tail i)) = elim i [ ]

  -- A Ticket that is not in progress is stored in progress by the removal of a blocker only where no
  -- blocker is left, and where it is registered and its active assignment is stored and accepted.
  pub unblock-Owned :
      (blocked : Ticket) (blocker_id : ObjectId) (resume : Bool) {objects : List PersistedObject}
      {u : Ticket}
      → unblock id_text repo hash draw event_id now blocked blocker_id resume ≡ ok objects
      → Memᴰ (ticket_object u) objects
      → executes blocked.state ≡ false
      → executes u.state ≡ true
      → (without blocked blocker_id ≡ []) × Owned repo blocked.id
  unfolding unblock
  unblock-Owned blocked blocker_id resume {objects} {u} h i rested runs =
      let rest = resume && no_ids (without blocked blocker_id) && waits blocked.state in
      elim (Bool-cases rest) [
        | inl e ↦ (no_ids-nil _ ground (arith, e), take_up-Owned blocked blocker_id (rw e at h))
        | inr e ↦
            let same = ok-injective (rw e at h) in
            let state = let_go-state blocked blocker_id (rw (← same) at i) in absurd (ground arith)
      ]
