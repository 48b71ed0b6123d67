-- ===== src/Application/TicketLifecycle/Reserved.antt =====
-- src/application/project_management/ticket_lifecycle_service.ts: the owner of a Ticket that is taken
-- up again.
use toaa.Base.{
  ℕ, true, false, List, [], ◌∷◌, ◌++◌, some, ok, ok-injective, some-injective, Memᴰ,
  Memᴰ-append_left, Memᴰ-append_right, ◌≡◌, refl, sym, ◌∙◌, subst,
}
use toaa.Domain.Objects.{ObjectId, Timestamp, Digest}
use toaa.Domain.Tickets.Types.{TicketState, in_progress}
use toaa.Domain.Tickets.Ticket.{Ticket}
use toaa.Domain.ProjectManagement.Assignment.{TicketAssignment}
use toaa.Domain.ProjectManagement.Actor.{ActorRegistration, revise_actor}
use toaa.Domain.ProjectManagement.Trace.{TraceHashInput, TicketTraceEvent}
use toaa.Application.TicketTrace.{Draw}
use toaa.Application.Repository.{PersistedObject, actor_object, RepositoryPort}
use toaa.Application.TicketMoves.{TicketTransitionInput, Move, move_of}
use toaa.Application.ActorCapacity.{holds_capacity, includes_id, reconcile_actor_capacity}
use toaa.Application.TicketLifecycle.{
  PreparedTicketTransition, require_ticket, require_assignment, require_actor, reconciled_owner,
  outcome, prepare_transition,
}
use toaa.Application.TicketLifecycle.Prepared.{prepare_transition_path-Prepared}

-- The owner with the assignment at the end of its list.
abbrev pub reserved : ActorRegistration → TicketAssignment → Timestamp → ActorRegistration
reserved owner a now = revise_actor owner (owner.active_assignment_ids ++ a.id ∷ []) now

module _ {E : Type 0} (repo : RepositoryPort E) where
  reconciled_owner-reserved :
      (a : TicketAssignment) (owner : ActorRegistration) (now : Timestamp)
      → a.capacity_consumed ≡ true
      → require_actor {E = E} repo a.assignee_actor_id ≡ ok owner
      → includes_id owner.active_assignment_ids a.id ≡ false
      → reconciled_owner {E = E} repo (some a) in_progress now
        ≡ ok (actor_object (reserved owner a now) ∷ [])
  unfolding reconciled_owner reconcile_actor_capacity holds_capacity
  reconciled_owner-reserved a owner now consumes reads absent = rw (consumes, reads, absent) refl

  module _ (hash : TraceHashInput → Digest) (draw : ℕ → Draw) (event_id : ObjectId)
      (now : Timestamp) where
    outcome-Memᴰ :
        (m : Move) (path : List TicketState) (final : TicketState) (transitioned : Ticket)
        (existing : List TicketTraceEvent) (ended owner : List PersistedObject)
        {x : PersistedObject}
        → Memᴰ x owner
        → Memᴰ x
            (outcome repo hash draw event_id now m path final transitioned existing ended
              owner).objects
    unfolding outcome
    outcome-Memᴰ m path final transitioned existing ended owner i =
        Memᴰ-append_right _ _ (Memᴰ-append_right ended _ (Memᴰ-append_left owner _ i))

    -- The reservation is among the objects of the move.
    pub prepare_transition-reserved :
        (id : ObjectId) (input : TicketTransitionInput) {t : Ticket} {a : TicketAssignment}
        {owner : ActorRegistration} {p : PreparedTicketTransition}
        → require_ticket repo id ≡ ok t
        → require_assignment repo t.active_assignment_id ≡ ok (some a)
        → a.capacity_consumed ≡ true
        → require_actor {E = E} repo a.assignee_actor_id ≡ ok owner
        → includes_id owner.active_assignment_ids a.id ≡ false
        → prepare_transition repo hash draw event_id now id in_progress input ≡ ok p
        → Memᴰ (actor_object (reserved owner a now)) p.objects
    unfolding prepare_transition move_of
    prepare_transition-reserved id input {t} {a} {owner} {p} r ra consumes ro absent h =
        let (final, ends, prepared) =
          prepare_transition_path-Prepared repo hash draw event_id now id (in_progress ∷ []) input
            h in
        let x = prepared.assembles in
        let is_final : final ≡ in_progress = sym (some-injective ends) in
        let is_t : prepared.t ≡ t = ok-injective (sym prepared.reads ∙ r) in
        let reads_a =
          subst (λ u. require_assignment repo u.active_assignment_id ≡ ok (some a)) (sym is_t) ra in
        let is_a : prepared.assignment ≡ some a =
          ok-injective (sym prepared.reads_assignment ∙ reads_a) in
        let of_a =
          subst (λ o. reconciled_owner {E = E} repo o final now ≡ ok x.owner) is_a x.settles in
        let settles =
          subst (λ s. reconciled_owner {E = E} repo (some a) s now ≡ ok x.owner) is_final of_a in
        let owners =
          ok-injective (sym settles ∙ reconciled_owner-reserved a owner now consumes ro absent) in
        let m = move_of now prepared.t prepared.assignment prepared.initiator final input in
        subst (λ q. Memᴰ (actor_object (reserved owner a now)) q.objects) x.makes
          (outcome-Memᴰ m (in_progress ∷ []) final x.transitioned x.existing x.ended x.owner
            (subst (Memᴰ (actor_object (reserved owner a now))) (sym owners) (Memᴰ.head refl)))
