-- ===== src/Application/TicketLifecycle/Single.antt =====
-- src/application/project_management/ticket_lifecycle_service.ts, prepareTransition: what the Ticket is
-- that a move to one state stores.
use toaa.Base.{
  ℕ, List, [], ◌∷◌, ok, ok-injective, Memᴰ, Memᴰ-append_right, ◌≡◌, refl, sym, ◌∙◌, subst,
}
use toaa.Domain.Objects.{ObjectId, Timestamp, Digest}
use toaa.Domain.Tickets.Types.{TicketState}
use toaa.Domain.Tickets.Ticket.{Ticket}
use toaa.Domain.Tickets.Transitions.Single.{Entered, transition_ticket_path-Entered}
use toaa.Domain.ProjectManagement.Trace.{TraceHashInput, TicketTraceEvent}
use toaa.Application.TicketTrace.{Draw}
use toaa.Application.Repository.{PersistedObject, ticket_object, RepositoryPort}
use toaa.Application.TicketLifecycle.{
  PreparedTicketTransition, require_ticket, outcome, prepare_transition,
}
use toaa.Application.TicketMoves.{TicketTransitionInput, Move, updated_ticket, move_of}
use toaa.Application.TicketLifecycle.Prepared.{prepare_transition_path-Prepared}

-- The Ticket that is stored, entered from `t`.
pub record Moved (t : Ticket) (next : TicketState) (p : PreparedTicketTransition) : Type 0 where
  pub enters : Entered t next p.ticket
  pub stores : Memᴰ (ticket_object p.ticket) p.objects

module _ {E : Type 0} (repo : RepositoryPort E) (hash : TraceHashInput → Digest) (draw : ℕ → Draw)
    (event_id : ObjectId) (now : Timestamp) where
  outcome-Moved :
      (m : Move) (path : List TicketState) (final next : TicketState) (transitioned : Ticket)
      (existing : List TicketTraceEvent) (ended owner : List PersistedObject)
      → Entered m.ticket next transitioned
      → Moved m.ticket next
          (outcome repo hash draw event_id now m path final transitioned existing ended owner)
  unfolding outcome updated_ticket
  outcome-Moved m path final next transitioned existing ended owner x = record {
    enters = record { state = x.state; same_id = x.same_id; same_blockers = x.same_blockers };
    stores =
        Memᴰ-append_right _ _
          (Memᴰ-append_right ended _ (Memᴰ-append_right owner _ (Memᴰ.head refl)));
  }

  pub prepare_transition-Moved :
      (id : ObjectId) (next : TicketState) (input : TicketTransitionInput) {t : Ticket}
      {p : PreparedTicketTransition}
      → require_ticket repo id ≡ ok t
      → prepare_transition repo hash draw event_id now id next input ≡ ok p
      → Moved t next p
  unfolding prepare_transition move_of
  prepare_transition-Moved id next input {t} {p} r h =
      let (final, ends, prepared) =
        prepare_transition_path-Prepared repo hash draw event_id now id (next ∷ []) input h in
      let a = prepared.assembles in
      let m = move_of now prepared.t prepared.assignment prepared.initiator final input in
      let entered =
        transition_ticket_path-Entered prepared.t next input.pending_reason now a.moves in
      let moved =
        outcome-Moved m (next ∷ []) final next a.transitioned a.existing a.ended a.owner entered in
      let is_t : prepared.t ≡ t = ok-injective (sym prepared.reads ∙ r) in
      subst (λ u. Moved u next p) is_t (subst (Moved prepared.t next) a.makes moved)
