-- ===== src/Application/TicketBlockers/Held.antt =====
-- src/application/project_management/ticket_blocker_service.ts, prepare: a Ticket that is blocked.
use toaa.Base.{
  ℕ, false, not, List, [], ◌∷◌, ◌++◌, Result, ok, err, >>=-eq-ok, require-ok, ok-injective, Memᴰ,
  Memᴰ-append_left, Memᴰ-append_right, if-cases, inl, inr, ==_iff, ◌≡◌, refl, ap, ◌∙◌, subst,
  String,
}
use toaa.Domain.Objects.{ObjectId, Timestamp, Digest, revise_object_envelope}
use toaa.Domain.Tickets.Types.{pending}
use toaa.Domain.Tickets.Ticket.{Ticket}
use toaa.Domain.Tickets.Records.Duplicates.{set_of-Memᴰ}
use toaa.Domain.Tickets.Transitions.Single.{Entered}
use toaa.Domain.ProjectManagement.Actor.{ActorRegistration}
use toaa.Domain.ProjectManagement.Trace.{TraceHashInput, TicketTraceEvent}
use toaa.Application.TicketTrace.{Draw, TicketTraceAppendInput, build, list_trace, summarize}
use toaa.Application.Repository.{PersistedObject, ticket_object, RepositoryPort}
use toaa.Application.TicketLifecycle.{
  LifecycleError, trace, lift, actor_objects, require_ticket, release_capacity_for,
  prepare_transition,
}
use toaa.Application.TicketMoves.{with_draws}
use toaa.Application.TicketLifecycle.Single.{prepare_transition-Moved}
use toaa.Application.TicketBlockers.{pass, marker, parking, processing_actor, park, mark, prepare}
use toaa.Application.BlockerEdges.{BlockReason, is_terminal, executes, blocked_by, replace_ticket}

pub pass-eq-ok {ℓ} :
    {E : Type 0} {A : Type ℓ} (r : Result (LifecycleError E) A) {a : A} → pass r ≡ ok a → r ≡ ok a
pass-eq-ok (ok b) h = ap ok (ok-injective h)
pass-eq-ok (err e) h = cc

-- The Ticket as it is stored once it has been blocked.
pub record Held (work : Ticket) (blocker_id : ObjectId) (objects : List PersistedObject)
    : Type 0 where
  pub ticket : Ticket
  pub stores : Memᴰ (ticket_object ticket) objects
  pub same_id : ticket.id ≡ work.id
  pub holds : Memᴰ blocker_id ticket.blocked_by_ticket_ids
  pub keeps :
      (id : ObjectId) → Memᴰ id work.blocked_by_ticket_ids → Memᴰ id ticket.blocked_by_ticket_ids
  pub rests : executes ticket.state ≡ false

pub replace_ticket-Memᴰ :
    (objects : List PersistedObject) {u : Ticket} (t : Ticket)
    → Memᴰ (ticket_object u) objects
    → u.id ≡ t.id
    → Memᴰ (ticket_object t) (replace_ticket objects t)
replace_ticket-Memᴰ [] t i e = elim i [ ]
replace_ticket-Memᴰ (o ∷ objects) {u} t (Memᴰ.head same) e =
    Memᴰ.head (rw (← same, (==_iff u.id t.id).1 e) refl)
replace_ticket-Memᴰ (o ∷ objects) t (Memᴰ.tail i) e = Memᴰ.tail (replace_ticket-Memᴰ objects t i e)

-- What a blocker does to any Ticket of the same blockers that rests.
blocked_by-Held :
    (work t : Ticket) (blocker_id : ObjectId) {objects : List PersistedObject}
    → t.id ≡ work.id
    → t.blocked_by_ticket_ids ≡ work.blocked_by_ticket_ids
    → executes t.state ≡ false
    → Memᴰ (ticket_object (blocked_by t blocker_id)) objects
    → Held work blocker_id objects
unfolding blocked_by
blocked_by-Held work t blocker_id e blockers rests stored = record {
  ticket = blocked_by t blocker_id;
  stores = stored;
  same_id = e;
  holds =
      set_of-Memᴰ [] (t.blocked_by_ticket_ids ++ blocker_id ∷ [])
        (inr (Memᴰ-append_right t.blocked_by_ticket_ids (blocker_id ∷ []) (Memᴰ.head refl)));
  keeps = λ id i.
      set_of-Memᴰ [] (t.blocked_by_ticket_ids ++ blocker_id ∷ [])
        (inr (Memᴰ-append_left t.blocked_by_ticket_ids (blocker_id ∷ []) (rw blockers i)));
  rests = rests;
}

build-Entered :
    (hash : TraceHashInput → Digest) (t : Ticket) (existing : List TicketTraceEvent)
    (inputs : List (Draw × TicketTraceAppendInput)) (now : Timestamp)
    → Entered t t.state (build hash t existing inputs now).ticket
unfolding build summarize revise_object_envelope
build-Entered hash t existing [] now = record { state = refl; same_id = refl; same_blockers = refl }
build-Entered hash t existing (input ∷ inputs) now = record {
  state = refl;
  same_id = refl;
  same_blockers = refl;
}

module _ (id_text : ObjectId → String) {E : Type 0} (repo : RepositoryPort E)
    (hash : TraceHashInput → Digest) (draw : ℕ → Draw) (event_id : ObjectId) (now : Timestamp) where
  park-Held :
      (work : Ticket) (actor : ActorRegistration) (blocker_id : ObjectId) (reason : BlockReason)
      {objects : List PersistedObject}
      → require_ticket {E = E} repo work.id ≡ ok work
      → park id_text repo hash draw event_id now work actor blocker_id reason ≡ ok objects
      → Held work blocker_id objects
  unfolding park blocked_by
  park-Held work actor blocker_id reason stored h =
      let input = parking id_text (marker id_text work actor blocker_id reason) reason in
      let (p, prepared, e) =
        >>=-eq-ok (pass (prepare_transition repo hash draw event_id now work.id pending input)) _
          h in
      let m =
        prepare_transition-Moved repo hash draw event_id now work.id pending input stored
          (pass-eq-ok _ prepared) in
      let x = m.enters in
      subst (Held work blocker_id) (ok-injective e) (
        blocked_by-Held work p.ticket blocker_id x.same_id x.same_blockers (ap executes x.state)
          (replace_ticket-Memᴰ p.objects (blocked_by p.ticket blocker_id) m.stores refl))

  mark-Held :
      (work : Ticket) (actor : ActorRegistration) (blocker_id : ObjectId) (reason : BlockReason)
      {objects : List PersistedObject}
      → executes work.state ≡ false
      → mark id_text repo hash draw event_id now work actor blocker_id reason ≡ ok objects
      → Held work blocker_id objects
  unfolding mark
  mark-Held work actor blocker_id reason rests h =
      let (existing, lists, h1) =
        >>=-eq-ok (pass (lift trace (list_trace hash work.id repo.trace_events))) _ h in
      let (released, frees, h2) = >>=-eq-ok (pass (release_capacity_for repo work now)) _ h1 in
      let inputs = with_draws draw 0 (marker id_text work actor blocker_id reason ∷ []) in
      let x = build-Entered hash work existing inputs now in
      subst (Held work blocker_id) (ok-injective h2) (
        blocked_by-Held work (build hash work existing inputs now).ticket blocker_id x.same_id
          x.same_blockers (ap executes x.state ∙ rests)
          (Memᴰ-append_right _ _ (Memᴰ-append_right (actor_objects released) _ (Memᴰ.head refl))))

  -- Blocking a stored Ticket, where it succeeds, stores the Ticket with the blocker, with all the
  -- blockers that it had, and in a state other than in_progress.
  pub prepare-Held :
      (work : Ticket) (blocker_id : ObjectId) (reason : BlockReason)
      {objects : List PersistedObject}
      → require_ticket {E = E} repo work.id ≡ ok work
      → prepare id_text repo hash draw event_id now work blocker_id reason ≡ ok objects
      → Held work blocker_id objects
  unfolding prepare
  prepare-Held work blocker_id reason stored h =
      let (live, h1) = require-ok (not (is_terminal work.state)) _ h in
      let (actor, acts, h2) = >>=-eq-ok (processing_actor repo work) _ h1 in
      elim (if-cases (executes work.state)
        (park id_text repo hash draw event_id now work actor blocker_id reason)
        (mark id_text repo hash draw event_id now work actor blocker_id reason) h2) [
          | inl (busy, h3) ↦ park-Held work actor blocker_id reason stored h3
          | inr (rests, h3) ↦ mark-Held work actor blocker_id reason rests h3
        ]
