-- ===== src/Application/TicketLifecycle/Traces.antt =====
-- src/application/project_management/ticket_lifecycle_service.ts: the trace of a prepared move.
use toaa.Base.{
  ℕ, suc, ◌+◌, List, [], ◌∷◌, ◌++◌, map, Option, some, ok, ok-injective, >>=-eq-ok, length,
  length-append, ◌≡◌, refl, sym, ap, ◌∙◌, subst, ◌==◌, sort, keep, ltb, Memᴰ, Memᴰ-append_right,
}
use toaa.Domain.Objects.{ObjectId, Timestamp, Digest}
use toaa.Domain.Tickets.Types.{TicketState}
use toaa.Domain.Tickets.Ticket.{Ticket}
use toaa.Domain.ProjectManagement.Trace.{TraceHashInput, TicketTraceEvent, verify_ticket_trace}
use toaa.Application.TicketTrace.{
  Draw, TicketTraceAppendInput, hash_input, seal, build_events, build, list_trace,
}
use toaa.Application.TicketTrace.Growth.{Summarizes, verify-build}
use toaa.Application.Repository.{PersistedObject, ticket_object, trace_object, RepositoryPort}
use toaa.Application.TicketLifecycle.{
  PreparedTicketTransition, require_ticket, outcome, prepare_transition_path,
}
use toaa.Application.TicketMoves.{
  TicketTransitionInput, Move, transition_traces, with_draws, trace_inputs, updated_ticket, move_of,
}
use toaa.Application.TicketLifecycle.Prepared.{Assembled, prepare_transition_path-Prepared}

length-transition_traces :
    (m : Move) (from : TicketState) (path : List TicketState)
    → length (transition_traces m from path) ≡ length path
unfolding transition_traces
length-transition_traces m from [] = refl
length-transition_traces m from (to ∷ []) = refl
length-transition_traces m from (to ∷ next ∷ path) =
    ap suc (length-transition_traces m to (next ∷ path))

length-with_draws :
    (draw : ℕ → Draw) (n : ℕ) (inputs : List TicketTraceAppendInput)
    → length (with_draws draw n inputs) ≡ length inputs
length-with_draws draw n [] = refl
length-with_draws draw n (input ∷ inputs) = ap suc (length-with_draws draw (n + 1) inputs)

length-build_events :
    (hash : TraceHashInput → Digest) (t : Ticket) (previous : Option TicketTraceEvent)
    (inputs : List (Draw × TicketTraceAppendInput))
    → length (build_events hash t previous inputs) ≡ length inputs
unfolding build_events
length-build_events hash t previous [] = refl
length-build_events hash t previous ((draw, input) ∷ inputs) =
    ap suc (length-build_events hash t (some (seal hash (hash_input t previous draw input))) inputs)

length-build :
    (hash : TraceHashInput → Digest) (t : Ticket) (existing : List TicketTraceEvent)
    (inputs : List (Draw × TicketTraceAppendInput)) (now : Timestamp)
    → length (build hash t existing inputs now).events ≡ length inputs
unfolding build
length-build hash t existing [] now = refl
length-build hash t existing (input ∷ inputs) now = length-build_events hash t _ (input ∷ inputs)

list_trace-verify :
    (hash : TraceHashInput → Digest) (id : ObjectId) (objects : List TicketTraceEvent)
    {existing : List TicketTraceEvent}
    → list_trace hash id objects ≡ ok existing
    → verify_ticket_trace hash existing ≡ ok tt
unfolding list_trace
list_trace-verify hash id objects h =
    let (_, verified, e) =
      >>=-eq-ok
        (verify_ticket_trace hash
          (sort (λ a b. ltb a.sequence b.sequence) (keep (λ e. e.ticket_id == id) objects)))
        _ h in
    rw (← ok-injective e) verified

-- The trace that a Ticket has once `p` is stored: `existing`, and as many events as `added` says. The
-- Ticket that summarizes it is among the objects to store.
pub record Traced (hash : TraceHashInput → Digest) (existing : List TicketTraceEvent) (added : ℕ)
    (p : PreparedTicketTransition) : Type 0 where
  pub events : List TicketTraceEvent
  pub others : List PersistedObject
  pub writes : p.objects ≡ map trace_object events ++ others
  pub counts : length events ≡ added
  pub verifies : verify_ticket_trace hash (existing ++ events) ≡ ok tt
  pub stores : Memᴰ (ticket_object p.ticket) p.objects
  pub summarizes : Summarizes p.ticket (existing ++ events)

module _ {E : Type 0} (repo : RepositoryPort E) (hash : TraceHashInput → Digest) (draw : ℕ → Draw)
    (event_id : ObjectId) (now : Timestamp) where
  length-trace_inputs :
      (m : Move) (path : List TicketState)
      → length (trace_inputs draw m path) ≡ length m.input.before_trace + length path
  length-trace_inputs m path =
      length-with_draws draw 0 (m.input.before_trace ++ transition_traces m m.ticket.state path)
      ∙ length-append m.input.before_trace (transition_traces m m.ticket.state path)
      ∙ ap (λ n. length m.input.before_trace + n) (length-transition_traces m m.ticket.state path)

  outcome-Traced :
      (m : Move) (path : List TicketState) (final : TicketState) (transitioned : Ticket)
      (existing : List TicketTraceEvent) (ended owner : List PersistedObject)
      → verify_ticket_trace hash existing ≡ ok tt
      → Summarizes m.ticket existing
      → Traced hash existing
          (length m.input.before_trace + length path)
          (outcome repo hash draw event_id now m path final transitioned existing ended owner)
  unfolding outcome updated_ticket
  outcome-Traced m path final transitioned existing ended owner h s =
      let inputs = trace_inputs draw m path in
      let (verifies, summary) = verify-build hash m.ticket existing inputs now h s in
      record {
        events = (build hash m.ticket existing inputs now).events;
        others = _;
        writes = refl;
        counts = length-build hash m.ticket existing inputs now ∙ length-trace_inputs m path;
        verifies = verifies;
        stores =
            Memᴰ-append_right _ _
              (Memᴰ-append_right ended _ (Memᴰ-append_right owner _ (Memᴰ.head refl)));
        summarizes = record {
          first = summary.first;
          last = summary.last;
          count = summary.count;
          seals = summary.seals;
        };
      }

  Assembled-Traced :
      (m : Move) (path : List TicketState) (final : TicketState) {p : PreparedTicketTransition}
      {existing : List TicketTraceEvent}
      → Assembled repo hash draw event_id now m path final p
      → list_trace hash m.ticket.id repo.trace_events ≡ ok existing
      → Summarizes m.ticket existing
      → Traced hash existing (length m.input.before_trace + length path) p
  Assembled-Traced m path final a l s =
      let e = ok-injective (sym a.lists ∙ l) in
      let added = length m.input.before_trace + length path in
      let traced =
        outcome-Traced m path final a.transitioned a.existing a.ended a.owner
          (list_trace-verify hash m.ticket.id repo.trace_events a.lists)
          (subst (Summarizes m.ticket) (sym e) s) in
      subst (λ xs. Traced hash xs added _) e (subst (Traced hash a.existing added) a.makes traced)

  -- A move that is prepared for a Ticket whose trace verifies and is summarized by the Ticket stores
  -- one event for each entry of `beforeTrace` and each state of the path; with them the trace still
  -- verifies, and the Ticket that is stored with them, among the objects of the move, summarizes the
  -- longer trace.
  pub prepare_transition_path-Traced :
      (id : ObjectId) (path : List TicketState) (input : TicketTransitionInput) {t : Ticket}
      {existing : List TicketTraceEvent} {p : PreparedTicketTransition}
      → require_ticket repo id ≡ ok t
      → list_trace hash t.id repo.trace_events ≡ ok existing
      → Summarizes t existing
      → prepare_transition_path repo hash draw event_id now id path input ≡ ok p
      → Traced hash existing (length input.before_trace + length path) p
  unfolding move_of
  prepare_transition_path-Traced id path input {t} {existing} r l s h =
      let (final, ends, prepared) =
        prepare_transition_path-Prepared repo hash draw event_id now id path input h in
      let is_t = ok-injective (sym prepared.reads ∙ r) in
      let m = move_of now prepared.t prepared.assignment prepared.initiator final input in
      Assembled-Traced m path final prepared.assembles
        (subst (λ u. list_trace hash u.id repo.trace_events ≡ ok existing) (sym is_t) l)
        (subst (λ u. Summarizes u existing) (sym is_t) s)
