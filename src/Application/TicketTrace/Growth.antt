-- ===== src/Application/TicketTrace/Growth.antt =====
-- src/application/project_management/ticket_trace_service.ts: a trace that verified goes on
-- verifying when it grows, and the Ticket's summary follows it.
use toaa.Base.{
  List, [], ◌∷◌, ◌++◌, Option, none, some, ok, ◌≡◌, refl, sym, ap, length, length-append, last?,
  or_option, >>=-eq-ok, append-nil,
}
use toaa.Domain.Objects.{Timestamp, Digest}
use toaa.Domain.Tickets.Ticket.{Ticket}
use toaa.Domain.ProjectManagement.Trace.{
  TraceHashInput, TicketTraceEvent, event_id, chain_hash, verify_event, verify_from,
  verify_ticket_trace,
}
use toaa.Domain.ProjectManagement.Trace.Chain.{Links-verify_event}
use toaa.Application.TicketTrace.{
  Draw, TicketTraceAppendInput, hash_input, seal, first?, build_events, summarize, build,
}

-- The event that stands last, or the one from before where there is none.
abbrev latest : Option TicketTraceEvent → List TicketTraceEvent → Option TicketTraceEvent
latest previous [] = previous
latest previous (event ∷ events) = latest (some event) events

latest-some :
    (e : TicketTraceEvent) (xs : List TicketTraceEvent) → latest (some e) xs ≡ last? (e ∷ xs)
latest-some e [] = refl
latest-some e (x ∷ xs) = latest-some x xs

latest-last? : (xs : List TicketTraceEvent) → latest none xs ≡ last? xs
latest-last? [] = refl
latest-last? (x ∷ xs) = latest-some x xs

last?-append :
    (xs : List TicketTraceEvent) (y : TicketTraceEvent) (ys : List TicketTraceEvent)
    → last? (xs ++ y ∷ ys) ≡ last? (y ∷ ys)
last?-append [] y ys = refl
last?-append (x ∷ []) y ys = refl
last?-append (x ∷ z ∷ zs) y ys = last?-append (z ∷ zs) y ys

first?-append :
    (xs ys : List TicketTraceEvent) → first? (xs ++ ys) ≡ or_option (first? xs) (first? ys)
first?-append [] ys = refl
first?-append (x ∷ xs) ys = refl

-- What a Ticket says of its trace agrees with the trace.
pub record Summarizes (t : Ticket) (trace : List TicketTraceEvent) : Type 0 where
  pub first : t.trace_first_event_id ≡ event_id (first? trace)
  pub last : t.trace_last_event_id ≡ event_id (last? trace)
  pub count : t.trace_event_count ≡ length trace
  pub seals : t.trace_chain_hash ≡ chain_hash (last? trace)

module _ (hash : TraceHashInput → Digest) where
  verify_from-append :
      (previous : Option TicketTraceEvent) (xs ys : List TicketTraceEvent)
      → verify_from hash previous xs ≡ ok tt
      → verify_from hash (latest previous xs) ys ≡ ok tt
      → verify_from hash previous (xs ++ ys) ≡ ok tt
  unfolding verify_from
  verify_from-append previous [] ys h k = k
  verify_from-append previous (x ∷ xs) ys h k =
      let (_, linked, rest) = >>=-eq-ok (verify_event hash previous x) _ h in
      rw linked (verify_from-append (some x) xs ys rest k)

  verify_from-build_events :
      (t : Ticket) (previous : Option TicketTraceEvent)
      (inputs : List (Draw × TicketTraceAppendInput))
      → verify_from hash previous (build_events hash t previous inputs) ≡ ok tt
  unfolding verify_from build_events hash_input
  verify_from-build_events t previous [] = refl
  verify_from-build_events t previous ((draw, input) ∷ inputs) =
      rw
        (Links-verify_event hash previous (seal hash (hash_input t previous draw input))
          (record { numbered = refl; follows = refl; chained = refl; sealed = refl }))
        (verify_from-build_events t (some (seal hash (hash_input t previous draw input))) inputs)

  -- A trace that verifies still verifies with the events that `build` adds, and if the Ticket
  -- agreed with its trace before, the Ticket that `build` returns agrees with the longer one.
  pub verify-build :
      (t : Ticket) (existing : List TicketTraceEvent)
      (inputs : List (Draw × TicketTraceAppendInput)) (now : Timestamp)
      → verify_ticket_trace hash existing ≡ ok tt
      → Summarizes t existing
      → (verify_ticket_trace hash (existing ++ (build hash t existing inputs now).events) ≡ ok tt)
        × Summarizes
            (build hash t existing inputs now).ticket
            (existing ++ (build hash t existing inputs now).events)
  unfolding verify_ticket_trace build build_events summarize
  verify-build t existing [] now h s = (rw append-nil h, rw append-nil s)
  verify-build t existing ((draw, input) ∷ inputs) now h s =
      let event = seal hash (hash_input t (last? existing) draw input) in
      let events = event ∷ build_events hash t (some event) inputs in
      (
        verify_from-append none existing events h (
            rw (latest-last? existing)
              (verify_from-build_events t (last? existing) ((draw, input) ∷ inputs))),
        record {
          first = sym (ap event_id (first?-append existing events));
          last = ap event_id (sym (last?-append existing event _));
          count = sym (length-append existing events);
          seals = ap chain_hash (sym (last?-append existing event _));
        },
      )
