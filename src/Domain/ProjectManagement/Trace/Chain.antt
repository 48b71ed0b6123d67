-- ===== src/Domain/ProjectManagement/Trace/Chain.antt =====
-- src/domain/project_management/ticket_trace.ts: what a verified trace is.
use mathlib.Core.Path.{ap₂}
use mathlib.Core.List.{reverse, reverse_aux, reverse-reverse}
use toaa.Base.{
  ◌+◌, Memᴰ, Memᴰ-reverse, List, [], ◌∷◌, Option, none, some, ok, ◌≡◌, refl, sym, ap, ◌∙◌, arith,
  same_option_iff, ◌↔◌, >>=-eq-ok,
}
use toaa.Domain.Objects.{Digest}
use toaa.Domain.ProjectManagement.Trace.{
  TraceHashInput, TicketTraceEvent, next_sequence, event_id, chain_hash, verify_event, verify_from,
  verify_ticket_trace,
}

-- How an event hangs on the one before it.
pub record Links (hash : TraceHashInput → Digest) (previous : Option TicketTraceEvent)
    (event : TicketTraceEvent) : Type 0 where
  pub numbered : event.sequence ≡ next_sequence previous
  pub follows : event.previous_event_id ≡ event_id previous
  pub chained : event.previous_event_hash ≡ chain_hash previous
  pub sealed : event.event_hash ≡ hash event.body

abbrev pub newest : List TicketTraceEvent → Option TicketTraceEvent
newest [] = none
newest (event ∷ events) = some event

-- A trace, the newest event first: the first event has number one and names no event before it, every
-- other has the number after the one before it and names that one's id and hash, and each carries the
-- hash of its own content.
pub data Chain (hash : TraceHashInput → Digest) : List TicketTraceEvent → Type 0 where
  start : Chain hash []
  first :
      {event : TicketTraceEvent}
      → event.sequence ≡ 1
      → event.previous_event_id ≡ none
      → event.previous_event_hash ≡ none
      → event.event_hash ≡ hash event.body
      → Chain hash (event ∷ [])
  more :
      {event previous : TicketTraceEvent} {events : List TicketTraceEvent}
      → event.sequence ≡ previous.sequence + 1
      → event.previous_event_id ≡ some previous.id
      → event.previous_event_hash ≡ some previous.event_hash
      → event.event_hash ≡ hash event.body
      → Chain hash (previous ∷ events)
      → Chain hash (event ∷ (previous ∷ events))

Chain-tail :
    {hash : TraceHashInput → Digest} {event : TicketTraceEvent} {events : List TicketTraceEvent}
    → Chain hash (event ∷ events)
    → Chain hash events
Chain-tail (first n i h s) = start
Chain-tail (more n i h s c) = c

Chain-head :
    {hash : TraceHashInput → Digest} {event : TicketTraceEvent} {events : List TicketTraceEvent}
    → Chain hash (event ∷ events)
    → Links hash (newest events) event
Chain-head (first n i h s) = record { numbered = n; follows = i; chained = h; sealed = s }
Chain-head (more n i h s c) = record { numbered = n; follows = i; chained = h; sealed = s }

Chain-grow :
    {hash : TraceHashInput → Digest} (event : TicketTraceEvent) (events : List TicketTraceEvent)
    → Links hash (newest events) event
    → Chain hash events
    → Chain hash (event ∷ events)
Chain-grow event [] l c = first l.numbered l.follows l.chained l.sealed
Chain-grow event (previous ∷ events) l c = more l.numbered l.follows l.chained l.sealed c

module _ (hash : TraceHashInput → Digest) where
  verify_event-Links :
      (previous : Option TicketTraceEvent) (event : TicketTraceEvent)
      → verify_event hash previous event ≡ ok tt
      → Links hash previous event
  unfolding verify_event
  verify_event-Links previous event h = record {
    numbered = ground arith;
    follows = ground (arith, same_option_iff event.previous_event_id (event_id previous));
    chained = ground (arith, same_option_iff event.previous_event_hash (chain_hash previous));
    sealed = ground arith;
  }

  pub Links-verify_event :
      (previous : Option TicketTraceEvent) (event : TicketTraceEvent)
      → Links hash previous event
      → verify_event hash previous event ≡ ok tt
  unfolding verify_event
  Links-verify_event previous event l = ground (
    arith,
    same_option_iff event.previous_event_id (event_id previous),
    same_option_iff event.previous_event_hash (chain_hash previous),
  )

  verify_from-Chain :
      (events older : List TicketTraceEvent)
      → Chain hash older
      → verify_from hash (newest older) events ≡ ok tt
      → Chain hash (reverse_aux events older)
  unfolding verify_from
  verify_from-Chain [] older c h = c
  verify_from-Chain (event ∷ events) older c h =
      let (_, linked, rest) = >>=-eq-ok (verify_event hash (newest older) event) _ h in
      verify_from-Chain events (event ∷ older)
        (Chain-grow event older (verify_event-Links _ event linked) c) rest

  Chain-older :
      (events older : List TicketTraceEvent)
      → Chain hash (reverse_aux events older)
      → Chain hash older
  Chain-older [] older c = c
  Chain-older (event ∷ events) older c = Chain-tail (Chain-older events (event ∷ older) c)

  Chain-verify_from :
      (events older : List TicketTraceEvent)
      → Chain hash (reverse_aux events older)
      → verify_from hash (newest older) events ≡ ok tt
  unfolding verify_from
  Chain-verify_from [] older c = refl
  Chain-verify_from (event ∷ events) older c =
      rw (Links-verify_event _ event (Chain-head (Chain-older events (event ∷ older) c)))
        (Chain-verify_from events (event ∷ older) c)

  -- A trace verifies exactly when it is a chain: the events are numbered from one without a gap, the
  -- first names no event before it and each other the id and the hash of the one before it, and each
  -- carries the hash of its content.
  pub verify_ticket_trace-iff_Chain :
      (events : List TicketTraceEvent)
      → (verify_ticket_trace hash events ≡ ok tt) ↔ Chain hash (reverse events)
  unfolding verify_ticket_trace
  verify_ticket_trace-iff_Chain events =
      (verify_from-Chain events [] start, Chain-verify_from events [])

  -- No two events of the two traces have the same hash and different contents.
  abbrev pub NoCollision : List TicketTraceEvent → List TicketTraceEvent → Type 0
  NoCollision xs ys =
      (a b : TicketTraceEvent) → Memᴰ a xs → Memᴰ b ys → hash a.body ≡ hash b.body → a.body ≡ b.body

  Chain-sealed :
      (xs ys : List TicketTraceEvent)
      → NoCollision xs ys
      → Chain hash xs
      → Chain hash ys
      → chain_hash (newest xs) ≡ chain_hash (newest ys)
      → xs ≡ ys
  Chain-sealed [] [] unique c d e = refl
  Chain-sealed [] (y ∷ ys) unique c d e = absurd (ground arith)
  Chain-sealed (x ∷ xs) [] unique c d e = absurd (ground arith)
  Chain-sealed (x ∷ xs) (y ∷ ys) unique c d e =
      let l = Chain-head c in
      let m = Chain-head d in
      let hashes : x.event_hash ≡ y.event_hash = ground arith in
      let bodies : x.body ≡ y.body =
        unique x y (Memᴰ.head refl) (Memᴰ.head refl) (sym l.sealed ∙ hashes ∙ m.sealed) in
      let before : chain_hash (newest xs) ≡ chain_hash (newest ys) =
        sym l.chained ∙ ap (λ b. b.previous_event_hash) bodies ∙ m.chained in
      let same : x ≡ y = λ i. record { body = bodies i; event_hash = hashes i } in
      let unique' : NoCollision xs ys = λ a b i j. unique a b (Memᴰ.tail i) (Memᴰ.tail j) in
      ap₂ ◌∷◌ same (Chain-sealed xs ys unique' (Chain-tail c) (Chain-tail d) before)

  -- Where no two of the events collide under SHA-256, the hash of the last event fixes the whole
  -- history: two traces that both verify and end in the same hash are the same trace.
  pub verify_ticket_trace-injective :
      (xs ys : List TicketTraceEvent)
      → NoCollision xs ys
      → verify_ticket_trace hash xs ≡ ok tt
      → verify_ticket_trace hash ys ≡ ok tt
      → chain_hash (newest (reverse xs)) ≡ chain_hash (newest (reverse ys))
      → xs ≡ ys
  verify_ticket_trace-injective xs ys unique hx hy e =
      let same =
        Chain-sealed (reverse xs) (reverse ys)
          (λ a b i j. unique a b (Memᴰ-reverse xs i) (Memᴰ-reverse ys j))
          ((verify_ticket_trace-iff_Chain xs).0 hx) ((verify_ticket_trace-iff_Chain ys).0 hy) e in
      sym (reverse-reverse xs) ∙ ap reverse same ∙ reverse-reverse ys
