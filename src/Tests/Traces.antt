-- ===== src/Tests/Traces.antt =====
-- A trace of two events.
use toaa.Base.{List, [], ◌∷◌, ◌++◌, none, ok, ◌≡◌, refl, ◌↔◌, Memᴰ, reverse, arith}
use toaa.Domain.Objects.{Digest, fresh_envelope}
use toaa.Domain.Roles.{DomainRole}
use toaa.Domain.ProjectManagement.Trace.{
  TraceHashInput, TicketTraceEvent, TicketTraceEventType, verify_event, verify_from,
  verify_ticket_trace,
}
use toaa.Domain.ProjectManagement.Trace.Chain.{
  Chain, NoCollision, verify_ticket_trace-iff_Chain, verify_ticket_trace-injective,
}
use toaa.Application.TicketTrace.{
  Draw, TicketTraceAppendInput, hash_input, trace_name, build_events, build,
}
use toaa.Application.TicketTrace.Growth.{Summarizes, verify-build}
use toaa.Tests.Samples.{new_bug}

abbrev number_hash : TraceHashInput → Digest
number_hash body = body.sequence

abbrev draw : Draw
draw = record { fresh_id = 50; clock = "t2" }

abbrev created_input : TicketTraceAppendInput
created_input = record {
  event_type = TicketTraceEventType.created;
  initiator_actor_id = 92;
  initiator_role = DomainRole.tester;
  assignment_id = none;
  from_owner_actor_id = none;
  to_owner_actor_id = none;
  from_ticket_state = none;
  to_ticket_state = none;
  from_assignment_state = none;
  to_assignment_state = none;
  reason_code = "CREATED";
  reason = "a test is red";
  evidence_refs = none;
  correlation_id = 80;
  causation_id = none;
  correction_of_event_id = none;
  occurred_at = none;
}

abbrev inputs : List (Draw × TicketTraceAppendInput)
inputs =
    (draw, created_input)
    ∷ (
      record { fresh_id = 51; clock = "t3" },
      record created_input { event_type = TicketTraceEventType.queued },
    )
    ∷ []

abbrev two_events : List TicketTraceEvent
two_events = build_events number_hash new_bug none inputs

verify_ticket_trace-iff_Chain_example :
    (verify_ticket_trace number_hash two_events ≡ ok tt) ↔ Chain number_hash (reverse two_events)
verify_ticket_trace-iff_Chain_example = verify_ticket_trace-iff_Chain number_hash two_events

verifies : verify_ticket_trace number_hash two_events ≡ ok tt
unfolding verify_ticket_trace verify_from verify_event build_events hash_input fresh_envelope
verifies = refl

distinct : NoCollision number_hash two_events two_events
unfolding build_events hash_input fresh_envelope trace_name
distinct a b (Memᴰ.head e) (Memᴰ.head f) h = rw (e, f) refl
distinct a b (Memᴰ.head e) (Memᴰ.tail (Memᴰ.head f)) h = absurd (ground arith)
distinct a b (Memᴰ.tail (Memᴰ.head e)) (Memᴰ.head f) h = absurd (ground arith)
distinct a b (Memᴰ.tail (Memᴰ.head e)) (Memᴰ.tail (Memᴰ.head f)) h = rw (e, f) refl
distinct a b (Memᴰ.tail (Memᴰ.tail i)) j h = elim i [ ]
distinct a b i (Memᴰ.tail (Memᴰ.tail j)) h = elim j [ ]

verify_ticket_trace-injective_example : two_events ≡ two_events
verify_ticket_trace-injective_example =
    verify_ticket_trace-injective number_hash two_events two_events distinct verifies verifies refl

nothing_traced : verify_ticket_trace number_hash [] ≡ ok tt
unfolding verify_ticket_trace verify_from
nothing_traced = refl

abbrev untraced : Summarizes new_bug []
untraced = record { first = refl; last = refl; count = refl; seals = refl }

verify-build_example :
    (verify_ticket_trace number_hash ([] ++ (build number_hash new_bug [] inputs "t9").events)
      ≡ ok tt)
    × Summarizes
        (build number_hash new_bug [] inputs "t9").ticket
        ([] ++ (build number_hash new_bug [] inputs "t9").events)
verify-build_example = verify-build number_hash new_bug [] inputs "t9" nothing_traced untraced
