-- ===== src/Domain/StateMachine/Laws.antt =====
-- src/util/state_machine.ts: what the guard answers, for every machine.
use toaa.Base.{Bool, true, false, ok, ◌≡◌, ◌≢◌, ◌⊎◌, inl, inr, arith}
use toaa.Domain.StateMachine.{StateTransitions, includes, assert_state_transition}

module _ {S E : Type 0} (dec : Discrete S) (transitions : StateTransitions S) (failure : E) where
  -- An answer means no move, or a declared one.
  pub assert-cases :
      (from to : S) {b : Bool}
      → assert_state_transition dec from to transitions failure ≡ ok b
      → ((from ≡ to) × (b ≡ false))
        ⊎ ((from ≢ to) × (includes dec (transitions from) to ≡ true) × (b ≡ true))
  unfolding assert_state_transition
  assert-cases from to h = elim (dec from to) [
    | yes e ↦ inl (e, ground arith)
    | no ne ↦ inr (ne, ground arith, ground arith)
  ]

  pub assert-same : (s : S) → assert_state_transition dec s s transitions failure ≡ ok false
  unfolding assert_state_transition
  assert-same s = ground arith

  pub assert-declared :
      (from to : S)
      → from ≢ to
      → includes dec (transitions from) to ≡ true
      → assert_state_transition dec from to transitions failure ≡ ok true
  unfolding assert_state_transition
  assert-declared from to ne h = ground arith
