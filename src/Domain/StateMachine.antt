-- ===== src/Domain/StateMachine.antt =====
-- src/util/state_machine.ts: the guard that every persisted state machine goes through.
pub mod Laws
pub mod Visits
use toaa.Base.{ℕ, Bool, true, false, List, String, Result, ok, err, same, any, if◌then◌else◌}

-- `StateTransitions<State>`: the states that each state may move to.
abbrev pub StateTransitions : Type 0 → Type 0
StateTransitions S = S → List S

-- `InvalidStateTransitionError`
pub record InvalidTransition (S : Type 0) : Type 0 where
  pub machine : String
  pub entity_id : ℕ
  pub from : S
  pub to : S

-- `Array.includes` on states.
abbrev pub includes {ℓ} : {A : Type ℓ} → Discrete A → List A → A → Bool
includes dec xs a = any (λ x. same dec x a) xs

-- `false` for a move to the same state, `true` for a declared one, and an error for any other.
-- `failure` is what the error factory makes.
unfoldable pub assert_state_transition :
    {S E : Type 0} → Discrete S → S → S → StateTransitions S → E → Result E Bool
assert_state_transition dec from to transitions failure =
    if same dec from to
    then ok false
    else if includes dec (transitions from) to
    then ok true
    else err failure
