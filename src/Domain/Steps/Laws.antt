-- ===== src/Domain/Steps/Laws.antt =====
-- src/domain/steps/step.ts: what a change of a Step's state keeps and when it is accepted.
use toaa.Base.{
  true, Option, ok, ◌≡◌, ◌≢◌, refl, sym, ◌⊎◌, inl, inr, ◌↔◌, ◌+◌, arith, is_some, same, >>=-eq-ok,
}
use toaa.Domain.StateMachine.{includes}
use toaa.Domain.StateMachine.Laws.{assert-cases}
use toaa.Domain.Objects.{Timestamp, revise_object_envelope}
use toaa.Domain.Roles.{PendingReason}
use toaa.Domain.Steps.{
  Step, StepState, pending, delivered, closed, reopened, StepState-discrete, step_transitions,
  transition_step, enter_step, step_satisfies_dependency,
}

-- A pending reason stands on a Step exactly while it is pending.
abbrev pub HasReason : StepState → Option PendingReason → Type 0
HasReason state reason = (state ≡ pending) ↔ (is_some reason ≡ true)

enter-cases :
    (s : Step) (next : StepState) (reason : Option PendingReason) (now : Timestamp) {s' : Step}
    → enter_step s next reason now ≡ ok s'
    → (s'.state ≡ next) × (s'.revision ≡ s.revision + 1) × HasReason s'.state s'.pending_reason
unfolding revise_object_envelope
enter-cases s next reason now h = elim (StepState-discrete next pending) [
  | yes e ↦ (ground arith, ground arith, (λ _. ground arith, λ _. ground arith))
  | no ne ↦ (ground arith, ground arith, (λ p. ground arith, λ p. ground arith))
]

transition-cases :
    (s : Step) (next : StepState) (reason : Option PendingReason) (now : Timestamp) {s' : Step}
    → transition_step s next reason now ≡ ok s'
    → (s' ≡ s)
      ⊎ ((includes StepState-discrete (step_transitions s.state) next ≡ true)
          × (s'.state ≡ next)
          × (s'.revision ≡ s.revision + 1)
          × HasReason s'.state s'.pending_reason)
unfolding transition_step
transition-cases s next reason now {s'} h =
    let (b, asserted, after) = >>=-eq-ok _ _ h in
    elim (assert-cases StepState-discrete step_transitions _ s.state next asserted) [
      | inl (e, stays) ↦ inl (let e' : s ≡ s' = ground arith in sym e')
      | inr (_, declared, moves) ↦
          let entered : enter_step s next reason now ≡ ok s' = ground arith in
          let (to, revised, kept) = enter-cases s next reason now entered in
          inr (declared, to, revised, kept)
    ]

-- A change of a Step's state keeps the rule that a pending reason is there exactly while the Step
-- is pending.
pub transition_step-HasReason :
    (s : Step) (next : StepState) (reason : Option PendingReason) (now : Timestamp) {s' : Step}
    → transition_step s next reason now ≡ ok s'
    → HasReason s.state s.pending_reason
    → HasReason s'.state s'.pending_reason
transition_step-HasReason s next reason now h inv = elim (transition-cases s next reason now h) [
  | inl same ↦ rw same inv
  | inr (_, _, _, after) ↦ after
]

keeps_satisfied :
    (s n : StepState)
    → step_satisfies_dependency s ≡ true
    → includes StepState-discrete (step_transitions s) n ≡ true
    → n ≢ reopened
    → step_satisfies_dependency n ≡ true
unfolding step_satisfies_dependency step_transitions StepState-discrete
keeps_satisfied delivered closed h d ne = refl
keeps_satisfied delivered reopened h d ne = absurd (ne refl)
keeps_satisfied closed reopened h d ne = absurd (ne refl)
keeps_satisfied _ _ h d ne = cc

-- A Step that its dependents may rely on goes on being one under every change of its state but
-- the move to reopened.
pub transition_step-satisfied :
    (s : Step) (next : StepState) (reason : Option PendingReason) (now : Timestamp) {s' : Step}
    → transition_step s next reason now ≡ ok s'
    → step_satisfies_dependency s.state ≡ true
    → s'.state ≢ reopened
    → step_satisfies_dependency s'.state ≡ true
transition_step-satisfied s next reason now h d ne = elim (transition-cases s next reason now h) [
  | inl same ↦ rw same d
  | inr (declared, to, _, _) ↦ rw to (keeps_satisfied s.state next d declared (rw to at ne))
]
