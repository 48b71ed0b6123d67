-- ===== src/Domain/Phases/Laws.antt =====
-- src/domain/phases/phase.ts: when a change of a Phase's state is accepted, and what it keeps.
use toaa.Base.{
  true, false, List, [], ◌∷◌, Option, none, ok, ok-injective, ◌≡◌, ◌≢◌, refl, sym, ap, ◌∙◌, ◌⊎◌,
  inl, inr, ◌↔◌, ◌==◌, ◌+◌, arith, is_some, length, >>=-eq-ok,
}
use toaa.Domain.StateMachine.{includes}
use toaa.Domain.StateMachine.Laws.{assert-cases, assert-declared}
use toaa.Domain.Objects.{ObjectId, Timestamp, revise_object_envelope}
use toaa.Domain.Roles.{PendingReason}
use toaa.Domain.Phases.{
  Phase, PhaseState, created, in_progress, pending, delivered, reopened, closed,
  PhaseState-discrete, phase_transitions, needs_steps, parse_phase, enter_phase, move_phase,
  transition_phase,
}

-- A Phase that the schema accepts and whose pending reason is there exactly while it is pending.
pub record IsConsistent (p : Phase) : Type 0 where
  pub materialized : needs_steps p.state ≡ true → length p.step_ids ≢ 0
  pub reasoned : (p.state ≡ pending) ↔ (is_some p.pending_reason ≡ true)

-- The moves of the life cycle.
pub data Edge : PhaseState → PhaseState → Type 0 where
  start : Edge created in_progress
  park_new : Edge created pending
  deliver : Edge in_progress delivered
  park : Edge in_progress pending
  resume : Edge pending in_progress
  close : Edge delivered closed
  reopen : Edge delivered reopened
  restart : Edge reopened in_progress

-- What a Phase needs to enter a state: a reason to wait, and Steps for any other state than the one
-- that it is created in.
abbrev pub MayEnter : Phase → Option PendingReason → PhaseState → Type 0
MayEnter p reason created = Unit
MayEnter p reason pending = is_some reason ≡ true
MayEnter p reason in_progress = p.step_ids ≢ []
MayEnter p reason delivered = p.step_ids ≢ []
MayEnter p reason reopened = p.step_ids ≢ []
MayEnter p reason closed = p.step_ids ≢ []

-- Only a Phase that waits keeps a reason.
abbrev pub kept_reason : Option PendingReason → PhaseState → Option PendingReason
kept_reason reason pending = reason
kept_reason reason _ = none

-- The Phase in its next state: one revision later, and all else as before.
abbrev pub moved : Phase → PhaseState → Option PendingReason → Timestamp → Phase
moved p next reason now = record p {
  envelope = record p.envelope { revision = p.revision + 1; updated_at = now };
  state = next;
  pending_reason = kept_reason reason next;
}

declared-Edge :
    (s n : PhaseState) → includes PhaseState-discrete (phase_transitions s) n ≡ true → Edge s n
unfolding phase_transitions PhaseState-discrete
declared-Edge created in_progress h = start
declared-Edge created pending h = park_new
declared-Edge in_progress delivered h = deliver
declared-Edge in_progress pending h = park
declared-Edge pending in_progress h = resume
declared-Edge delivered closed h = close
declared-Edge delivered reopened h = reopen
declared-Edge reopened in_progress h = restart
declared-Edge _ _ h = cc

Edge-declared :
    {s n : PhaseState} → Edge s n → includes PhaseState-discrete (phase_transitions s) n ≡ true
unfolding phase_transitions PhaseState-discrete
Edge-declared start = refl
Edge-declared _ = refl

enter-moved :
    (p : Phase) (next : PhaseState) (reason : Option PendingReason) (now : Timestamp)
    → enter_phase p next reason now ≡ moved p next reason now
unfolding PhaseState-discrete revise_object_envelope
enter-moved p pending reason now = refl
enter-moved p _ reason now = refl

has_steps : (ids : List ObjectId) → (length ids == 0) ≡ false → ids ≢ []
has_steps [] h e = absurd (ground arith)
has_steps (id ∷ ids) h e = absurd (ground arith)

steps_given : (ids : List ObjectId) → ids ≢ [] → (length ids == 0) ≡ false
steps_given [] h = absurd (h refl)
steps_given (id ∷ ids) h = ground arith

move-MayEnter :
    (p : Phase) (next : PhaseState) (reason : Option PendingReason) (now : Timestamp) {p' : Phase}
    → move_phase p next reason now ≡ ok p'
    → MayEnter p reason next × (enter_phase p next reason now ≡ p')
unfolding parse_phase PhaseState-discrete
move-MayEnter p created reason now h = (tt, ok-injective h)
move-MayEnter p pending reason now h = (ground arith, ground arith)
move-MayEnter p in_progress reason now h = (has_steps p.step_ids (ground arith), ground arith)
move-MayEnter p delivered reason now h = (has_steps p.step_ids (ground arith), ground arith)
move-MayEnter p reopened reason now h = (has_steps p.step_ids (ground arith), ground arith)
move-MayEnter p closed reason now h = (has_steps p.step_ids (ground arith), ground arith)

MayEnter-move :
    (p : Phase) (next : PhaseState) (reason : Option PendingReason) (now : Timestamp)
    → MayEnter p reason next
    → move_phase p next reason now ≡ ok (enter_phase p next reason now)
unfolding parse_phase PhaseState-discrete
MayEnter-move p created reason now m = refl
MayEnter-move p pending reason now m = ground arith
MayEnter-move p in_progress reason now m = rw (steps_given p.step_ids m) refl
MayEnter-move p delivered reason now m = rw (steps_given p.step_ids m) refl
MayEnter-move p reopened reason now m = rw (steps_given p.step_ids m) refl
MayEnter-move p closed reason now m = rw (steps_given p.step_ids m) refl

transition-cases :
    (p : Phase) (next : PhaseState) (reason : Option PendingReason) (now : Timestamp) {p' : Phase}
    → transition_phase p next reason now ≡ ok p'
    → ((p.state ≡ next) × (p' ≡ p))
      ⊎ (Edge p.state next × MayEnter p reason next × (moved p next reason now ≡ p'))
unfolding transition_phase
transition-cases p next reason now {p'} h =
    let (b, asserted, after) = >>=-eq-ok _ _ h in
    elim (assert-cases PhaseState-discrete phase_transitions _ p.state next asserted) [
      | inl (e, stays) ↦ inl (e, let e' : p ≡ p' = ground arith in sym e')
      | inr (_, declared, moves) ↦
          let entered : move_phase p next reason now ≡ ok p' = ground arith in
          let (may, made) = move-MayEnter p next reason now entered in
          inr (declared-Edge p.state next declared, may, sym (enter-moved p next reason now) ∙ made)
    ]

Edge-transition :
    (p : Phase) (next : PhaseState) (reason : Option PendingReason) (now : Timestamp)
    → p.state ≢ next
    → Edge p.state next
    → MayEnter p reason next
    → transition_phase p next reason now ≡ ok (moved p next reason now)
unfolding transition_phase
Edge-transition p next reason now ne edge may =
    rw
      (assert-declared PhaseState-discrete phase_transitions _ p.state next ne (Edge-declared edge))
      (MayEnter-move p next reason now may ∙ ap (λ q. ok q) (enter-moved p next reason now))

-- A move of a Phase to another state is accepted exactly when it is a move of the life cycle, comes
-- with a reason if it parks the Phase, and finds a Phase that has Steps if it starts, delivers,
-- reopens or closes it. Then the state, the reason, which only a pending Phase keeps, and one revision
-- at the time of the move are all that changes.
pub transition_phase-iff_MayEnter :
    (p p' : Phase) (next : PhaseState) (reason : Option PendingReason) (now : Timestamp)
    → p.state ≢ next
    → (transition_phase p next reason now ≡ ok p')
      ↔ (Edge p.state next × MayEnter p reason next × (moved p next reason now ≡ p'))
transition_phase-iff_MayEnter p p' next reason now ne = (
  λ h. elim (transition-cases p next reason now h) [ inl (e, _) ↦ absurd (ne e) | inr m ↦ m ],
  λ (edge, may, made). Edge-transition p next reason now ne edge may ∙ ap (λ q. ok q) made,
)

steps_counted : (ids : List ObjectId) → ids ≢ [] → length ids ≢ 0
steps_counted ids h e = let given = steps_given ids h in ground arith

moved-IsConsistent :
    (p : Phase) (next : PhaseState) (reason : Option PendingReason) (now : Timestamp)
    → MayEnter p reason next
    → IsConsistent p
    → IsConsistent (moved p next reason now)
moved-IsConsistent p created reason now m c = record {
  materialized = λ e. cc;
  reasoned = (λ e. cc, λ r. cc);
}
moved-IsConsistent p pending reason now m c = record {
  materialized = λ e. cc;
  reasoned = (λ _. m, λ _. refl);
}
moved-IsConsistent p in_progress reason now m c = record {
  materialized = λ _. steps_counted p.step_ids m;
  reasoned = (λ e. cc, λ r. cc);
}
moved-IsConsistent p delivered reason now m c = record {
  materialized = λ _. steps_counted p.step_ids m;
  reasoned = (λ e. cc, λ r. cc);
}
moved-IsConsistent p reopened reason now m c = record {
  materialized = λ _. steps_counted p.step_ids m;
  reasoned = (λ e. cc, λ r. cc);
}
moved-IsConsistent p closed reason now m c = record {
  materialized = λ _. steps_counted p.step_ids m;
  reasoned = (λ e. cc, λ r. cc);
}

-- Every accepted move leaves a consistent Phase consistent.
pub transition_phase-IsConsistent :
    (p : Phase) (next : PhaseState) (reason : Option PendingReason) (now : Timestamp) {p' : Phase}
    → transition_phase p next reason now ≡ ok p'
    → IsConsistent p
    → IsConsistent p'
transition_phase-IsConsistent p next reason now h c = elim (transition-cases p next reason now h) [
  | inl (_, same) ↦ rw same c
  | inr (_, m, made) ↦ rw (← made) (moved-IsConsistent p next reason now m c)
]
