-- ===== src/Domain/Projects/Laws.antt =====
-- src/domain/projects/project.ts: when a change of a Project's state is accepted, and what it keeps.
use toaa.Base.{
  true, List, Option, none, some, ok, ◌≡◌, ◌≢◌, refl, sym, ap, ◌∙◌, ◌⊎◌, inl, inr, ◌↔◌, ◌==◌,
  ==_iff, not, same, ◌&&◌, ◌+◌, arith, is_some, Memᴰ, any-Memᴰ, Memᴰ-any, subst, >>=-eq-ok,
}
use toaa.Domain.StateMachine.{includes}
use toaa.Domain.StateMachine.Laws.{assert-cases, assert-declared}
use toaa.Domain.Objects.{ObjectId, Timestamp, revise_object_envelope}
use toaa.Domain.Roles.{PendingReason}
use toaa.Domain.Projects.{
  Project, ProjectState, created, planning, in_progress, pending, delivered, cancelled, closed,
  ProjectState-discrete, project_transitions, knows_phase, parse_project, enter_project,
  move_project, transition_project,
}

-- A Project that the schema accepts and whose pending reason is there exactly while it is pending.
pub record IsConsistent (p : Project) : Type 0 where
  pub own_id : p.project_id ≡ p.id
  pub current_known : knows_phase p.phase_ids p.current_phase_id ≡ true
  pub reasoned : (p.state ≡ pending) ↔ (is_some p.pending_reason ≡ true)

-- The moves of the life cycle.
pub data Edge : ProjectState → ProjectState → Type 0 where
  plan : Edge created planning
  drop_new : Edge created cancelled
  start : Edge planning in_progress
  park_plan : Edge planning pending
  drop_plan : Edge planning cancelled
  park : Edge in_progress pending
  deliver : Edge in_progress delivered
  drop : Edge in_progress cancelled
  replan_parked : Edge pending planning
  resume : Edge pending in_progress
  drop_parked : Edge pending cancelled
  close : Edge delivered closed
  continue_delivered : Edge delivered in_progress
  replan_delivered : Edge delivered planning
  revive : Edge cancelled planning
  archive : Edge cancelled closed
  replan_closed : Edge closed planning

-- The current Phase of a Project, if it has one, is a Phase of it.
abbrev pub Among : List ObjectId → Option ObjectId → Type 0
Among ids none = Unit
Among ids (some id) = Memᴰ id ids

-- What a Project needs to wait.
abbrev pub GivesReason : Option PendingReason → ProjectState → Type 0
GivesReason reason pending = is_some reason ≡ true
GivesReason reason _ = Unit

-- What a move needs: an edge of the life cycle, a reason to wait, a Project that belongs to itself and
-- a current Phase that is one of its own.
pub record MayEnter (p : Project) (reason : Option PendingReason) (next : ProjectState)
    : Type 0 where
  pub edge : Edge p.state next
  pub reason_given : GivesReason reason next
  pub own_id : p.project_id ≡ p.id
  pub current_among : Among p.phase_ids p.current_phase_id

-- Only a Project that waits keeps a reason.
abbrev pub kept_reason : Option PendingReason → ProjectState → Option PendingReason
kept_reason reason pending = reason
kept_reason reason _ = none

-- The Project in its next state: one revision later, and all else as before.
abbrev pub moved : Project → ProjectState → Option PendingReason → Timestamp → Project
moved p next reason now = record p {
  envelope = record p.envelope { revision = p.revision + 1; updated_at = now };
  state = next;
  pending_reason = kept_reason reason next;
}

declared-Edge :
    (s n : ProjectState)
    → includes ProjectState-discrete (project_transitions s) n ≡ true
    → Edge s n
unfolding project_transitions ProjectState-discrete
declared-Edge created planning h = plan
declared-Edge created cancelled h = drop_new
declared-Edge planning in_progress h = start
declared-Edge planning pending h = park_plan
declared-Edge planning cancelled h = drop_plan
declared-Edge in_progress pending h = park
declared-Edge in_progress delivered h = deliver
declared-Edge in_progress cancelled h = drop
declared-Edge pending planning h = replan_parked
declared-Edge pending in_progress h = resume
declared-Edge pending cancelled h = drop_parked
declared-Edge delivered closed h = close
declared-Edge delivered in_progress h = continue_delivered
declared-Edge delivered planning h = replan_delivered
declared-Edge cancelled planning h = revive
declared-Edge cancelled closed h = archive
declared-Edge closed planning h = replan_closed
declared-Edge _ _ h = cc

Edge-declared :
    {s n : ProjectState}
    → Edge s n
    → includes ProjectState-discrete (project_transitions s) n ≡ true
unfolding project_transitions ProjectState-discrete
Edge-declared plan = refl
Edge-declared _ = refl

knows_phase-Among :
    (ids : List ObjectId) (current : Option ObjectId)
    → knows_phase ids current ≡ true
    → Among ids current
knows_phase-Among ids none h = tt
knows_phase-Among ids (some current) h =
    let (id, among, same) = any-Memᴰ (λ id. id == current) ids h in
    subst (λ x. Memᴰ x ids) ((==_iff id current).0 same) among

Among-knows_phase :
    (ids : List ObjectId) (current : Option ObjectId)
    → Among ids current
    → knows_phase ids current ≡ true
Among-knows_phase ids none h = refl
Among-knows_phase ids (some current) h =
    Memᴰ-any (λ id. id == current) ids h ((==_iff current current).1 refl)

enter-moved :
    (p : Project) (next : ProjectState) (reason : Option PendingReason) (now : Timestamp)
    → enter_project p next reason now ≡ moved p next reason now
unfolding ProjectState-discrete revise_object_envelope
enter-moved p pending reason now = refl
enter-moved p _ reason now = refl

reason_checked :
    (next : ProjectState) (reason : Option PendingReason)
    → (not (same ProjectState-discrete next pending && not (is_some reason)) ≡ true)
      ↔ GivesReason reason next
unfolding ProjectState-discrete
reason_checked pending reason = (λ h. ground arith, λ h. ground arith)
reason_checked _ reason = (λ h. tt, λ h. refl)

move-MayEnter :
    (p : Project) (next : ProjectState) (reason : Option PendingReason) (now : Timestamp)
    {p' : Project}
    → Edge p.state next
    → move_project p next reason now ≡ ok p'
    → MayEnter p reason next × (enter_project p next reason now ≡ p')
unfolding parse_project revise_object_envelope
move-MayEnter p next reason now edge h = (
  record {
    edge = edge;
    reason_given = (reason_checked next reason).0 (ground arith);
    own_id = (==_iff p.project_id p.id).0 (ground arith);
    current_among = knows_phase-Among p.phase_ids p.current_phase_id (ground arith);
  },
  ground arith,
)

MayEnter-move :
    (p : Project) (next : ProjectState) (reason : Option PendingReason) (now : Timestamp)
    → MayEnter p reason next
    → move_project p next reason now ≡ ok (enter_project p next reason now)
unfolding parse_project revise_object_envelope
MayEnter-move p next reason now m =
    rw
      (
        (reason_checked next reason).1 m.reason_given,
        (==_iff p.project_id p.id).1 m.own_id,
        Among-knows_phase p.phase_ids p.current_phase_id m.current_among,
      )
      refl

transition-cases :
    (p : Project) (next : ProjectState) (reason : Option PendingReason) (now : Timestamp)
    {p' : Project}
    → transition_project p next reason now ≡ ok p'
    → ((p.state ≡ next) × (p' ≡ p)) ⊎ (MayEnter p reason next × (moved p next reason now ≡ p'))
unfolding transition_project
transition-cases p next reason now {p'} h =
    let (b, asserted, after) = >>=-eq-ok _ _ h in
    elim (assert-cases ProjectState-discrete project_transitions _ p.state next asserted) [
      | inl (e, stays) ↦ inl (e, let e' : p ≡ p' = ground arith in sym e')
      | inr (_, declared, moves) ↦
          let entered : move_project p next reason now ≡ ok p' = ground arith in
          let (may, made) =
            move-MayEnter p next reason now (declared-Edge p.state next declared) entered in
          inr (may, sym (enter-moved p next reason now) ∙ made)
    ]

MayEnter-transition :
    (p : Project) (next : ProjectState) (reason : Option PendingReason) (now : Timestamp)
    → p.state ≢ next
    → MayEnter p reason next
    → transition_project p next reason now ≡ ok (moved p next reason now)
unfolding transition_project
MayEnter-transition p next reason now ne m =
    rw
      (assert-declared ProjectState-discrete project_transitions _ p.state next ne
        (Edge-declared m.edge))
      (MayEnter-move p next reason now m ∙ ap (λ q. ok q) (enter-moved p next reason now))

-- A move of a Project to another state is accepted exactly when it is a move of the life cycle, comes
-- with a reason if it parks the Project, and the Project belongs to itself and has its current Phase,
-- if there is one, among its Phases. Then the state, the reason, which only a pending Project keeps,
-- and one revision at the time of the move are all that changes.
pub transition_project-iff_MayEnter :
    (p p' : Project) (next : ProjectState) (reason : Option PendingReason) (now : Timestamp)
    → p.state ≢ next
    → (transition_project p next reason now ≡ ok p')
      ↔ (MayEnter p reason next × (moved p next reason now ≡ p'))
transition_project-iff_MayEnter p p' next reason now ne = (
  λ h. elim (transition-cases p next reason now h) [ inl (e, _) ↦ absurd (ne e) | inr m ↦ m ],
  λ (may, made). MayEnter-transition p next reason now ne may ∙ ap (λ q. ok q) made,
)

moved-IsConsistent :
    (p : Project) (next : ProjectState) (reason : Option PendingReason) (now : Timestamp)
    → GivesReason reason next
    → IsConsistent p
    → IsConsistent (moved p next reason now)
moved-IsConsistent p pending reason now m c = record {
  own_id = c.own_id;
  current_known = c.current_known;
  reasoned = (λ _. m, λ _. refl);
}
moved-IsConsistent p _ reason now m c = record {
  own_id = c.own_id;
  current_known = c.current_known;
  reasoned = (λ e. cc, λ r. cc);
}

-- Every accepted move leaves a consistent Project consistent.
pub transition_project-IsConsistent :
    (p : Project) (next : ProjectState) (reason : Option PendingReason) (now : Timestamp)
    {p' : Project}
    → transition_project p next reason now ≡ ok p'
    → IsConsistent p
    → IsConsistent p'
transition_project-IsConsistent p next reason now h c =
    elim (transition-cases p next reason now h) [
      | inl (_, same) ↦ rw same c
      | inr (m, made) ↦ rw (← made) (moved-IsConsistent p next reason now m.reason_given c)
    ]
