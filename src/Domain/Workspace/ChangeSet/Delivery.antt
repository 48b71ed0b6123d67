-- ===== src/Domain/Workspace/ChangeSet/Delivery.antt =====
-- src/domain/workspace/change_set.ts: what lies between a change in development and its merge.
use toaa.Base.{
  none, or_else, true, List, [], ◌∷◌, ok, ◌≡◌, ◌≢◌, refl, ◌⊎◌, inl, inr, ◌∙◌, ◌+◌, arith, >>=-eq-ok,
}
use toaa.Domain.StateMachine.{includes}
use toaa.Domain.StateMachine.Laws.{assert-cases}
use toaa.Domain.StateMachine.Visits.{Visits, done, pass, stop, Visits-tail}
use toaa.Domain.Objects.{Timestamp, revise_object_envelope}
use toaa.Domain.Workspace.ChangeSet.{
  TicketChangeSet, ChangeSetState, developing, reviewing, changes_requested, gate_passed, merged,
  abandoned, ChangeSetState-discrete, change_set_transitions, ChangeSetChanges, ChangeSetRevision,
  apply_changes, transition_change_set, revise_change_set,
}

-- The writes that lead from one version of a change set to another, and the states asked for. A
-- revision is one that names no state.
pub data Writes : TicketChangeSet → List ChangeSetState → TicketChangeSet → Type 0 where
  rest : {s : TicketChangeSet} → Writes s [] s
  move :
      {s s' t : TicketChangeSet} {next : ChangeSetState} {path : List ChangeSetState}
      (changes : ChangeSetChanges) (now : Timestamp)
      → transition_change_set s next changes now ≡ ok s'
      → Writes s' path t
      → Writes s (next ∷ path) t
  revise :
      {s t : TicketChangeSet} {path : List ChangeSetState} (r : ChangeSetRevision) (now : Timestamp)
      → r.state ≡ none
      → Writes (revise_change_set s r now) path t
      → Writes s path t

abbrev pub before_merge : ChangeSetState → List ChangeSetState
before_merge developing = reviewing ∷ gate_passed ∷ merged ∷ []
before_merge changes_requested = reviewing ∷ gate_passed ∷ merged ∷ []
before_merge reviewing = gate_passed ∷ merged ∷ []
before_merge gate_passed = merged ∷ []
before_merge _ = []

-- A declared move leads at most one step nearer to the merge.
declared-Visits :
    (s n : ChangeSetState) {path : List ChangeSetState}
    → includes ChangeSetState-discrete (change_set_transitions s) n ≡ true
    → n ≢ abandoned
    → Visits (before_merge n) path
    → Visits (before_merge s) (n ∷ path)
unfolding change_set_transitions ChangeSetState-discrete
declared-Visits developing reviewing h ne v = stop refl v
declared-Visits reviewing changes_requested h ne v = pass (Visits-tail v)
declared-Visits reviewing gate_passed h ne v = stop refl v
declared-Visits changes_requested developing h ne v = pass v
declared-Visits changes_requested reviewing h ne v = stop refl v
declared-Visits gate_passed merged h ne v = stop refl v
declared-Visits gate_passed reviewing h ne v = pass (Visits-tail v)
declared-Visits _ abandoned h ne v = absurd (ne refl)
declared-Visits _ _ h ne v = cc

abandoned-final :
    (n : ChangeSetState)
    → ¬ (includes ChangeSetState-discrete (change_set_transitions abandoned) n ≡ true)
unfolding change_set_transitions
abandoned-final n h = ground arith

transition-cases :
    (s : TicketChangeSet) (next : ChangeSetState) (changes : ChangeSetChanges) (now : Timestamp)
    {s' : TicketChangeSet}
    → transition_change_set s next changes now ≡ ok s'
    → ((s.state ≡ next) × (s' ≡ s))
      ⊎ ((includes ChangeSetState-discrete (change_set_transitions s.state) next ≡ true)
          × (s'.state ≡ next)
          × (s'.revision ≡ s.revision + 1))
unfolding transition_change_set revise_object_envelope
transition-cases s next changes now h =
    let (b, asserted, after) = >>=-eq-ok _ _ h in
    elim (assert-cases ChangeSetState-discrete change_set_transitions _ s.state next asserted) [
      | inl (e, stays) ↦ inl (e, ground arith)
      | inr (_, declared, moves) ↦ inr (declared, ground arith, ground arith)
    ]

Writes-abandoned :
    {s t : TicketChangeSet} {path : List ChangeSetState}
    → Writes s path t
    → s.state ≡ abandoned
    → t.state ≡ abandoned
unfolding revise_change_set apply_changes
Writes-abandoned rest e = e
Writes-abandoned (move {s} {next} changes now h w) e =
    elim (transition-cases s next changes now h) [
      | inl (_, same) ↦ Writes-abandoned w (rw same e)
      | inr (declared, _, _) ↦ absurd (abandoned-final next (rw e at declared))
    ]
Writes-abandoned (revise r now keeps w) e = Writes-abandoned w (rw keeps e)

-- Whatever moves a change set goes through, with other changes of its fields or without, and whatever
-- revisions that name no state come between, it is merged only after the states that lay between:
-- reviewing and then a passed gate from development or requested changes, and a passed gate from
-- review.
pub Writes-Visits :
    {s t : TicketChangeSet} {path : List ChangeSetState}
    → Writes s path t
    → t.state ≡ merged
    → Visits (before_merge s.state) path
unfolding revise_change_set apply_changes
Writes-Visits (rest {s}) e = rw e done
Writes-Visits (move {s} {next} changes now h w) e = elim (transition-cases s next changes now h) [
  | inl (_, same) ↦ pass (rw same at (Writes-Visits w e))
  | inr (declared, to, _) ↦ elim (ChangeSetState-discrete next abandoned) [
    | yes c ↦ absurd (ground (arith, Writes-abandoned w (to ∙ c)))
    | no ne ↦ declared-Visits s.state next declared ne (rw to at (Writes-Visits w e))
  ]
]
Writes-Visits (revise {s} r now keeps w) e =
    let kept : or_else r.state s.state ≡ s.state = rw keeps refl in rw kept at (Writes-Visits w e)
