-- ===== src/Domain/Workspace/MergeRequest/Routes.antt =====
-- src/domain/workspace/merge_request.ts: the ways to a merge.
use toaa.Base.{true, List, [], ◌∷◌, none, ok, ◌≡◌, ◌≢◌, refl, ◌⊎◌, inl, inr, ◌+◌, arith, >>=-eq-ok}
use toaa.Domain.StateMachine.{includes, assert_state_transition}
use toaa.Domain.StateMachine.Laws.{assert-cases}
use toaa.Domain.StateMachine.Visits.{Visits, done, pass, stop, Visits-tail}
use toaa.Domain.Objects.{Timestamp, revise_object_envelope}
use toaa.Domain.Workspace.MergeRequest.{
  MergeRequest, MergeRequestState, draft, ready, validating, changes_requested, approved, mergeable,
  merged, closed, MergeRequestState-discrete, merge_request_transitions, MergeRequestChanges,
  apply_changes, hop, hops, advance_merge_request, gate_validation_path,
}

-- The states between a state and a merge.
abbrev pub before_merge : MergeRequestState → List MergeRequestState
before_merge draft = ready ∷ validating ∷ approved ∷ mergeable ∷ merged ∷ []
before_merge changes_requested = ready ∷ validating ∷ approved ∷ mergeable ∷ merged ∷ []
before_merge ready = validating ∷ approved ∷ mergeable ∷ merged ∷ []
before_merge validating = approved ∷ mergeable ∷ merged ∷ []
before_merge approved = mergeable ∷ merged ∷ []
before_merge mergeable = merged ∷ []
before_merge _ = []

-- A declared move that is not to the closed state leads at most one step nearer to the merge.
declared-Visits :
    (s n : MergeRequestState) {path : List MergeRequestState}
    → includes MergeRequestState-discrete (merge_request_transitions s) n ≡ true
    → n ≢ closed
    → Visits (before_merge n) path
    → Visits (before_merge s) (n ∷ path)
unfolding merge_request_transitions MergeRequestState-discrete
declared-Visits draft ready h ne v = stop refl v
declared-Visits ready validating h ne v = stop refl v
declared-Visits validating changes_requested h ne v = pass (Visits-tail (Visits-tail v))
declared-Visits validating approved h ne v = stop refl v
declared-Visits validating ready h ne v = pass (Visits-tail v)
declared-Visits changes_requested ready h ne v = stop refl v
declared-Visits approved mergeable h ne v = stop refl v
declared-Visits approved changes_requested h ne v = pass (Visits-tail (Visits-tail (Visits-tail v)))
declared-Visits approved ready h ne v = pass (Visits-tail (Visits-tail v))
declared-Visits mergeable merged h ne v = stop refl v
declared-Visits mergeable ready h ne v = pass (Visits-tail (Visits-tail (Visits-tail v)))
declared-Visits _ closed h ne v = absurd (ne refl)
declared-Visits _ _ h ne v = cc

declared-not_final :
    (s n : MergeRequestState)
    → (s ≡ merged) ⊎ (s ≡ closed)
    → ¬ (includes MergeRequestState-discrete (merge_request_transitions s) n ≡ true)
unfolding merge_request_transitions
declared-not_final s n (inl e) h = ground arith
declared-not_final s n (inr e) h = ground arith

hop-cases :
    (r : MergeRequest) (s n : MergeRequestState) {u : MergeRequestState}
    → hop r s n ≡ ok u
    → ((s ≡ n) × (u ≡ s))
      ⊎ ((includes MergeRequestState-discrete (merge_request_transitions s) n ≡ true) × (u ≡ n))
unfolding hop
hop-cases r s n h =
    let (b, asserted, rest) = >>=-eq-ok _ _ h in
    elim (assert-cases MergeRequestState-discrete merge_request_transitions _ s n asserted) [
      | inl (e, stays) ↦ inl (e, ground arith)
      | inr (_, declared, moves) ↦ inr (declared, ground arith)
    ]

hops-final :
    (r : MergeRequest) (s : MergeRequestState) (path : List MergeRequestState)
    {u : MergeRequestState}
    → (s ≡ merged) ⊎ (s ≡ closed)
    → hops r s path ≡ ok u
    → u ≡ s
unfolding hops
hops-final r s [] f h = ground arith
hops-final r s (n ∷ path) f h =
    let (c, hopped, rest) = >>=-eq-ok (hop r s n) _ h in
    elim (hop-cases r s n hopped) [
      | inl (_, e) ↦ hops-final r s path f (rw e at rest)
      | inr (declared, _) ↦ absurd (declared-not_final s n f declared)
    ]

hops-Visits :
    (r : MergeRequest) (s : MergeRequestState) (path : List MergeRequestState)
    {u : MergeRequestState}
    → hops r s path ≡ ok u
    → u ≡ merged
    → Visits (before_merge s) path
unfolding hops
hops-Visits r s [] h m = let e : s ≡ merged = ground arith in rw e done
hops-Visits r s (n ∷ path) h m =
    let (c, hopped, rest) = >>=-eq-ok (hop r s n) _ h in
    elim (hop-cases r s n hopped) [
      | inl (_, e) ↦ pass (hops-Visits r s path (rw e at rest) m)
      | inr (declared, e) ↦
          let after = rw e at rest in
          elim (MergeRequestState-discrete n closed) [
            | yes c ↦ absurd (ground (arith, hops-final r n path (inr c) after))
            | no ne ↦ declared-Visits s n declared ne (hops-Visits r n path after m)
          ]
    ]

-- A merge request that `advanceMergeRequest` brings to merged has passed, in this order, through
-- every state that still lay between: ready and validating from a draft or requested changes, and
-- in every case approved and mergeable.
pub advance-Visits :
    (r : MergeRequest) (path : List MergeRequestState) (changes : MergeRequestChanges)
    (now : Timestamp) {r' : MergeRequest}
    → advance_merge_request r path changes now ≡ ok r'
    → r'.state ≡ merged
    → Visits (before_merge r.state) path
unfolding advance_merge_request
advance-Visits r path changes now h m =
    let (u, hopped, rest) = >>=-eq-ok (hops r r.state path) _ h in
    hops-Visits r r.state path hopped (ground arith)

validation-hops :
    (r : MergeRequest) (s : MergeRequestState)
    → s ≢ merged
    → s ≢ closed
    → hops r s (gate_validation_path s) ≡ ok validating
unfolding hops hop gate_validation_path merge_request_transitions MergeRequestState-discrete
    assert_state_transition
validation-hops r merged nm nc = absurd (nm refl)
validation-hops r closed nm nc = absurd (nc refl)
validation-hops r _ nm nc = refl

-- From every state that is not final, the path of `gateValidationPath` is accepted and ends in
-- validating, as one write: the revision advances by one whatever the number of hops.
pub advance-gate_validation_path :
    (r : MergeRequest) (changes : MergeRequestChanges) (now : Timestamp)
    → r.state ≢ merged
    → r.state ≢ closed
    → (r' : MergeRequest) × (advance_merge_request r (gate_validation_path r.state) changes now
        ≡ ok r')
      × (r'.state ≡ validating)
      × (r'.revision ≡ r.revision + 1)
unfolding advance_merge_request revise_object_envelope
advance-gate_validation_path r changes now nm nc = (
  record (apply_changes r changes) {
    envelope = revise_object_envelope r.envelope none now;
    state = validating;
  },
  rw (validation-hops r r.state nm nc),
  refl,
  refl,
)

-- A merged or closed merge request cannot be advanced to another state.
pub advance-final :
    (r : MergeRequest) (path : List MergeRequestState) (changes : MergeRequestChanges)
    (now : Timestamp) {r' : MergeRequest}
    → (r.state ≡ merged) ⊎ (r.state ≡ closed)
    → advance_merge_request r path changes now ≡ ok r'
    → r'.state ≡ r.state
unfolding advance_merge_request
advance-final r path changes now final h =
    let (u, hopped, rest) = >>=-eq-ok (hops r r.state path) _ h in
    let stays = hops-final r r.state path final hopped in ground arith
