-- ===== src/Domain/Workspace/MergeRequest/Gates.antt =====
-- src/domain/workspace/merge_request.ts: what a gate's verdict means.
use toaa.Base.{
  Bool, true, false, not, ◌&&◌, List, [], ◌∷◌, all, any, Memᴰ, any-Memᴰ, Memᴰ-any, all-Memᴰ, ◌≡◌,
  ◌≢◌, ◌⊎◌, inl, inr, refl, arith, Bool-cases,
}
use toaa.Domain.Workspace.MergeRequest.{
  GateCheckResult, GateRunStatus, passed, failed, infrastructure_failed, infrastructure,
  is_infrastructure, gate_outcome,
}

-- A failed check that says nothing of the project.
abbrev pub IsOutage : GateCheckResult → Type 0
IsOutage c = (c.passes ≡ false) × (c.kind ≡ infrastructure)

abbrev is_outage : GateCheckResult → Bool
is_outage c = not c.passes && is_infrastructure c.kind

infrastructure-IsOutage : (c : GateCheckResult) → is_outage c ≡ true → IsOutage c
infrastructure-IsOutage c h = ground arith

IsOutage-outage : (c : GateCheckResult) → IsOutage c → is_outage c ≡ true
IsOutage-outage c h = ground arith

-- What each verdict says of the checks that it was reached from. No other verdict is possible.
abbrev pub Means : GateRunStatus → List GateCheckResult → Type 0
Means passed checks = (checks ≢ []) × ((c : GateCheckResult) → Memᴰ c checks → c.passes ≡ true)
Means infrastructure_failed checks = (c : GateCheckResult) × Memᴰ c checks × IsOutage c
Means failed checks =
    (checks ≡ [])
    ⊎ ((c : GateCheckResult) × Memᴰ c checks × (c.passes ≡ false))
      × ((c : GateCheckResult) → Memᴰ c checks → ¬ IsOutage c)
Means _ checks = ⊥

not_all-Memᴰ :
    (checks : List GateCheckResult)
    → all (λ c. c.passes) checks ≡ false
    → (c : GateCheckResult) × Memᴰ c checks × (c.passes ≡ false)
not_all-Memᴰ [] h = absurd (ground arith)
not_all-Memᴰ (c ∷ cs) h = elim (Bool-cases c.passes) [
  | inl e ↦ let (d, i, f) = not_all-Memᴰ cs (rw e at h) in (d, Memᴰ.tail i, f)
  | inr f ↦ (c, Memᴰ.head refl, f)
]

-- The verdict of a gate means what its name says: it passes only on a non-empty set of checks that
-- all passed, it reports an outage exactly when some check failed on the infrastructure, and it
-- fails otherwise.
pub gate_outcome-Means : (checks : List GateCheckResult) → Means (gate_outcome checks) checks
unfolding gate_outcome
gate_outcome-Means [] = inl refl
gate_outcome-Means (x ∷ xs) = elim (Bool-cases (any is_outage (x ∷ xs))) [
  | inl out ↦
      rw out
        (let (c, i, e) = any-Memᴰ is_outage (x ∷ xs) out in (c, i, infrastructure-IsOutage c e))
  | inr calm ↦ rw calm (elim (Bool-cases (all (λ c. c.passes) (x ∷ xs))) [
    | inl good ↦ rw good (λ e. ground arith, λ c i. all-Memᴰ (λ c. c.passes) (x ∷ xs) good i)
    | inr bad ↦ rw bad (inr (not_all-Memᴰ (x ∷ xs) bad, excluded calm))
  ])
]
  where
    excluded :
        any is_outage (x ∷ xs) ≡ false → (c : GateCheckResult) → Memᴰ c (x ∷ xs) → ¬ IsOutage c
    excluded calm c i o = ground (arith, Memᴰ-any is_outage (x ∷ xs) i (IsOutage-outage c o))
