-- ===== src/Domain/Steps/Dependencies.antt =====
-- src/domain/steps/step.ts, stepDependsOn: whether a Step can only run after another.
pub mod Termination
pub mod Reach
use toaa.Base.{
  ℕ, zero, suc, ◌+◌, Bool, true, false, List, [], ◌∷◌, ◌++◌, Option, none, some, ◌==◌, any, length,
  reverse, get, ℕ_discrete, or_else, if◌then◌else◌,
}
use toaa.Domain.Objects.{ObjectId}
use toaa.Domain.Steps.{Step}

-- `ReadonlyMap<ObjectId, Step>`
abbrev pub StepMap : Type 0
StepMap = List (ObjectId × Step)

abbrev pub get_step : ObjectId → StepMap → Option Step
get_step = get ℕ_discrete

-- `seen.has(id)`
abbrev pub has : ObjectId → List ObjectId → Bool
has id seen = any (λ x. x == id) seen

-- `frontier.push(...dependency.dependencyStepIds)`: the frontier is a stack, its top first.
abbrev pub push : Option Step → List ObjectId → List ObjectId
push none frontier = frontier
push (some step) frontier = reverse step.dependency_step_ids ++ frontier

-- The loop over the frontier, on fuel. `none` says that the fuel did not last.
unfoldable pub search : ℕ → StepMap → ObjectId → List ObjectId → List ObjectId → Option Bool
search zero by_id ancestor seen frontier = none
search (suc fuel) by_id ancestor seen [] = some false
search (suc fuel) by_id ancestor seen (id ∷ frontier) = elim (id == ancestor) [
  | true ↦ some true
  | false ↦ elim (has id seen) [
    | true ↦ search fuel by_id ancestor seen frontier
    | false ↦ search fuel by_id ancestor (id ∷ seen) (push (get_step id by_id) frontier)
  ]
]

-- The number of dependencies that the Steps of the map have together, of those not seen.
unfoldable pub weight : List ObjectId → StepMap → ℕ
weight seen [] = 0
weight seen ((id, step) ∷ steps) =
    (if has id seen then 0 else length step.dependency_step_ids) + weight seen steps

-- The loop from the dependencies of the Step, and what it answers. The fuel counts the rounds: every
-- id on the frontier comes from the Step or from a Step of the map.
unfoldable pub explore : Step → ObjectId → StepMap → Option Bool
unfolding search weight
explore step ancestor by_id =
    search (suc (length step.dependency_step_ids + weight (step.id ∷ []) by_id)) by_id ancestor
      (step.id ∷ []) (reverse step.dependency_step_ids)

-- `stepDependsOn`
unfoldable pub step_depends_on : Step → ObjectId → StepMap → Bool
unfolding explore
step_depends_on step ancestor by_id = or_else (explore step ancestor by_id) false
