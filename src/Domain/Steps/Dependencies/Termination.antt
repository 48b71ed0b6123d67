-- ===== src/Domain/Steps/Dependencies/Termination.antt =====
-- src/domain/steps/step.ts, stepDependsOn: the search ends, since each Step is expanded once.
use toaa.Base.{
  ℕ, zero, suc, ◌+◌, ◌≤◌, ◌<◌, Bool, true, false, List, [], ◌∷◌, Option, some, ◌≡◌, refl, sym, ap,
  subst, inl, inr, arith, ◌==◌, Memᴰ, Memᴰ-reverse, Bool-cases, Option-cases, length, length-append,
  reverse, ℕ_discrete,
}
use mathlib.Core.List.{reverse-reverse, reverse_aux}
use toaa.Domain.Objects.{ObjectId}
use toaa.Domain.Steps.{Step}
use toaa.Domain.Steps.Dependencies.{StepMap, get_step, has, push, search, weight}

pub length-reverse_aux :
    (xs ys : List ObjectId) → length (reverse_aux xs ys) ≡ length xs + length ys
length-reverse_aux [] ys = omega arith
length-reverse_aux (x ∷ xs) ys = omega (arith, length-reverse_aux xs (x ∷ ys))

length-push :
    (o : Option Step) (step : Step) (rest : List ObjectId)
    → o ≡ some step
    → length (push o rest) ≡ length step.dependency_step_ids + length rest
length-push o step rest e = rw e (
    omega (
      arith,
      length-append (reverse step.dependency_step_ids) rest,
      length-reverse_aux step.dependency_step_ids [],
    ))

pub Memᴰ-reversed : (xs : List ObjectId) {x : ObjectId} → Memᴰ x xs → Memᴰ x (reverse xs)
Memᴰ-reversed xs {x} i =
    Memᴰ-reverse (reverse xs) (subst (λ ys. Memᴰ x ys) (sym (reverse-reverse xs)) i)

weight-cons :
    (id : ObjectId) (seen : List ObjectId) (m : StepMap) → weight (id ∷ seen) m ≤ weight seen m
unfolding weight
weight-cons id seen [] = omega arith
weight-cons id seen ((k, s) ∷ m) = let ih = weight-cons id seen m in ground arith

-- A Step that is expanded takes its dependencies out of the weight.
weight-drop :
    (id : ObjectId) (seen : List ObjectId) (m : StepMap) {step : Step}
    → has id seen ≡ false
    → get_step id m ≡ some step
    → weight (id ∷ seen) m + length step.dependency_step_ids ≤ weight seen m
unfolding weight ℕ_discrete
weight-drop id seen [] h e = cc
weight-drop id seen ((k, s) ∷ m) {step} h e = elim (ℕ_discrete k id) [
  | yes same ↦
      let found : s ≡ step = ground arith in
      let size : length s.dependency_step_ids ≡ length step.dependency_step_ids =
        ap (λ x. length x.dependency_step_ids) found in
      let rest = weight-cons id seen m in
      let unseen : has k seen ≡ false = rw same h in
      let marked : has k (id ∷ seen) ≡ true = ground arith in
      rw (marked, unseen) (omega (arith, rest, size))
  | no ne ↦
      let later : get_step id m ≡ some step = ground arith in
      let rest = weight-drop id seen m h later in
      let apart : has k (id ∷ seen) ≡ has k seen = ground arith in rw apart (omega (arith, rest))
]

push-weight :
    (id : ObjectId) (seen rest : List ObjectId) (m : StepMap)
    → has id seen ≡ false
    → length (push (get_step id m) rest) + weight (id ∷ seen) m ≤ length rest + weight seen m
push-weight id seen rest m h = elim (Option-cases (get_step id m)) [
  | inl e ↦ rw e (let less = weight-cons id seen m in omega (arith, less))
  | inr (step, e) ↦
      let size = length-push (get_step id m) step rest e in
      let less = weight-drop id seen m h e in omega (arith, size, less)
]

-- With more fuel than the frontier and the unseen dependencies together the search ends.
pub search-total :
    (fuel : ℕ) (m : StepMap) (ancestor : ObjectId) (seen frontier : List ObjectId)
    → length frontier + weight seen m < fuel
    → (b : Bool) × (search fuel m ancestor seen frontier ≡ some b)
unfolding search
search-total zero m a seen frontier h = absurd (omega arith)
search-total (suc fuel) m a seen [] h = (false, refl)
search-total (suc fuel) m a seen (id ∷ rest) h = elim (Bool-cases (id == a)) [
  | inl e ↦ (true, rw (search, e) refl)
  | inr e ↦ elim (Bool-cases (has id seen)) [
    | inl f ↦ let (b, r) = search-total fuel m a seen rest (omega arith) in (b, rw (search, e, f) r)
    | inr f ↦
        let (b, r) =
          search-total fuel m a (id ∷ seen) (push (get_step id m) rest)
            (let less = push-weight id seen rest m f in omega (arith, less)) in
        (b, rw (search, e, f) r)
  ]
]
