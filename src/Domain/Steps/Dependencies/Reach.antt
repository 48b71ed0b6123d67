-- ===== src/Domain/Steps/Dependencies/Reach.antt =====
-- src/domain/steps/step.ts, stepDependsOn: the search finds what the edges lead to.
use toaa.Base.{
  ℕ, zero, suc, ◌+◌, Bool, true, false, List, [], ◌∷◌, Option, none, some, ◌≡◌, ◌≢◌, refl, ◌∙◌,
  subst, ◌⊎◌, inl, inr, ◌↔◌, arith, ◌==◌, ==_iff, Memᴰ, Memᴰ-append, Memᴰ-append_left,
  Memᴰ-append_right, Memᴰ-reverse, Bool-cases, Option-cases, any-Memᴰ, length, reverse,
}
use toaa.Domain.Objects.{ObjectId}
use toaa.Domain.Steps.{Step}
use toaa.Domain.Steps.Dependencies.Termination.{length-reverse_aux, Memᴰ-reversed, search-total}
use toaa.Domain.Steps.Dependencies.{
  StepMap, get_step, has, push, search, weight, explore, step_depends_on,
}

-- The edges lead from one Step's id to another's.
pub data Reaches (by_id : StepMap) (ancestor : ObjectId) : ObjectId → Type 0 where
  here : {id : ObjectId} → id ≡ ancestor → Reaches by_id ancestor id
  through :
      {id next : ObjectId} {step : Step}
      → get_step id by_id ≡ some step
      → Memᴰ next step.dependency_step_ids
      → Reaches by_id ancestor next
      → Reaches by_id ancestor id

search-Reaches :
    (fuel : ℕ) (m : StepMap) (ancestor : ObjectId) (seen frontier : List ObjectId)
    → search fuel m ancestor seen frontier ≡ some true
    → (id : ObjectId) × Memᴰ id frontier × Reaches m ancestor id
unfolding search
search-Reaches zero m a seen frontier h = cc
search-Reaches (suc fuel) m a seen [] h = cc
search-Reaches (suc fuel) m a seen (id ∷ rest) h = elim (Bool-cases (id == a)) [
  | inl e ↦ (id, Memᴰ.head refl, here ((==_iff id a).0 e))
  | inr e ↦ elim (Bool-cases (has id seen)) [
    | inl f ↦
        let (x, i, r) = search-Reaches fuel m a seen rest (rw (search, e, f) at h) in
        (x, Memᴰ.tail i, r)
    | inr f ↦
        let (x, i, r) =
          search-Reaches fuel m a (id ∷ seen) (push (get_step id m) rest)
            (rw (search, e, f) at h) in
        elim (Option-cases (get_step id m)) [
          | inl none_there ↦ (x, Memᴰ.tail (rw none_there at i), r)
          | inr (step, found) ↦
              elim (Memᴰ-append (reverse step.dependency_step_ids) rest (rw found at i)) [
                | inl j ↦
                    (id, Memᴰ.head refl, through found (Memᴰ-reverse step.dependency_step_ids j) r)
                | inr j ↦ (x, Memᴰ.tail j, r)
              ]
        ]
  ]
]

-- A set of ids that the edges do not lead out of, nor to the ancestor.
pub record IsClosed (m : StepMap) (ancestor : ObjectId) (set : List ObjectId) : Type 0 where
  pub stays :
      (id next : ObjectId) (step : Step)
      → Memᴰ id set
      → get_step id m ≡ some step
      → Memᴰ next step.dependency_step_ids
      → Memᴰ next set × (next ≢ ancestor)

IsClosed-Reaches :
    {m : StepMap} {ancestor id : ObjectId} {set : List ObjectId}
    → IsClosed m ancestor set
    → Memᴰ id set
    → id ≢ ancestor
    → ¬ Reaches m ancestor id
IsClosed-Reaches c i ne (here e) = ne e
IsClosed-Reaches c i ne (through {id} {next} {step} found j r) =
    let (k, apart) = c.stays id next step i found j in IsClosed-Reaches c k apart r

-- Every edge out of what was seen leads to what was seen, and not to the ancestor, or waits on the frontier.
abbrev IsCovered : StepMap → ObjectId → List ObjectId → List ObjectId → Type 0
IsCovered m ancestor seen frontier =
    (id next : ObjectId) (step : Step)
    → Memᴰ id seen
    → get_step id m ≡ some step
    → Memᴰ next step.dependency_step_ids
    → (Memᴰ next seen × (next ≢ ancestor)) ⊎ Memᴰ next frontier

Memᴰ-push_rest :
    (o : Option Step) (rest : List ObjectId) {x : ObjectId} → Memᴰ x rest → Memᴰ x (push o rest)
Memᴰ-push_rest none rest i = i
Memᴰ-push_rest (some step) rest i = Memᴰ-append_right (reverse step.dependency_step_ids) rest i

Memᴰ-push_step :
    (o : Option Step) (step : Step) (rest : List ObjectId) {x : ObjectId}
    → o ≡ some step
    → Memᴰ x step.dependency_step_ids
    → Memᴰ x (push o rest)
Memᴰ-push_step o step rest e i = rw e (
    Memᴰ-append_left (reverse step.dependency_step_ids) rest
      (Memᴰ-reversed step.dependency_step_ids i))

has-Memᴰ : (id : ObjectId) (seen : List ObjectId) → has id seen ≡ true → Memᴰ id seen
has-Memᴰ id seen h =
    let (y, j, named) = any-Memᴰ (λ y. y == id) seen h in
    subst (λ z. Memᴰ z seen) ((==_iff y id).0 named) j

IsCovered-old :
    (m : StepMap) (a x : ObjectId) (seen rest : List ObjectId)
    → x ≢ a
    → Memᴰ x seen
    → IsCovered m a seen (x ∷ rest)
    → IsCovered m a seen rest
IsCovered-old m a x seen rest apart here_too covered id next step i found j =
    elim (covered id next step i found j) [
      | inl k ↦ inl k
      | inr (Memᴰ.head same) ↦ inl (rw same here_too, rw same apart)
      | inr (Memᴰ.tail k) ↦ inr k
    ]

IsCovered-new :
    (m : StepMap) (a x : ObjectId) (seen rest : List ObjectId)
    → x ≢ a
    → IsCovered m a seen (x ∷ rest)
    → IsCovered m a (x ∷ seen) (push (get_step x m) rest)
IsCovered-new m a x seen rest apart covered id next step (Memᴰ.head same) found j =
    inr (Memᴰ-push_step (get_step x m) step rest (rw same at found) j)
IsCovered-new m a x seen rest apart covered id next step (Memᴰ.tail i) found j =
    elim (covered id next step i found j) [
      | inl (k, ne) ↦ inl (Memᴰ.tail k, ne)
      | inr (Memᴰ.head same) ↦ inl (Memᴰ.head same, rw same apart)
      | inr (Memᴰ.tail k) ↦ inr (Memᴰ-push_rest (get_step x m) rest k)
    ]

search-IsClosed :
    (fuel : ℕ) (m : StepMap) (ancestor : ObjectId) (seen frontier : List ObjectId)
    → search fuel m ancestor seen frontier ≡ some false
    → IsCovered m ancestor seen frontier
    → (set : List ObjectId) × IsClosed m ancestor set
      × ((id : ObjectId) → Memᴰ id seen → Memᴰ id set)
      × ((id : ObjectId) → Memᴰ id frontier → Memᴰ id set × (id ≢ ancestor))
unfolding search
search-IsClosed zero m a seen frontier h covered = cc
search-IsClosed (suc fuel) m a seen [] h covered =
    let closed : IsClosed m a seen = record {
      stays = λ id next step i found j. elim (covered id next step i found j) [
        | inl k ↦ k
        | inr k ↦ elim k [ ]
      ];
    } in
    (seen, closed, λ id i. i, λ id i. elim i [ ])
search-IsClosed (suc fuel) m a seen (x ∷ rest) h covered = elim (Bool-cases (x == a)) [
  | inl e ↦ let clash = rw (search, e) at h in cc
  | inr e ↦
      let apart : x ≢ a = λ same. let yes_it = (==_iff x a).1 same in ground arith in
      elim (Bool-cases (has x seen)) [
        | inl f ↦
            let old = has-Memᴰ x seen f in
            let (set, closed, keeps, front) =
              search-IsClosed fuel m a seen rest (rw (search, e, f) at h)
                (IsCovered-old m a x seen rest apart old covered) in
            (
              set,
              closed,
              keeps,
              λ id i. elim i [
                | Memᴰ.head same ↦ rw same (keeps x old, apart)
                | Memᴰ.tail k ↦ front id k
              ],
            )
        | inr f ↦
            let (set, closed, keeps, front) =
              search-IsClosed fuel m a (x ∷ seen) (push (get_step x m) rest)
                (rw (search, e, f) at h) (IsCovered-new m a x seen rest apart covered) in
            (
              set,
              closed,
              λ id i. keeps id (Memᴰ.tail i),
              λ id i. elim i [
                | Memᴰ.head same ↦ rw same (keeps x (Memᴰ.head refl), apart)
                | Memᴰ.tail k ↦ front id (Memᴰ-push_rest (get_step x m) rest k)
              ],
            )
      ]
]

-- The search of `stepDependsOn` ends, whatever cycles there are, and its answer is true exactly when
-- the edges of the map lead from a dependency of the Step to the ancestor, where the map holds no
-- Step with other dependencies under the Step's own id.
pub step_depends_on-iff_Reaches :
    (step : Step) (ancestor : ObjectId) (by_id : StepMap)
    → ((s : Step)
        → get_step step.id by_id ≡ some s
        → s.dependency_step_ids ≡ step.dependency_step_ids)
    → (answer : Bool) × (explore step ancestor by_id ≡ some answer)
      × (step_depends_on step ancestor by_id ≡ answer)
      × ((answer ≡ true)
          ↔ ((id : ObjectId) × Memᴰ id step.dependency_step_ids × Reaches by_id ancestor id))
unfolding explore step_depends_on
step_depends_on-iff_Reaches step a m own =
    let deps = step.dependency_step_ids in
    let fuel = suc (length deps + weight (step.id ∷ []) m) in
    let size = length-reverse_aux deps [] in
    let (b, found) = search-total fuel m a (step.id ∷ []) (reverse deps) (omega (arith, size)) in
    let covered : IsCovered m a (step.id ∷ []) (reverse deps) = λ id next s i at j. elim i [
      | Memᴰ.head same ↦ inr (Memᴰ-reversed deps (rw (own s (rw same at at)) at j))
      | Memᴰ.tail k ↦ elim k [ ]
    ] in
    (
      b,
      found,
      rw found refl,
      (
        λ yes.
            let (id, i, r) =
              search-Reaches fuel m a (step.id ∷ []) (reverse deps) (found ∙ rw yes refl) in
            (id, Memᴰ-reverse deps i, r),
        λ (id, i, r). elim (Bool-cases b) [
          | inl e ↦ e
          | inr e ↦
              let (set, closed, _, front) =
                search-IsClosed fuel m a (step.id ∷ []) (reverse deps) (found ∙ rw e refl)
                  covered in
              let (k, apart) = front id (Memᴰ-reversed deps i) in
              absurd (IsClosed-Reaches closed k apart r)
        ],
      ),
    )
