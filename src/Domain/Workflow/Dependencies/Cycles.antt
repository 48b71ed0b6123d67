-- ===== src/Domain/Workflow/Dependencies/Cycles.antt =====
-- src/domain/workflow/domain_graph.ts, validateDependencyGraph: the search finds the cycles.
use toaa.Base.{
  ℕ, zero, suc, ◌+◌, ◌≤◌, ◌<◌, Bool, true, false, not, List, [], ◌∷◌, Option, none, some, ◌==◌,
  keep, length, ◌≡◌, refl, sym, ap, subst, ◌∙◌, inl, inr, ◌↔◌, arith, Memᴰ, Bool-cases,
  Option-cases, some-injective, if◌then◌else◌,
}
use toaa.Domain.Objects.{ObjectId}
use toaa.Domain.Workflow.Dependencies.{has, Marks, visit, find_cycle}
use toaa.Domain.Workflow.Dependencies.Names.{has-Memᴰ}
use toaa.Domain.Workflow.Dependencies.Chains.{
  IsNamed, Grounded, grounded, Leads, one, more, Grounded-acyclic, resolve, resolve-id, resolve-own,
}
use toaa.Domain.Workflow.Dependencies.Runs.{
  Runs, done, gap, hit, pass, on_path, seen, cyclic, clear, visit-Visits,
}

keep-has :
    (id : ObjectId) (ids : List ObjectId) → has id ids ≡ false → keep (λ x. not (x == id)) ids ≡ ids
keep-has id [] h = refl
keep-has id (x ∷ ids) h = ground (arith, keep-has id ids)

module _ {A : Type 0} (id_of : A → ObjectId) (dependencies : A → List ObjectId)
    (objects : List A) where
  abbrev to : ObjectId → Option A
  to = resolve id_of dependencies objects

  abbrev go : ℕ → A → Marks → Bool × Marks
  go fuel = visit id_of dependencies fuel objects

  abbrev AllGrounded : List ObjectId → Type 0
  AllGrounded ids = (id : ObjectId) → Memᴰ id ids → Grounded id_of dependencies objects id

  -- A visit that comes by no cycle leaves the path of the search around it alone.
  Runs-visiting :
      (v : A → Marks → Bool × Marks)
      → ((o : A) (m m' : Marks) → v o m ≡ (false, m') → m'.visiting ≡ m.visiting)
      → (ds : List ObjectId) {m m' : Marks} → Runs id_of dependencies objects v ds m false m'
      → m'.visiting ≡ m.visiting
  Runs-visiting v r [] done = refl
  Runs-visiting v r (d ∷ ds) (gap e rest) = Runs-visiting v r ds rest
  Runs-visiting v r (d ∷ ds) (pass {m = m} {m₁ = m₁} {o = o} e step rest) =
      Runs-visiting v r ds rest ∙ r o m m₁ step

  visit-visiting :
      (fuel : ℕ) (o : A) (m m' : Marks) → go fuel o m ≡ (false, m') → m'.visiting ≡ m.visiting
  unfolding visit
  visit-visiting zero o m m' h = let e : true ≡ false = ap (λ x. x.0) h in cc
  visit-visiting (suc fuel) o m m' h = elim (visit-Visits id_of dependencies objects fuel o m h) [
    | seen e s ↦ ap (λ x. x.visiting) s
    | clear {m₁ = m₁} e runs s ↦
        let inner = Runs-visiting (go fuel) (visit-visiting fuel) (dependencies o) runs in
        ap (λ x. x.visiting) s
        ∙ ap (keep (λ x. not (x == id_of o))) inner
        ∙ ground (arith, keep-has (id_of o) m.visiting e)
  ]

  Runs-Grounded :
      (v : A → Marks → Bool × Marks)
      → ((o : A) (m m' : Marks)
          → to (id_of o) ≡ some o
          → AllGrounded m.visited
          → v o m ≡ (false, m')
          → Grounded id_of dependencies objects (id_of o) × AllGrounded m'.visited)
      → (ds : List ObjectId) {m m' : Marks} → AllGrounded m.visited
      → Runs id_of dependencies objects v ds m false m'
      → AllGrounded ds × AllGrounded m'.visited
  Runs-Grounded v p [] g done = (λ id i. elim i [ ], g)
  Runs-Grounded v p (d ∷ ds) g (gap e rest) =
      let (all, g') = Runs-Grounded v p ds g rest in
      (
        λ id i. elim i [
          | Memᴰ.head s ↦ rw s (grounded (λ o d' e' j. absurd (ground arith)))
          | Memᴰ.tail j ↦ all id j
        ],
        g',
      )
  Runs-Grounded v p (d ∷ ds) g (pass {m = m} {m₁ = m₁} {o = o} e step rest) =
      let (_, named) = resolve-id id_of dependencies objects d e in
      let (first, g₁) = p o m m₁ (resolve-own id_of dependencies objects d e) g step in
      let (all, g') = Runs-Grounded v p ds g₁ rest in
      (λ id i. elim i [ Memᴰ.head s ↦ rw (s, ← named) first | Memᴰ.tail j ↦ all id j ], g')

  visit-Grounded :
      (fuel : ℕ) (o : A) (m m' : Marks)
      → to (id_of o) ≡ some o
      → AllGrounded m.visited
      → go fuel o m ≡ (false, m')
      → Grounded id_of dependencies objects (id_of o) × AllGrounded m'.visited
  unfolding visit
  visit-Grounded zero o m m' named g h = let e : true ≡ false = ap (λ x. x.0) h in cc
  visit-Grounded (suc fuel) o m m' named g h =
      elim (visit-Visits id_of dependencies objects fuel o m h) [
        | seen e s ↦ (g (id_of o) (has-Memᴰ (id_of o) m.visited e), rw s g)
        | clear {m₁ = m₁} e runs s ↦
            let (all, g₁) = Runs-Grounded (go fuel) (visit-Grounded fuel) (dependencies o) g runs in
            let this : Grounded id_of dependencies objects (id_of o) = grounded (λ o' d e' i.
              all d (subst (λ x. Memᴰ d (dependencies x)) (some-injective (sym e' ∙ named)) i)) in
            (this, rw s (λ id i. elim i [ Memᴰ.head same ↦ rw same this | Memᴰ.tail j ↦ g₁ id j ]))
      ]

  abbrev Cycle : Type 0
  Cycle = (c : ObjectId) × Leads id_of dependencies objects c c

  -- How many of the objects are not on the path.
  room : List ObjectId → List A → ℕ
  room path [] = 0
  room path (o ∷ os) = (if has (id_of o) path then 0 else 1) + room path os

  room-le : (path : List ObjectId) (os : List A) → room path os ≤ length os
  unfolding room
  room-le path [] = omega arith
  room-le path (o ∷ os) = ground (arith, room-le path os)

  room-cons_le :
      (id : ObjectId) (path : List ObjectId) (os : List A) → room (id ∷ path) os ≤ room path os
  unfolding room
  room-cons_le id path [] = omega arith
  room-cons_le id path (o ∷ os) = ground (arith, room-cons_le id path os)

  room-cons :
      (path : List ObjectId) (os : List A) {o : A}
      → Memᴰ o os
      → has (id_of o) path ≡ false
      → room (id_of o ∷ path) os < room path os
  unfolding room
  room-cons path [] i h = elim i [ ]
  room-cons path (x ∷ os) {o} (Memᴰ.head s) h =
      let le = room-cons_le (id_of o) path os in rw (← s) (ground arith)
  room-cons path (x ∷ os) {o} (Memᴰ.tail i) h = ground (arith, room-cons path os i h)

  Runs-Cycle :
      (bound : ℕ) (v : A → Marks → Bool × Marks)
      → ((o : A) (m m' : Marks)
          → to (id_of o) ≡ some o
          → ((x : ObjectId) → Memᴰ x m.visiting → Leads id_of dependencies objects x (id_of o))
          → room m.visiting objects < bound
          → v o m ≡ (true, m')
          → Cycle)
      → ((o : A) (m m' : Marks) → v o m ≡ (false, m') → m'.visiting ≡ m.visiting)
      → (ds path : List ObjectId) {m m' : Marks} → m.visiting ≡ path
      → ((x d : ObjectId) → Memᴰ x path → Memᴰ d ds → Leads id_of dependencies objects x d)
      → room path objects < bound
      → Runs id_of dependencies objects v ds m true m'
      → Cycle
  Runs-Cycle bound v p r [] path at leads small runs = elim runs [ ]
  Runs-Cycle bound v p r (d ∷ ds) path at leads small (gap e rest) =
      Runs-Cycle bound v p r ds path at (λ x d' i j. leads x d' i (Memᴰ.tail j)) small rest
  Runs-Cycle bound v p r (d ∷ ds) path {m} {m'} at leads small (hit {o = o} e step) =
      let (_, named) = resolve-id id_of dependencies objects d e in
      p o m m' (resolve-own id_of dependencies objects d e)
        (λ x i. rw named (leads x d (subst (λ l. Memᴰ x l) at i) (Memᴰ.head refl))) (rw at small)
        step
  Runs-Cycle bound v p r (d ∷ ds) path at leads small (pass {m = m} {m₁ = m₁} {o = o} e step rest) =
      Runs-Cycle bound v p r ds path (r o m m₁ step ∙ at) (λ x d' i j. leads x d' i (Memᴰ.tail j))
        small rest

  visit-Cycle :
      (fuel : ℕ) (o : A) (m m' : Marks)
      → to (id_of o) ≡ some o
      → ((x : ObjectId) → Memᴰ x m.visiting → Leads id_of dependencies objects x (id_of o))
      → room m.visiting objects < fuel
      → go fuel o m ≡ (true, m')
      → Cycle
  unfolding visit
  visit-Cycle zero o m m' named path small h = absurd (omega arith)
  visit-Cycle (suc fuel) o m m' named path small h =
      elim (visit-Visits id_of dependencies objects fuel o m h) [
        | on_path e ↦ (id_of o, path (id_of o) (has-Memᴰ (id_of o) m.visiting e))
        | cyclic e runs ↦
            let (known, _) = resolve-id id_of dependencies objects (id_of o) named in
            let less = room-cons m.visiting objects known e in
            Runs-Cycle fuel (go fuel) (visit-Cycle fuel) (visit-visiting fuel) (dependencies o)
              (id_of o ∷ m.visiting) refl
              (λ x d i j. elim i [
                | Memᴰ.head s ↦ rw s (one named j)
                | Memᴰ.tail k ↦ more (path x k) (one named j)
              ])
              (omega (arith, less)) runs
      ]

  find_cycle-Grounded :
      (os : List A) (m : Marks)
      → ((o : A) → Memᴰ o os → to (id_of o) ≡ some o)
      → AllGrounded m.visited
      → find_cycle id_of dependencies objects os m ≡ none
      → (o : A) → Memᴰ o os
      → Grounded id_of dependencies objects (id_of o)
  unfolding find_cycle
  find_cycle-Grounded [] m named g h o i = elim i [ ]
  find_cycle-Grounded (x ∷ os) m named g h o i =
      elim (Bool-cases (go (suc (length objects)) x m).0) [
        | inl t ↦ let k = rw (find_cycle, t) at h in cc
        | inr t ↦
            let m₁ = (go (suc (length objects)) x m).1 in
            let (first, g₁) =
              visit-Grounded (suc (length objects)) x m m₁ (named x (Memᴰ.head refl)) g
                (ap (λ a. (a, m₁)) t) in
            elim i [
              | Memᴰ.head s ↦ rw s first
              | Memᴰ.tail j ↦
                  find_cycle-Grounded os m₁ (λ y k. named y (Memᴰ.tail k)) g₁
                    (rw (find_cycle, t) at h) o j
            ]
      ]

  find_cycle-Cycle :
      (os : List A) (m : Marks) {id : ObjectId}
      → ((o : A) → Memᴰ o os → to (id_of o) ≡ some o)
      → m.visiting ≡ []
      → find_cycle id_of dependencies objects os m ≡ some id
      → Cycle
  unfolding find_cycle
  find_cycle-Cycle [] m named at h = absurd (cc h)
  find_cycle-Cycle (x ∷ os) m named at h = elim (Bool-cases (go (suc (length objects)) x m).0) [
    | inl t ↦
        let m₁ = (go (suc (length objects)) x m).1 in
        let le = room-le m.visiting objects in
        visit-Cycle (suc (length objects)) x m m₁ (named x (Memᴰ.head refl))
          (λ y i. elim (subst (λ l. Memᴰ y l) at i) [ ]) (omega (arith, le)) (ap (λ a. (a, m₁)) t)
    | inr t ↦
        let m₁ = (go (suc (length objects)) x m).1 in
        find_cycle-Cycle os m₁ (λ y k. named y (Memᴰ.tail k))
          (visit-visiting (suc (length objects)) x m m₁ (ap (λ a. (a, m₁)) t) ∙ at)
          (rw (find_cycle, t) at h)
  ]

  -- On objects with ids of their own the search comes by no cycle exactly when every chain of
  -- dependencies from every object ends.
  pub find_cycle-iff_Grounded :
      IsNamed id_of dependencies objects
      → (find_cycle id_of dependencies objects objects (record { visiting = []; visited = [] })
          ≡ none)
        ↔ ((o : A) → Memᴰ o objects → Grounded id_of dependencies objects (id_of o))
  find_cycle-iff_Grounded named =
      let start : Marks = record { visiting = []; visited = [] } in
      (
        find_cycle-Grounded objects start named (λ id i. elim i [ ]),
        λ all. elim (Option-cases (find_cycle id_of dependencies objects objects start)) [
          | inl e ↦ e
          | inr (id, e) ↦
              let (c, cycle) = find_cycle-Cycle objects start named refl e in
              absurd (Grounded-acyclic id_of dependencies objects (anywhere all c) cycle)
        ],
      )
    where
      anywhere :
          ((o : A) → Memᴰ o objects → Grounded id_of dependencies objects (id_of o))
          → (c : ObjectId) → Grounded id_of dependencies objects c
      anywhere all c = elim (Option-cases (to c)) [
        | inl e ↦ grounded (λ o d f i. absurd (ground arith))
        | inr (o, e) ↦
            let (i, own) = resolve-id id_of dependencies objects c e in rw (← own) (all o i)
      ]
