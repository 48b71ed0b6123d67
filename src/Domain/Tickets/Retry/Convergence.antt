-- ===== src/Domain/Tickets/Retry/Convergence.antt =====
-- src/domain/tickets/retry_policy.ts: the loop with its map finds what counting would find.
use toaa.Base.{
  ℕ, ◌+◌, ◌≤◌, ◌<◌, true, false, List, [], ◌∷◌, Option, none, some, String, String-discrete, leb,
  or_else, keep, last?, if◌then◌else◌, get, put, get-put, ◌≡◌, ◌≢◌, ◌↔◌, ◌⊎◌, inl, inr, refl, arith,
  Bool-cases, Option-cases, not, ◌&&◌,
}
use toaa.Domain.Tickets.Retry.{
  AttemptFailureEvidence, same_text, repeated_failure_limit, recurrence, signatures, is_relevant,
  is_tool_loop, is_empty, evaluate_relevant, evaluate_attempt_extension,
}

-- How often a text stands in a list.
abbrev pub count : String → List String → ℕ
count s [] = 0
count s (x ∷ xs) = (if same_text x s then 1 else 0) + count s xs

-- The map holds, for each text, how often it was seen.
abbrev Tallies : List (String × ℕ) → (String → ℕ) → Type 0
Tallies m seen = (s : String) → or_else (get String-discrete s m) 0 ≡ seen s

abbrev see : String → (String → ℕ) → String → ℕ
see s seen t = (if same_text s t then 1 else 0) + seen t

Tallies-put :
    (m : List (String × ℕ)) (seen : String → ℕ) (s : String)
    → Tallies m seen
    → Tallies (put String-discrete s (or_else (get String-discrete s m) 0 + 1) m) (see s seen)
Tallies-put m seen s h t =
    ground
      (arith, get-put String-discrete s t (or_else (get String-discrete s m) 0 + 1) m, h s, h t)

recurrence-none :
    (m : List (String × ℕ)) (seen : String → ℕ) (xs : List String)
    → Tallies m seen
    → recurrence m xs ≡ none
    → ((s : String) → seen s < repeated_failure_limit)
    → (s : String) → count s xs + seen s < repeated_failure_limit
unfolding recurrence
recurrence-none m seen [] h e low s = ground (arith, low s)
recurrence-none m seen (x ∷ xs) h e low s =
    let n = or_else (get String-discrete x m) 0 + 1 in
    let m' = put String-discrete x n m in
    elim (Bool-cases (leb repeated_failure_limit n)) [
      | inl over ↦ absurd (ground arith)
      | inr under ↦
          let later : recurrence m' xs ≡ none = ground arith in
          let bound : (t : String) → see x seen t < repeated_failure_limit =
            λ t. ground (arith, low t, h x, h t) in
          let ih = recurrence-none m' (see x seen) xs (Tallies-put m seen x h) later bound s in
          omega (arith, ih)
    ]

recurrence-some :
    (m : List (String × ℕ)) (seen : String → ℕ) (xs : List String) {n : ℕ}
    → Tallies m seen
    → recurrence m xs ≡ some n
    → (s : String) × (repeated_failure_limit ≤ count s xs + seen s)
unfolding recurrence
recurrence-some m seen [] h e = absurd (ground arith)
recurrence-some m seen (x ∷ xs) {n = r} h e =
    let n = or_else (get String-discrete x m) 0 + 1 in
    let m' = put String-discrete x n m in
    elim (Bool-cases (leb repeated_failure_limit n)) [
      | inl over ↦ (x, ground (arith, h x))
      | inr under ↦
          let later : recurrence m' xs ≡ some r = ground arith in
          let (s, many) = recurrence-some m' (see x seen) xs (Tallies-put m seen x h) later in
          (s, omega (arith, many))
    ]

-- No failure stands in the list as often as the limit.
abbrev pub Converges : List String → Type 0
Converges xs = (s : String) → count s xs < repeated_failure_limit

recurrence-Converges : (xs : List String) → (recurrence [] xs ≡ none) ↔ Converges xs
recurrence-Converges xs = (forth, back)
  where
    forth : recurrence [] xs ≡ none → Converges xs
    forth e s =
        let ih = recurrence-none [] (λ _. 0) xs (λ _. refl) e (λ _. omega arith) s in
        omega (arith, ih)

    back : Converges xs → recurrence [] xs ≡ none
    back c = elim (Option-cases (recurrence [] xs)) [
      | inl e ↦ e
      | inr (n, e) ↦
          let (s, many) = recurrence-some [] (λ _. 0) xs (λ _. refl) e in
          absurd (omega (arith, many, c s))
    ]

is_empty_iff : {A : Type 0} (xs : List A) → (is_empty xs ≡ true) ↔ (xs ≡ [])
is_empty_iff [] = ground arith
is_empty_iff (x ∷ xs) = ground arith

evaluate_relevant_iff :
    (relevant : List AttemptFailureEvidence)
    → ((evaluate_relevant relevant).extend ≡ true) ↔ (
        (is_tool_loop (last? relevant) ≡ false)
        × (signatures relevant ≢ [])
        × Converges (signatures relevant))
unfolding evaluate_relevant
evaluate_relevant_iff relevant = (forth, back)
  where
    xs : List String
    xs = signatures relevant

    forth :
        (evaluate_relevant relevant).extend ≡ true
        → (is_tool_loop (last? relevant) ≡ false) × (xs ≢ []) × Converges xs
    forth e =
        (ground arith, ground (arith, is_empty_iff xs), (recurrence-Converges xs).0 (ground arith))

    back :
        (is_tool_loop (last? relevant) ≡ false) × (xs ≢ []) × Converges xs
        → (evaluate_relevant relevant).extend ≡ true
    back (loop, some_signature, c) =
        let calm = (recurrence-Converges xs).1 c in ground (arith, is_empty_iff xs)

-- Another attempt is granted exactly when all recorded evidence is out of date, or when the latest
-- relevant failure is no tool loop, some relevant failure has a signature, and none of the
-- signatures occurs three times among the relevant ones, in a row or not.
pub evaluate_attempt_extension_iff :
    (evidence : List AttemptFailureEvidence) (build context : Option String)
    → let relevant = keep (is_relevant build context) evidence in
      ((evaluate_attempt_extension evidence build context).extend ≡ true) ↔ (
        (evidence ≢ []) × (relevant ≡ [])
        ⊎ (is_tool_loop (last? relevant) ≡ false)
          × (signatures relevant ≢ [])
          × Converges (signatures relevant))
unfolding evaluate_attempt_extension
evaluate_attempt_extension_iff evidence build context =
    let relevant = keep (is_relevant build context) evidence in
    let (forth, back) = evaluate_relevant_iff relevant in
    let dated = is_empty_iff evidence in
    let gone = is_empty_iff relevant in
    elim (Bool-cases (not (is_empty evidence) && is_empty relevant)) [
      | inl out ↦ (λ _. inl (ground arith, ground arith), λ _. rw out)
      | inr current ↦ (
        λ e. inr (forth (rw current at e)),
        elim [
          | inl (some_evidence, none_left) ↦ absurd (ground arith)
          | inr c ↦ rw current (back c)
        ],
      )
    ]
