-- ===== src/Domain/Tickets/Retry.antt =====
-- src/domain/tickets/retry_policy.ts: may a Ticket have another attempt?
pub mod Convergence
use toaa.Base.{
  ℕ, ◌+◌, Bool, true, false, not, ◌&&◌, List, [], ◌∷◌, Option, none, some, String, String-discrete,
  same, leb, or_else, keep, last?, if◌then◌else◌, get, put,
}

-- `AttemptFailureEvidence`
pub record AttemptFailureEvidence : Type 0 where
  pub signature : Option String
  pub category : Option String
  pub toolchain_build_id : Option String
  pub step_context_fingerprint : Option String

-- The texts of `reason`; the third holds the count.
pub data ExtensionReason : Type 0 where
  evidence_predates_build tool_loop : ExtensionReason
  recurred : ℕ → ExtensionReason
  fingerprints_required still_changing : ExtensionReason

-- `AttemptExtensionDecision`
pub record AttemptExtensionDecision : Type 0 where
  pub extend : Bool
  pub reason : ExtensionReason

-- `REPEATED_FAILURE_LIMIT`
abbrev pub repeated_failure_limit : ℕ
repeated_failure_limit = 3

abbrev pub same_text : String → String → Bool
same_text = same String-discrete

-- `currentBuildId === undefined || item.toolchainBuildId === currentBuildId`
abbrev of_build : Option String → Option String → Bool
of_build none recorded = true
of_build (some current) none = false
of_build (some current) (some recorded) = same_text recorded current

-- The same for the Step's instructions, where an unlabelled record counts.
abbrev of_context : Option String → Option String → Bool
of_context none recorded = true
of_context (some current) none = true
of_context (some current) (some recorded) = same_text recorded current

unfoldable pub is_relevant : Option String → Option String → AttemptFailureEvidence → Bool
is_relevant build context item =
    of_build build item.toolchain_build_id && of_context context item.step_context_fingerprint

-- `.map((item) => item.signature).filter((value) => Boolean(value))`: the empty text is dropped too.
unfoldable pub signatures : List AttemptFailureEvidence → List String
signatures [] = []
signatures (item ∷ items) = elim item.signature [
  | none ↦ signatures items
  | some s ↦ if same_text s "" then signatures items else s ∷ signatures items
]

-- The loop over the signatures, with the map `recurrences`. A count that reaches the limit ends it.
unfoldable pub recurrence : List (String × ℕ) → List String → Option ℕ
recurrence recurrences [] = none
recurrence recurrences (s ∷ rest) =
    let count = or_else (get String-discrete s recurrences) 0 + 1 in
    let later = recurrence (put String-discrete s count recurrences) rest in
    if leb repeated_failure_limit count then some count else later

unfoldable pub is_tool_loop : Option AttemptFailureEvidence → Bool
is_tool_loop none = false
is_tool_loop (some item) = elim item.category [ none ↦ false | some c ↦ same_text c "tool_loop" ]

abbrev pub is_empty : {A : Type 0} → List A → Bool
is_empty [] = true
is_empty (x ∷ xs) = false

abbrev decision : Bool → ExtensionReason → AttemptExtensionDecision
decision extend reason = record { extend = extend; reason = reason }

-- What is decided of the relevant evidence.
unfoldable pub evaluate_relevant : List AttemptFailureEvidence → AttemptExtensionDecision
evaluate_relevant relevant =
    if is_tool_loop (last? relevant)
    then decision false tool_loop
    else elim (recurrence [] (signatures relevant)) [
      | some count ↦ decision false (recurred count)
      | none ↦
          if is_empty (signatures relevant)
          then decision false fingerprints_required
          else decision true still_changing
    ]

-- `evaluateAttemptExtension`
unfoldable pub evaluate_attempt_extension :
    List AttemptFailureEvidence → Option String → Option String → AttemptExtensionDecision
unfolding evaluate_relevant
evaluate_attempt_extension evidence build context =
    let relevant = keep (is_relevant build context) evidence in
    if not (is_empty evidence) && is_empty relevant
    then decision true evidence_predates_build
    else evaluate_relevant relevant
