-- ===== src/Domain/Workflow/Issues.antt =====
-- src/domain/workflow/domain_graph.ts: what a validation finds, without the texts of its messages.
use toaa.Base.{Bool, true, false, List, [], ◌∷◌, ◌++◌, ◌≡◌, refl, ◌↔◌, All, Memᴰ}
use toaa.Domain.Objects.{ObjectId}

-- The `code` of a `DomainGraphIssue`.
pub data IssueCode : Type 0 where
  duplicate_id foreign_project missing_reference dependency_cycle : IssueCode
  invalid_v_model invalid_ticket_hierarchy : IssueCode

-- `DomainGraphIssue`
pub record DomainGraphIssue : Type 0 where
  pub code : IssueCode
  pub object_id : ObjectId

-- `if (test) issues.push({ code, objectId })`
abbrev pub issue_if : Bool → IssueCode → ObjectId → List DomainGraphIssue
issue_if true code id = record { code = code; object_id = id } ∷ []
issue_if false code id = []

-- The issues of each item of a loop, one after the other.
abbrev pub each {ℓ} : {A : Type ℓ} → (A → List DomainGraphIssue) → List A → List DomainGraphIssue
each f [] = []
each f (x ∷ xs) = f x ++ each f xs

pub issue_if-nil :
    (test : Bool) (code : IssueCode) (id : ObjectId) → (issue_if test code id ≡ []) ↔ (test ≡ false)
issue_if-nil true code id = (λ e. cc, λ e. cc)
issue_if-nil false code id = (λ e. refl, λ e. refl)

pub append-eq-nil : (xs ys : List DomainGraphIssue) → ((xs ++ ys) ≡ []) ↔ ((xs ≡ []) × (ys ≡ []))
append-eq-nil [] ys = (λ e. (refl, e), λ e. e.1)
append-eq-nil (x ∷ xs) ys = (λ e. cc, λ e. absurd (cc (e.0)))

module _ {A : Type 0} (f : A → List DomainGraphIssue) where
  pub each-eq-nil : (xs : List A) → (each f xs ≡ []) ↔ All (λ x. f x ≡ []) xs
  each-eq-nil [] = (λ e. tt, λ e. refl)
  each-eq-nil (x ∷ xs) = (
    λ e. let (a, b) = (append-eq-nil (f x) (each f xs)).0 e in (a, (each-eq-nil xs).0 b),
    λ (a, b). (append-eq-nil (f x) (each f xs)).1 (a, (each-eq-nil xs).1 b),
  )

-- Two properties that are the same of every item are the same of the list.
module _ {A : Type 0} {P Q : A → Type 0} where
  pub All-iff : (xs : List A) → ((x : A) → Memᴰ x xs → P x ↔ Q x) → All P xs ↔ All Q xs
  All-iff [] same = (λ h. h, λ h. h)
  All-iff (x ∷ xs) same =
      let rest = All-iff xs (λ y i. same y (Memᴰ.tail i)) in
      let here = same x (Memᴰ.head refl) in
      (λ (p, ps). (here.0 p, rest.0 ps), λ (q, qs). (here.1 q, rest.1 qs))

-- Both of two lists of issues are empty.
pub append_iff :
    {P Q : Type 0} (xs ys : List DomainGraphIssue)
    → ((xs ≡ []) ↔ P)
    → ((ys ≡ []) ↔ Q)
    → ((xs ++ ys) ≡ []) ↔ (P × Q)
append_iff xs ys f g = (
  λ e. let (a, b) = (append-eq-nil xs ys).0 e in (f.0 a, g.0 b),
  λ (p, q). (append-eq-nil xs ys).1 (f.1 p, g.1 q),
)

pub append-append_iff :
    {P Q R : Type 0} (xs ys zs : List DomainGraphIssue)
    → ((xs ≡ []) ↔ P)
    → ((ys ≡ []) ↔ Q)
    → ((zs ≡ []) ↔ R)
    → ((xs ++ (ys ++ zs)) ≡ []) ↔ (P × Q × R)
append-append_iff xs ys zs f g h =
    let whole = append_iff xs (ys ++ zs) f (append_iff ys zs g h) in
    (λ e. let (p, (q, r)) = whole.0 e in (p, q, r), λ (p, q, r). whole.1 (p, (q, r)))

-- The same, where the second part is only said of a first part without issues.
pub append-given :
    {P Q : Type 0} (xs ys : List DomainGraphIssue)
    → ((xs ≡ []) ↔ P)
    → (P → (ys ≡ []) ↔ Q)
    → ((xs ++ ys) ≡ []) ↔ (P × Q)
append-given xs ys f g = (
  λ e. let (a, b) = (append-eq-nil xs ys).0 e in let p = f.0 a in (p, (g p).0 b),
  λ (p, q). (append-eq-nil xs ys).1 (f.1 p, (g p).1 q),
)

pub each_iff :
    {A : Type 0} {P : A → Type 0} (f : A → List DomainGraphIssue) (xs : List A)
    → ((x : A) → Memᴰ x xs → (f x ≡ []) ↔ P x)
    → (each f xs ≡ []) ↔ All P xs
each_iff f xs same =
    let whole = each-eq-nil f xs in
    let items = All-iff xs same in (λ e. items.0 (whole.0 e), λ a. whole.1 (items.1 a))

-- No issue is made exactly when the test fails.
pub issue_if_iff :
    {P : Type 0} (test : Bool) (code : IssueCode) (id : ObjectId)
    → ((test ≡ false) ↔ P)
    → (issue_if test code id ≡ []) ↔ P
issue_if_iff test code id f =
    let own = issue_if-nil test code id in (λ e. f.0 (own.0 e), λ p. own.1 (f.1 p))
