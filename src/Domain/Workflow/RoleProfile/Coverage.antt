-- ===== src/Domain/Workflow/RoleProfile/Coverage.antt =====
-- src/domain/workflow/role_profile.ts: the role of a Step can do what the Step demands.
use toaa.Base.{
  Bool, true, List, [], ◌∷◌, all, Option, none, some, String, String-discrete, same, same_iff, Memᴰ,
  Memᴰ-append, any-Memᴰ, Memᴰ-any, Bool-cases, inl, inr, ◌≡◌, refl, subst, and_true,
}
use toaa.Domain.Steps.{
  StepType, requirement_analysis, high_level_design, detailed_design, code, unit_test,
  integration_test, module_test, functional_test,
}
use toaa.Domain.Tickets.Types.{TicketType}
use toaa.Domain.Workflow.RoleProfile.{
  includes_text, capabilities_for_role, step_capabilities, role_for_step_type, extra, mode_of,
  capabilities_for_step,
}

pub includes_text-Memᴰ :
    (texts : List String) (text : String) → includes_text texts text ≡ true → Memᴰ text texts
unfolding includes_text
includes_text-Memᴰ texts text h =
    let (other, i, e) = any-Memᴰ (λ other. same String-discrete other text) texts h in
    subst (λ t. Memᴰ t texts) ((same_iff String-discrete other text).0 e) i

pub Memᴰ-includes_text :
    (texts : List String) {text : String} → Memᴰ text texts → includes_text texts text ≡ true
unfolding includes_text
Memᴰ-includes_text texts {text} i =
    Memᴰ-any (λ other. same String-discrete other text) texts i
      ((same_iff String-discrete text text).1 refl)

all-Memᴰ :
    (p : String → Bool) (texts : List String) {text : String}
    → all p texts ≡ true
    → Memᴰ text texts
    → p text ≡ true
all-Memᴰ p [] h i = elim i [ ]
all-Memᴰ p (t ∷ texts) h (Memᴰ.head e) = rw e (and_true (p t) (all p texts) h).0
all-Memᴰ p (t ∷ texts) h (Memᴰ.tail i) = all-Memᴰ p texts (and_true (p t) (all p texts) h).1 i

step_is_covered :
    (type : StepType)
    → all (includes_text (capabilities_for_role (role_for_step_type type))) (step_capabilities type)
      ≡ true
unfolding role_for_step_type includes_text String-discrete Bool-cases
step_is_covered requirement_analysis = refl
step_is_covered high_level_design = refl
step_is_covered detailed_design = refl
step_is_covered code = refl
step_is_covered unit_test = refl
step_is_covered integration_test = refl
step_is_covered module_test = refl
step_is_covered functional_test = refl

extra-Memᴰ :
    (declared : List String) (mode : Option String) {text : String}
    → Memᴰ text (extra declared mode)
    → Memᴰ text declared
unfolding extra
extra-Memᴰ declared none i = elim i [ ]
extra-Memᴰ declared (some mode) i = elim (Bool-cases (includes_text declared mode)) [
  | inl e ↦ elim (rw e at i) [
    | Memᴰ.head same_text ↦ rw same_text (includes_text-Memᴰ declared mode e)
    | Memᴰ.tail j ↦ elim j [ ]
  ]
  | inr e ↦ elim (rw e at i) [ ]
]

-- Whatever a Ticket of any type against a Step demands, the role of the Step declares.
pub capabilities_for_step-Memᴰ :
    (type : StepType) (ticket_type : Option TicketType) {text : String}
    → Memᴰ text (capabilities_for_step type ticket_type)
    → Memᴰ text (capabilities_for_role (role_for_step_type type))
unfolding capabilities_for_step
capabilities_for_step-Memᴰ type ticket_type {text} i =
    let declared = capabilities_for_role (role_for_step_type type) in
    elim (Memᴰ-append (step_capabilities type) (extra declared (mode_of ticket_type)) i) [
      | inl j ↦
          includes_text-Memᴰ declared text
            (all-Memᴰ (includes_text declared) (step_capabilities type) (step_is_covered type) j)
      | inr j ↦ extra-Memᴰ declared (mode_of ticket_type) j
    ]
