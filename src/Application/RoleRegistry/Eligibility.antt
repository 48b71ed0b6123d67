-- ===== src/Application/RoleRegistry/Eligibility.antt =====
-- src/application/project_management/role_registry.ts, ineligibility: who qualifies.
use toaa.Base.{
  ℕ, ◌<◌, Bool, true, false, not, ◌&&◌, List, [], ◌∷◌, any, keep, Option, none, some, String, same,
  same_iff, leb, Memᴰ, any-Memᴰ, Memᴰ-any, Memᴰ-keep, keep-Memᴰ, Bool-cases, inl, inr, ◌⊎◌, ◌↔◌,
  if◌then◌else◌, ◌≡◌, refl, arith, subst,
}
use toaa.Domain.Steps.{Step, StepType}
use toaa.Domain.Roles.{DomainRole}
use toaa.Domain.Tickets.Types.{TicketType}
use toaa.Domain.Tickets.Ticket.{Ticket, ticket_type}
use toaa.Domain.ProjectManagement.Actor.{ActorState}
use toaa.Domain.Workflow.RoleProfile.{includes_text}
use toaa.Domain.Workflow.RoleProfile.Coverage.{includes_text-Memᴰ, Memᴰ-includes_text}
use toaa.Domain.Workflow.RoleDefinition.{DomainRole-discrete}
use toaa.Domain.Workflow.DomainGraph.{StepType-discrete}
use toaa.Application.RoleRegistry.{
  RoutingActor, RoutingOptions, Ineligibility, routing_requirement, TicketType-discrete, is_active,
  refuses_step, load_of, missing_of, if_missing, ineligibility,
}

-- The Step is none of the definition's business, or one of its Steps; no Steps are all Steps.
abbrev pub Takes : List StepType → Option Step → Type 0
Takes supported none = Unit
Takes supported (some step) = (supported ≡ []) ⊎ Memᴰ step.type supported

-- What an actor has to satisfy to be given a Ticket.
pub record IsEligible (c : RoutingActor) (t : Ticket) (step : Option Step)
    (options : RoutingOptions) : Type 0 where
  pub works : c.actor.state ≡ ActorState.active
  pub plays : c.actor.role ≡ (routing_requirement t step).role
  pub handles : Memᴰ (ticket_type t) c.definition.supported_ticket_types
  pub takes : Takes c.definition.supported_step_types step
  pub has_room :
      options.ignore_capacity ≡ false
      → load_of c.actor options.ignore_assignment_id < c.actor.capacity
  pub can :
      (capability : String)
      → Memᴰ capability (routing_requirement t step).capabilities
      → Memᴰ capability c.definition.capabilities

-- One rule of a chain of rules: nothing is told exactly when it holds and the rest tells nothing.
rule_iff :
    {P Q : Type 0} (fails : Bool) (told : Ineligibility) (rest : Option Ineligibility)
    → ((fails ≡ false) ↔ P)
    → ((rest ≡ none) ↔ Q)
    → ((if fails then some told else rest) ≡ none) ↔ (P × Q)
rule_iff true told rest f g = (λ e. absurd cc, λ (p, q). absurd (ground (arith, f.1 p)))
rule_iff false told rest f g = (λ e. (f.0 refl, g.0 e), λ (p, q). g.1 q)

not-false : (b : Bool) → (not b ≡ false) ↔ (b ≡ true)
not-false b = ground arith

is_active_iff : (s : ActorState) → (not (is_active s) ≡ false) ↔ (s ≡ ActorState.active)
is_active_iff ActorState.active = (λ e. refl, λ e. refl)
is_active_iff ActorState.paused = (λ e. absurd (ground arith), λ e. absurd cc)
is_active_iff ActorState.unavailable = (λ e. absurd (ground arith), λ e. absurd cc)
is_active_iff ActorState.retired = (λ e. absurd (ground arith), λ e. absurd cc)

any-iff_Memᴰ :
    {A : Type 0} (dec : Discrete A) (xs : List A) (x : A)
    → (any (λ y. same dec y x) xs ≡ true) ↔ Memᴰ x xs
any-iff_Memᴰ dec xs x = (
  λ h.
      let (y, i, e) = any-Memᴰ (λ y. same dec y x) xs h in
      subst (λ z. Memᴰ z xs) ((same_iff dec y x).0 e) i,
  λ i. Memᴰ-any (λ y. same dec y x) xs i ((same_iff dec x x).1 refl),
)

role_iff : (a b : DomainRole) → (not (same DomainRole-discrete a b) ≡ false) ↔ (a ≡ b)
role_iff a b =
    let own = same_iff DomainRole-discrete a b in
    (λ e. own.0 ((not-false _).0 e), λ e. (not-false _).1 (own.1 e))

handles_iff :
    (types : List TicketType) (type : TicketType)
    → (not (any (λ other. same TicketType-discrete other type) types) ≡ false) ↔ Memᴰ type types
handles_iff types type =
    let own = any-iff_Memᴰ TicketType-discrete types type in
    (λ e. own.0 ((not-false _).0 e), λ i. (not-false _).1 (own.1 i))

refuses_step_iff :
    (supported : List StepType) (step : Option Step)
    → (refuses_step supported step ≡ false) ↔ Takes supported step
unfolding refuses_step
refuses_step_iff supported none = (λ e. tt, λ _. refl)
refuses_step_iff [] (some step) = (λ e. inl refl, λ _. refl)
refuses_step_iff (s ∷ ss) (some step) =
    let own = any-iff_Memᴰ StepType-discrete (s ∷ ss) step.type in
    (
      λ e. inr (own.0 ((not-false _).0 e)),
      λ h. elim h [ inl e ↦ absurd cc | inr i ↦ (not-false _).1 (own.1 i) ],
    )

room_iff :
    (ignored : Bool) (capacity load : ℕ)
    → ((not ignored && leb capacity load) ≡ false) ↔ (ignored ≡ false → load < capacity)
room_iff true capacity load = (λ e h. absurd (ground arith), λ h. refl)
room_iff false capacity load = (λ e h. ground arith, λ h. let below = h refl in ground arith)

if_missing-none :
    (xs : List String) → ((c : String) → Memᴰ c xs → true ≡ false) → if_missing xs ≡ none
if_missing-none [] none_in = refl
if_missing-none (x ∷ xs) none_in = let e = none_in x (Memᴰ.head refl) in absurd (ground arith)

if_missing-nil : (xs : List String) → if_missing xs ≡ none → xs ≡ []
if_missing-nil [] h = refl
if_missing-nil (x ∷ xs) h = absurd cc

missing_of_iff :
    (required declared : List String)
    → (if_missing (missing_of required declared) ≡ none)
      ↔ ((capability : String) → Memᴰ capability required → Memᴰ capability declared)
unfolding missing_of
missing_of_iff required declared =
    let lacks = λ (capability : String). not (includes_text declared capability) in
    (
      λ e capability i. elim (Bool-cases (includes_text declared capability)) [
        | inl h ↦ includes_text-Memᴰ declared capability h
        | inr h ↦ elim (rw (if_missing-nil _ e) at (Memᴰ-keep lacks required i (rw h refl))) [ ]
      ],
      λ has. if_missing-none (keep lacks required) (λ capability i.
          let (j, h) = keep-Memᴰ lacks required i in
          ground (arith, Memᴰ-includes_text declared (has capability j))),
    )

-- The registry finds nothing against an actor exactly when the actor is active, has the role, handles
-- the type of the Ticket and the Step, has room for another assignment (unless room is ignored) and
-- can do all that is required.
pub ineligibility_iff :
    (c : RoutingActor) (t : Ticket) (step : Option Step) (options : RoutingOptions)
    → (ineligibility c t step options ≡ none) ↔ IsEligible c t step options
unfolding ineligibility
ineligibility_iff c t step options =
    let required = routing_requirement t step in
    let whole = rule_iff (not (is_active c.actor.state)) _ _ (is_active_iff c.actor.state) (
      rule_iff (not (same DomainRole-discrete c.actor.role required.role)) _ _
        (role_iff c.actor.role required.role)
        (rule_iff
          (not (
            any (λ type. same TicketType-discrete type (ticket_type t))
              c.definition.supported_ticket_types))
          _ _ (handles_iff c.definition.supported_ticket_types (ticket_type t))
          (rule_iff (refuses_step c.definition.supported_step_types step) _ _
            (refuses_step_iff c.definition.supported_step_types step)
            (rule_iff
              (not options.ignore_capacity
                && leb c.actor.capacity (load_of c.actor options.ignore_assignment_id))
              _ _
              (room_iff options.ignore_capacity c.actor.capacity
                (load_of c.actor options.ignore_assignment_id))
              (missing_of_iff required.capabilities c.definition.capabilities))))) in
    (
      λ e.
          let (works, (plays, (handles, (takes, (has_room, can))))) = whole.0 e in
          record {
            works = works;
            plays = plays;
            handles = handles;
            takes = takes;
            has_room = has_room;
            can = can;
          },
      λ x. whole.1 (x.works, (x.plays, (x.handles, (x.takes, (x.has_room, x.can))))),
    )
