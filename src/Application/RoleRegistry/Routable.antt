-- ===== src/Application/RoleRegistry/Routable.antt =====
-- src/application/project_management/role_registry.ts with src/domain/workflow/role_profile.ts and
-- role_definition.ts: whatever the type of a Ticket, the role of its Step can take it.
use toaa.Base.{
  ◌<◌, List, [], ◌∷◌, none, some, same, same_iff, Memᴰ, Memᴰ-keep, inr, ◌≡◌, ◌≢◌, refl, sym, ap,
  ◌∙◌, subst,
}
use toaa.Domain.Roles.{DomainRole}
use toaa.Domain.Steps.{
  Step, StepType, step_types, requirement_analysis, high_level_design, detailed_design, code,
  unit_test, integration_test, module_test, functional_test,
}
use toaa.Domain.Tickets.Types.{TicketType, epic, story, task, bug, enhancement, change_request}
use toaa.Domain.Tickets.Ticket.{Ticket, ticket_type}
use toaa.Domain.ProjectManagement.Actor.{ActorState}
use toaa.Domain.Workflow.RoleProfile.{
  role_for_step_type, capabilities_for_step, supported_ticket_types_for_role,
}
use toaa.Domain.Workflow.RoleProfile.Coverage.{capabilities_for_step-Memᴰ}
use toaa.Domain.Workflow.RoleDefinition.{RoleTemplate, DomainRole-discrete, seed_role_definition}
use toaa.Application.RoleRegistry.{
  RoutingActor, RoutingOptions, requirement_for, routing_requirement, load_of, ineligibility,
}
use toaa.Application.RoleRegistry.Eligibility.{ineligibility_iff}

step_types-Memᴰ : (type : StepType) → Memᴰ type step_types
step_types-Memᴰ requirement_analysis = Memᴰ.head refl
step_types-Memᴰ high_level_design = Memᴰ.tail (Memᴰ.head refl)
step_types-Memᴰ detailed_design = Memᴰ.tail (Memᴰ.tail (Memᴰ.head refl))
step_types-Memᴰ code = Memᴰ.tail (Memᴰ.tail (Memᴰ.tail (Memᴰ.head refl)))
step_types-Memᴰ unit_test = Memᴰ.tail (Memᴰ.tail (Memᴰ.tail (Memᴰ.tail (Memᴰ.head refl))))
step_types-Memᴰ integration_test =
    Memᴰ.tail (Memᴰ.tail (Memᴰ.tail (Memᴰ.tail (Memᴰ.tail (Memᴰ.head refl)))))
step_types-Memᴰ module_test =
    Memᴰ.tail (Memᴰ.tail (Memᴰ.tail (Memᴰ.tail (Memᴰ.tail (Memᴰ.tail (Memᴰ.head refl))))))
step_types-Memᴰ functional_test =
    Memᴰ.tail
      (Memᴰ.tail (Memᴰ.tail (Memᴰ.tail (Memᴰ.tail (Memᴰ.tail (Memᴰ.tail (Memᴰ.head refl)))))))

-- The Tickets of a role that does work.
abbrev work_types : List TicketType
work_types = story ∷ task ∷ bug ∷ enhancement ∷ change_request ∷ []

work_types-Memᴰ : (type : TicketType) → type ≢ epic → Memᴰ type work_types
work_types-Memᴰ epic ne = absurd (ne refl)
work_types-Memᴰ story ne = Memᴰ.head refl
work_types-Memᴰ task ne = Memᴰ.tail (Memᴰ.head refl)
work_types-Memᴰ bug ne = Memᴰ.tail (Memᴰ.tail (Memᴰ.head refl))
work_types-Memᴰ enhancement ne = Memᴰ.tail (Memᴰ.tail (Memᴰ.tail (Memᴰ.head refl)))
work_types-Memᴰ change_request ne = Memᴰ.tail (Memᴰ.tail (Memᴰ.tail (Memᴰ.tail (Memᴰ.head refl))))

supported-work_types :
    (type : StepType) → supported_ticket_types_for_role (role_for_step_type type) ≡ work_types
unfolding role_for_step_type
supported-work_types requirement_analysis = refl
supported-work_types high_level_design = refl
supported-work_types detailed_design = refl
supported-work_types code = refl
supported-work_types unit_test = refl
supported-work_types integration_test = refl
supported-work_types module_test = refl
supported-work_types functional_test = refl

requirement_for-role :
    (type : TicketType) (t : Ticket) (step : Step) {r : DomainRole}
    → t.role ≡ r
    → step.role ≡ r
    → (requirement_for type t step).role ≡ r
unfolding requirement_for
requirement_for-role epic t step e f = e
requirement_for-role story t step e f = e
requirement_for-role task t step e f = e
requirement_for-role bug t step e f = e
requirement_for-role enhancement t step e f = e
requirement_for-role change_request t step e f = f

requirement_for-capabilities :
    (type : TicketType) (t : Ticket) (step : Step)
    → t.required_capabilities ≡ capabilities_for_step step.type (some type)
    → (requirement_for type t step).capabilities ≡ capabilities_for_step step.type (some type)
unfolding requirement_for
requirement_for-capabilities epic t step e = e
requirement_for-capabilities story t step e = e
requirement_for-capabilities task t step e = e
requirement_for-capabilities bug t step e = e
requirement_for-capabilities enhancement t step e = e
requirement_for-capabilities change_request t step e = refl

-- An active actor with room that has the role of a Step, by the definition that the project started
-- from (whatever its overlay), may take every Ticket against the Step that is not an Epic, where the
-- Step has the role of its type and the Ticket demands of its owner that role and the capabilities
-- that the profile says for the Step.
pub ineligibility-seed :
    (c : RoutingActor) (t : Ticket) (step : Step) (options : RoutingOptions)
    (overlay : DomainRole → RoleTemplate)
    → c.definition.content ≡ seed_role_definition (role_for_step_type step.type) overlay
    → c.actor.role ≡ role_for_step_type step.type
    → c.actor.state ≡ ActorState.active
    → load_of c.actor options.ignore_assignment_id < c.actor.capacity
    → step.role ≡ role_for_step_type step.type
    → t.role ≡ role_for_step_type step.type
    → t.required_capabilities ≡ capabilities_for_step step.type (some (ticket_type t))
    → ticket_type t ≢ epic
    → ineligibility c t (some step) options ≡ none
unfolding seed_role_definition routing_requirement
ineligibility-seed c t step options overlay seeded plays works room step_role role demands type =
    let r = role_for_step_type step.type in
    let types = ap (λ d. d.supported_ticket_types) seeded in
    let steps = ap (λ d. d.supported_step_types) seeded in
    let capabilities = ap (λ d. d.capabilities) seeded in
    (ineligibility_iff c t (some step) options).1 (record {
      works = works;
      plays = plays ∙ sym (requirement_for-role (ticket_type t) t step role step_role);
      handles =
          subst (Memᴰ (ticket_type t)) (sym (types ∙ supported-work_types step.type))
            (work_types-Memᴰ (ticket_type t) type);
      takes = inr (
          subst (Memᴰ step.type) (sym steps) (
            Memᴰ-keep (λ other. same DomainRole-discrete (role_for_step_type other) r) step_types
              (step_types-Memᴰ step.type) ((same_iff DomainRole-discrete r r).1 refl)));
      has_room = λ _. room;
      can = λ capability i. subst (Memᴰ capability) (sym capabilities) (
          capabilities_for_step-Memᴰ step.type (some (ticket_type t)) (
            subst (Memᴰ capability) (requirement_for-capabilities (ticket_type t) t step demands)
              i));
    })
