-- ===== src/Tests/Routing.antt =====
-- A coder with one seat, the Story of a code Step, and what the registry says of them.
use toaa.Base.{false, [], ◌∷◌, none, some, ◌↔◌, ◌≡◌, ◌≢◌, refl, sym, arith}
use toaa.Domain.Objects.{ObjectType}
use toaa.Domain.Roles.{DomainRole}
use toaa.Domain.Steps.{StepType}
use toaa.Domain.Tickets.Types.{epic}
use toaa.Domain.Tickets.Ticket.{Ticket, ticket_type}
use toaa.Domain.Workflow.RoleProfile.{role_for_step_type, extra, capabilities_for_step}
use toaa.Domain.Workflow.RoleDefinition.{RoleTemplate, DomainRole-discrete, seed_role_definition}
use toaa.Domain.Workflow.DomainGraph.{StepType-discrete}
use toaa.Application.RoleRegistry.{
  RoutingActor, RoutingOptions, at_capacity, TicketType-discrete, requirement_for,
  routing_requirement, refuses_step, ineligibility,
}
use toaa.Application.RoleRegistry.Eligibility.{IsEligible, ineligibility_iff}
use toaa.Application.RoleRegistry.Routable.{ineligibility-seed}
use toaa.Tests.Samples.{envelope_of, code_step, code_story}
use toaa.Tests.Moves.{coder}

abbrev as_is : DomainRole → RoleTemplate
as_is role = record {
  role_prompt = none;
  capability_prompt = none;
  prohibitions = none;
  allowed_tools = none;
}

abbrev candidate : RoutingActor
candidate = record {
  actor = coder;
  definition = record {
    envelope = envelope_of 72 ObjectType.role_definition;
    content = seed_role_definition (role_for_step_type StepType.code) as_is;
  };
}

abbrev demanding : Ticket
demanding = record code_story { required_capabilities = "code" ∷ "unit-test-design" ∷ [] }

abbrev own_work : RoutingOptions
own_work = record { ignore_assignment_id = some 70; ignore_capacity = false }

abbrev other_work : RoutingOptions
other_work = record { ignore_assignment_id = none; ignore_capacity = false }

is_full : ineligibility candidate demanding (some code_step) other_work ≡ some (at_capacity 1 1)
unfolding ineligibility routing_requirement requirement_for seed_role_definition role_for_step_type
    DomainRole-discrete TicketType-discrete StepType-discrete refuses_step
is_full = refl

ineligibility_iff_example :
    (ineligibility candidate demanding (some code_step) other_work ≡ none)
    ↔ IsEligible candidate demanding (some code_step) other_work
ineligibility_iff_example = ineligibility_iff candidate demanding (some code_step) other_work

is_developer : role_for_step_type StepType.code ≡ DomainRole.developer
unfolding role_for_step_type
is_developer = refl

demands :
    demanding.required_capabilities
    ≡ capabilities_for_step code_step.type (some (ticket_type demanding))
unfolding capabilities_for_step role_for_step_type extra
demands = refl

is_no_epic : ticket_type demanding ≢ epic
is_no_epic e = absurd cc

ineligibility-seed_example : ineligibility candidate demanding (some code_step) own_work ≡ none
ineligibility-seed_example =
    ineligibility-seed candidate demanding code_step own_work as_is refl (sym is_developer) refl
      (omega arith) (sym is_developer) (sym is_developer) demands is_no_epic
