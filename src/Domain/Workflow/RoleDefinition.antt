-- ===== src/Domain/Workflow/RoleDefinition.antt =====
-- src/domain/workflow/role_definition.ts: what a role is in a project.
use toaa.Base.{List, [], ◌∷◌, Option, none, String, or_else, same, keep}
use toaa.Domain.Objects.{ObjectEnvelope, Timestamp, revise_object_envelope}
use toaa.Domain.Roles.{
  DomainRole, project_manager, requirements_engineer, system_engineer, integrator, developer,
  tester, Role,
}
use toaa.Domain.Steps.{StepType, step_types}
use toaa.Domain.Tickets.Types.{TicketType}
use toaa.Domain.Workflow.RoleProfile.{
  capabilities_for_role, default_agent_for_role, role_for_step_type,
  supported_ticket_types_for_role,
}

-- The fields of a `RoleDefinition` beside its envelope.
pub record RoleContent : Type 0 where
  pub role : DomainRole
  pub role_prompt : String
  pub capability_prompt : String
  pub capabilities : List String
  pub supported_step_types : List StepType
  pub supported_ticket_types : List TicketType
  pub default_agent : Role
  pub allowed_tools : List String
  pub prohibitions : List String

-- `RoleDefinitionSchema`
pub record RoleDefinition : Type 0 where
  pub envelope : ObjectEnvelope
  pub open envelope use {id, name, revision}
  pub content : RoleContent
  pub open content use *

-- `reviseRoleDefinition`, with the content after the changes.
unfoldable pub revise_role_definition : RoleDefinition → RoleContent → Timestamp → RoleDefinition
revise_role_definition definition content now = record {
  envelope = revise_object_envelope definition.envelope none now;
  content = content;
}

-- An entry of `ROLE_PROMPTS`.
pub record RolePrompts : Type 0 where
  pub role : String
  pub capability : String
  pub prohibitions : List String

-- `ROLE_PROMPTS`
abbrev pub role_prompts : DomainRole → RolePrompts
role_prompts project_manager = record {
  role = "You manage the project: scope, schedule, routing, risk, and delivery gates.";
  capability = "Choose among the commands Domain policy already permits, and record why.";
  prohibitions =
      "Do not author requirements, design, code, or tests on behalf of a professional role."
      ∷ "Do not declare a failed gate successful." ∷ [];
}
role_prompts requirements_engineer = record {
  role =
      "You turn a request into verifiable requirements and own the functional baseline tests paired with acceptance.";
  capability =
      "State observable behaviour and author executable functional baseline cases from it.";
  prohibitions = "Do not implement the solution." ∷ [];
}
role_prompts system_engineer = record {
  role = "You design the system and its modules, and the tests paired with each design level.";
  capability = "Define interfaces, dependencies, and the contracts downstream work must satisfy.";
  prohibitions = "Do not weaken a contract to make an implementation easier." ∷ [];
}
role_prompts integrator = record {
  role = "You verify that independently built parts satisfy their integration contracts.";
  capability =
      "Inspect paired tests, add isolated risk supplements, freeze the suite, and exercise real interfaces.";
  prohibitions = "Do not modify the implementation under verification." ∷ [];
}
role_prompts developer = record {
  role = "You implement the design and repair defects found against it.";
  capability =
      "Write code and unit tests that satisfy the accepted design and acceptance criteria.";
  prohibitions =
      "Do not change accepted tests to make an implementation pass."
      ∷ "Do not expand scope beyond the assigned Ticket." ∷ [];
}
role_prompts tester = record {
  role = "You verify delivered work against its acceptance criteria and report evidence.";
  capability =
      "Inspect paired tests, add isolated risk supplements, freeze the suite, and record measured results.";
  prohibitions = "Do not rewrite source to make a test pass." ∷ [];
}

-- An entry of a `RoleTemplateOverlay`; one that is absent has no field.
pub record RoleTemplate : Type 0 where
  pub role_prompt : Option String
  pub capability_prompt : Option String
  pub prohibitions : Option (List String)
  pub allowed_tools : Option (List String)

unfoldable pub DomainRole-discrete : Discrete DomainRole
DomainRole-discrete = hlevel

-- `seedRoleDefinition`
unfoldable pub seed_role_definition : DomainRole → (DomainRole → RoleTemplate) → RoleContent
unfolding DomainRole-discrete role_for_step_type
seed_role_definition role overlay =
    let prompts = role_prompts role in
    let template = overlay role in
    record {
      role = role;
      role_prompt = or_else template.role_prompt prompts.role;
      capability_prompt = or_else template.capability_prompt prompts.capability;
      capabilities = capabilities_for_role role;
      supported_step_types =
          keep (λ type. same DomainRole-discrete (role_for_step_type type) role) step_types;
      supported_ticket_types = supported_ticket_types_for_role role;
      default_agent = default_agent_for_role role;
      allowed_tools = or_else template.allowed_tools [];
      prohibitions = or_else template.prohibitions prompts.prohibitions;
    }
