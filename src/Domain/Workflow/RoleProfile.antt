-- ===== src/Domain/Workflow/RoleProfile.antt =====
-- src/domain/workflow/role_profile.ts: what each role can do, and what each Step demands.
pub mod Coverage
use toaa.Base.{
  Bool, true, false, List, [], ◌∷◌, ◌++◌, Option, none, some, String, String-discrete, any, same,
  if◌then◌else◌,
}
use toaa.Domain.Roles.{
  DomainRole, project_manager, requirements_engineer, system_engineer, integrator, developer,
  tester, Role, executing, managing, ExecutingRole,
}
use toaa.Domain.Steps.{
  StepType, requirement_analysis, high_level_design, detailed_design, code, unit_test,
  integration_test, module_test, functional_test,
}
use toaa.Domain.Tickets.Types.{TicketType, epic, story, task, bug, enhancement, change_request}

-- `Array.includes` on texts.
unfoldable pub includes_text : List String → String → Bool
unfolding String-discrete
includes_text texts text = any (λ other. same String-discrete other text) texts

-- `ROLE_CAPABILITIES` and `capabilitiesForRole`
abbrev pub capabilities_for_role : DomainRole → List String
capabilities_for_role project_manager =
    "project-management" ∷ "phase-control" ∷ "ticket-routing" ∷ "delivery-control" ∷ []
capabilities_for_role requirements_engineer = "requirement-analysis" ∷ "functional-test-design" ∷ []
capabilities_for_role system_engineer =
    "high-level-design" ∷ "detailed-design" ∷ "module-test-design" ∷ "integration-test-design" ∷ []
capabilities_for_role integrator =
    "integration-verification" ∷ "contract-verification" ∷ "risk-test-supplement" ∷ []
capabilities_for_role developer =
    "code" ∷ "unit-test-design" ∷ "debug" ∷ "change-implementation" ∷ []
capabilities_for_role tester =
    "unit-verification" ∷ "module-verification" ∷ "functional-verification" ∷ "risk-test-supplement"
    ∷ []

-- `STEP_CAPABILITIES`
abbrev pub step_capabilities : StepType → List String
step_capabilities requirement_analysis = "requirement-analysis" ∷ "functional-test-design" ∷ []
step_capabilities high_level_design = "high-level-design" ∷ "module-test-design" ∷ []
step_capabilities detailed_design = "detailed-design" ∷ "integration-test-design" ∷ []
step_capabilities code = "code" ∷ "unit-test-design" ∷ []
step_capabilities functional_test = "functional-verification" ∷ "risk-test-supplement" ∷ []
step_capabilities module_test = "module-verification" ∷ "risk-test-supplement" ∷ []
step_capabilities integration_test =
    "integration-verification" ∷ "contract-verification" ∷ "risk-test-supplement" ∷ []
step_capabilities unit_test = "unit-verification" ∷ "risk-test-supplement" ∷ []

-- `TICKET_TYPE_CAPABILITY`
abbrev pub ticket_type_capability : TicketType → Option String
ticket_type_capability bug = some "debug"
ticket_type_capability change_request = some "change-implementation"
ticket_type_capability _ = none

-- `roleForStepType`
unfoldable pub role_for_step_type : StepType → DomainRole
role_for_step_type requirement_analysis = requirements_engineer
role_for_step_type high_level_design = system_engineer
role_for_step_type detailed_design = system_engineer
role_for_step_type code = developer
role_for_step_type integration_test = integrator
role_for_step_type unit_test = tester
role_for_step_type module_test = tester
role_for_step_type functional_test = tester

-- `mode && declared.includes(mode) ? [mode] : []`
unfoldable pub extra : List String → Option String → List String
unfolding includes_text
extra declared none = []
extra declared (some mode) = if includes_text declared mode then mode ∷ [] else []

abbrev pub mode_of : Option TicketType → Option String
mode_of none = none
mode_of (some type) = ticket_type_capability type

-- `capabilitiesForStep`
unfoldable pub capabilities_for_step : StepType → Option TicketType → List String
unfolding role_for_step_type extra
capabilities_for_step type ticket_type =
    step_capabilities type
    ++ extra (capabilities_for_role (role_for_step_type type)) (mode_of ticket_type)

-- `defaultAgentForRole`
abbrev pub default_agent_for_role : DomainRole → Role
default_agent_for_role project_manager = managing
default_agent_for_role system_engineer = executing ExecutingRole.architect
default_agent_for_role developer = executing ExecutingRole.coder
default_agent_for_role integrator = executing ExecutingRole.tester
default_agent_for_role tester = executing ExecutingRole.tester
default_agent_for_role requirements_engineer = executing ExecutingRole.planner

-- `supportedTicketTypesForRole`
abbrev pub supported_ticket_types_for_role : DomainRole → List TicketType
supported_ticket_types_for_role project_manager = epic ∷ story ∷ []
supported_ticket_types_for_role _ = story ∷ task ∷ bug ∷ enhancement ∷ change_request ∷ []
