-- ===== src/Application/RoleRegistry.antt =====
-- src/application/project_management/role_registry.ts: who may be given a Ticket. Of an actor that may
-- not, the first rule that it fails is told, here without the text around it.
pub mod Eligibility
pub mod Routable
use toaa.Base.{
  ℕ, Bool, true, false, not, ◌&&◌, ◌||◌, List, [], ◌∷◌, Option, none, some, String, Result, ok, err,
  ◌>>=◌, ◌>>◌, require, any, keep, same, ◌==◌, leb, length, if◌then◌else◌,
}
use toaa.Domain.Objects.{ObjectId}
use toaa.Domain.Roles.{DomainRole}
use toaa.Domain.Steps.{Step, StepType}
use toaa.Domain.Tickets.Types.{TicketType, change_request}
use toaa.Domain.Tickets.Ticket.{Ticket, ticket_type}
use toaa.Domain.ProjectManagement.Actor.{ActorState, ActorRegistration}
use toaa.Domain.Workflow.RoleProfile.{includes_text, capabilities_for_step}
use toaa.Domain.Workflow.RoleDefinition.{RoleDefinition, DomainRole-discrete}
use toaa.Domain.Workflow.DomainGraph.{StepType-discrete}
use toaa.Application.Repository.{PersistedObject, definition_object, actor_object, RepositoryPort}
use toaa.Application.TicketLifecycle.{LifecycleError, repository, lift, require_actor}

-- `RoutingActor`
pub record RoutingActor : Type 0 where
  pub actor : ActorRegistration
  pub definition : RoleDefinition

-- `RoutingRequirement`
pub record RoutingRequirement : Type 0 where
  pub role : DomainRole
  pub capabilities : List String

-- The options of `ineligibility`.
pub record RoutingOptions : Type 0 where
  pub ignore_assignment_id : Option ObjectId
  pub ignore_capacity : Bool

-- What a Ticket of a type demands at a Step.
unfoldable pub requirement_for : TicketType → Ticket → Step → RoutingRequirement
unfolding capabilities_for_step
requirement_for change_request t step = record {
  role = step.role;
  capabilities = capabilities_for_step step.type (some change_request);
}
requirement_for _ t step = record { role = t.role; capabilities = t.required_capabilities }

-- `routingRequirement`
unfoldable pub routing_requirement : Ticket → Option Step → RoutingRequirement
unfolding requirement_for
routing_requirement t none = record { role = t.role; capabilities = t.required_capabilities }
routing_requirement t (some step) = requirement_for (ticket_type t) t step

-- The rules that an actor can fail.
pub data Ineligibility : Type 0 where
  in_state : ActorState → Ineligibility
  of_role : DomainRole → Ineligibility
  ticket_type_unsupported : TicketType → Ineligibility
  step_type_unsupported : StepType → Ineligibility
  at_capacity : (load capacity : ℕ) → Ineligibility
  missing_capabilities : List String → Ineligibility

unfoldable pub TicketType-discrete : Discrete TicketType
TicketType-discrete = hlevel

abbrev pub is_active : ActorState → Bool
is_active ActorState.active = true
is_active _ = false

abbrev pub no_step_types : List StepType → Bool
no_step_types [] = true
no_step_types (type ∷ types) = false

-- `step && supportedStepTypes.length > 0 && !supportedStepTypes.includes(step.type)`
unfoldable pub refuses_step : List StepType → Option Step → Bool
unfolding StepType-discrete
refuses_step supported none = false
refuses_step supported (some step) =
    not (no_step_types supported)
    && not (any (λ type. same StepType-discrete type step.type) supported)

-- `id !== options.ignoreAssignmentId`
abbrev pub counts : Option ObjectId → ObjectId → Bool
counts none id = true
counts (some ignored) id = not (id == ignored)

-- `load`
abbrev pub load_of : ActorRegistration → Option ObjectId → ℕ
load_of actor ignored = length (keep (counts ignored) actor.active_assignment_ids)

-- `missing`
unfoldable pub missing_of : List String → List String → List String
unfolding includes_text
missing_of required declared = keep (λ capability. not (includes_text declared capability)) required

abbrev pub if_missing : List String → Option Ineligibility
if_missing [] = none
if_missing (c ∷ cs) = some (missing_capabilities (c ∷ cs))

abbrev pub step_type_of : Option Step → Ineligibility → Ineligibility
step_type_of none other = other
step_type_of (some step) other = step_type_unsupported step.type

-- `ineligibility`
unfoldable pub ineligibility :
    RoutingActor → Ticket → Option Step → RoutingOptions → Option Ineligibility
unfolding routing_requirement DomainRole-discrete TicketType-discrete refuses_step missing_of
ineligibility c t step options =
    let required = routing_requirement t step in
    if not (is_active c.actor.state)
    then some (in_state c.actor.state)
    else if not (same DomainRole-discrete c.actor.role required.role)
    then some (of_role c.actor.role)
    else if not (
        any (λ type. same TicketType-discrete type (ticket_type t))
          c.definition.supported_ticket_types)
    then some (ticket_type_unsupported (ticket_type t))
    else if refuses_step c.definition.supported_step_types step
    then some (step_type_of step (ticket_type_unsupported (ticket_type t)))
    else if not options.ignore_capacity
        && leb c.actor.capacity (load_of c.actor options.ignore_assignment_id)
    then some (at_capacity (load_of c.actor options.ignore_assignment_id) c.actor.capacity)
    else if_missing (missing_of required.capabilities c.definition.capabilities)

-- What the registry throws.
pub data RoleError (E : Type 0) : Type 0 where
  lifecycle : LifecycleError E → RoleError E
  not_a_definition : ObjectId → RoleError E
  role_mismatch : (claimed defined : DomainRole) → RoleError E

module _ {E : Type 0} (repo : RepositoryPort E) where
  abbrev pub pass {ℓ} : {A : Type ℓ} → Result (LifecycleError E) A → Result (RoleError E) A
  pass (ok a) = ok a
  pass (err e) = err (lifecycle e)

  abbrev pub as_definition : ObjectId → PersistedObject → Result (RoleError E) RoleDefinition
  as_definition id (definition_object d) = ok d
  as_definition id _ = err (not_a_definition id)

  -- `definitionFor`
  unfoldable pub definition_for : ActorRegistration → Result (RoleError E) RoleDefinition
  unfolding DomainRole-discrete
  definition_for actor = do
    object ← pass (lift repository (repo.read actor.role_definition_id))
    d ← as_definition actor.role_definition_id object
    require (same DomainRole-discrete d.role actor.role) (role_mismatch actor.role d.role)
    ok d

  -- `resolve`
  unfoldable pub resolve : ObjectId → Result (RoleError E) RoutingActor
  unfolding require_actor definition_for
  resolve actor_id = do
    actor ← pass (require_actor repo actor_id)
    definition ← definition_for actor
    ok (record { actor = actor; definition = definition })
