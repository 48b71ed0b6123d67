-- ===== src/Domain/Roles.antt =====
-- src/domain/workflow: the roles of a project and why work waits.

-- `DOMAIN_ROLES`
pub data DomainRole : Type 0 where
  project_manager requirements_engineer system_engineer integrator developer tester : DomainRole

-- `ExecutingRoleSchema`: `ROLES` without the project manager.
pub data ExecutingRole : Type 0 where
  planner architect coder tester debugger : ExecutingRole

-- `PENDING_REASONS`
pub data PendingReason : Type 0 where
  dependency permission external_service scheduled manual_review : PendingReason
  defect quality_gap duplicate interrupted : PendingReason

-- `ROLES`
pub data Role : Type 0 where
  executing : ExecutingRole → Role
  managing : Role
