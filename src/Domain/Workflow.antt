-- ===== src/Domain/Workflow.antt =====
-- src/domain/workflow: the graph of a project.
pub mod Issues
pub mod Dependencies
pub mod DomainGraph
pub mod RoleProfile
pub mod RoleDefinition
