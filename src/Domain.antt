-- ===== src/Domain.antt =====
-- src/domain: the persisted objects of a project and the rules that change them.
pub mod StateMachine
pub mod Objects
pub mod Workflow
pub mod Observability
pub mod Roles
pub mod Steps
pub mod Phases
pub mod Projects
pub mod Tickets
pub mod Workspace
pub mod ProjectManagement
