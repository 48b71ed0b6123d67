-- ===== src/Domain/ProjectManagement.antt =====
-- src/domain/project_management: owners of work, assignments and the trace of a Ticket.
pub mod Assignment
pub mod Actor
pub mod Trace
