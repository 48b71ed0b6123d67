-- ===== src/Domain/Tickets.antt =====
-- src/domain/tickets: work items, their life cycle and the rules for another attempt.
pub mod Types
pub mod Ticket
pub mod Transitions
pub mod Retry
pub mod Records
