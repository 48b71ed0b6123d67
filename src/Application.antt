-- ===== src/Application.antt =====
-- src/application: the services that change the persisted objects.
pub mod TicketTrace
pub mod TicketMoves
pub mod ActorCapacity
pub mod TicketLifecycle
pub mod BlockerEdges
pub mod TicketBlockers
pub mod RoleRegistry
pub mod Repository
pub mod WorkScheduler
