-- ===== src/Infrastructure.antt =====
-- src/infrastructure: what keeps the objects.
pub mod ObjectRegistry
