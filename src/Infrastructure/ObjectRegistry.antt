-- ===== src/Infrastructure/ObjectRegistry.antt =====
-- src/infrastructure/registry/object_registry.ts: the index of all persisted objects.
pub mod Types
pub mod Events
pub mod Writes
pub mod Ancestors
pub mod Replay
pub mod Snapshots
pub mod Recovery
pub mod Puts
pub mod History
pub mod Forest
pub mod Parents
