-- ===== src/Core.antt =====
-- src/core: the parts of the runtime that stand by themselves.
pub mod RwLock
