-- ===== src/Application/WorkScheduler.antt =====
-- src/application/project_management/work_scheduler.ts: which work a Phase hands out next.
pub mod Selection
pub mod Dispatch
pub mod Ready
pub mod Fitness
pub mod Corrections
pub mod Soundness
pub mod Completeness
pub mod Priority
pub mod Resume
