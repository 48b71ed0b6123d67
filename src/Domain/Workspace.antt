-- ===== src/Domain/Workspace.antt =====
-- src/domain/workspace: what a project contributes to its mainline.
pub mod MergeRequest
pub mod ChangeSet
