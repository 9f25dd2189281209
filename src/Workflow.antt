-- ===== src/Workflow.antt =====
-- internal/workflow
pub mod Errors
pub mod Ident
pub mod Wait
pub mod State
pub mod Event
pub mod Node
pub mod Runner
pub mod Checkpoint
pub mod Store
pub mod Durable
