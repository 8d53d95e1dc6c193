-- ===== src/Runtime.antt =====
-- orchestrator/app/jarvis_orchestrator/runtime: the durable run queue.
pub mod Store
pub mod Ownership
pub mod Commands
pub mod Effects
pub mod Approvals
