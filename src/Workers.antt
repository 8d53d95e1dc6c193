-- ===== src/Workers.antt =====
-- orchestrator/app/jarvis_orchestrator/workers: the capacity of worker hosts.
pub mod Rows
pub mod Slots
