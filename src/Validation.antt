-- ===== src/Validation.antt =====
-- orchestrator/app/jarvis_orchestrator/workflows/validation.py.
pub mod Policy
pub mod Issue
pub mod Expression
pub mod Cycles
pub mod GraphIssues
pub mod FanoutIssues
pub mod Protected
pub mod Sample
mod Tests
