-- ===== src/Contracts.antt =====
-- packages/contracts/src/jarvis_contracts: the enumerations and records that the workflow
-- validator, the compiler and the runtime exchange.
pub mod Failures
pub mod Classification
pub mod Json
pub mod Registry
pub mod Samples
pub mod Workflow
