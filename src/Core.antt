-- ===== src/Core.antt =====
-- src/llmmaxxing/core: pure types, closed vocabularies and state machines.
pub mod Ids
pub mod Reasons
pub mod StateMachines
pub mod Models
mod Samples
