-- ===== src/Gateway/Runtime.antt =====
-- src/llmmaxxing/gateway/runtime_state.py: `AccountRuntime`.
pub mod Circuits
pub mod Requests
pub mod State
pub mod Guards
pub mod Quotas
pub mod Reserve
pub mod Leases
pub mod Recovery
pub mod Views
pub mod Grants
pub mod Passed
pub mod Limits
pub mod Probes
pub mod Finish
pub mod NoSend
pub mod Swaps
pub mod Total
mod Samples
