-- ===== src/Gateway.antt =====
-- src/llmmaxxing/gateway: the single-process inference data plane.
pub mod Fixtures
pub mod Queue
pub mod Runtime
pub mod Permits
pub mod Budget
pub mod Routing
pub mod Breaker
pub mod Auth
pub mod Owner
pub mod Admission
