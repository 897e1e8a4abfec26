-- ===== src/Core/Models.antt =====
-- src/llmmaxxing/core/models.py: the frozen value objects of a policy bundle.
pub mod Legs
pub mod Accounts
pub mod Keys
pub mod Routes
pub mod Ceilings
pub mod Bundles
