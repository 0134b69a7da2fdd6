-- ===== src/Tests.antt =====
-- Runs of the models on concrete inputs.
pub mod Fixtures
pub mod Runs
mod Chains
mod Appends
mod Gates
mod Stores
mod Deletes
mod Protocol
mod Writes
mod Caches
