-- ===== src/Examples.antt =====
-- The theorems at concrete inputs.
mod Samples
mod Schedules
mod Encodings
mod Caches
mod Checkpoints
mod Histories
mod Selections
mod Selecting
mod Observations
mod Publishing
mod Reconciling
mod Resolving
mod Inventories
mod Receipts
mod Replaying
pub mod Cooldowns
