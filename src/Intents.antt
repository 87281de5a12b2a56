-- ===== src/Intents.antt =====
-- Cognitive intents (src/mind_runtime/intents): their append-only lifecycle, its two backends, the
-- scheduler that expires and wakes them, and the action policy.
mod Tests
pub mod Records
pub mod Equality
pub mod Backend
pub mod Fits
pub mod Histories
pub mod Lifecycle
pub mod Memory
pub mod Sqlite
pub mod Scheduler
pub mod Permissions
pub mod Policy
pub mod Runs
pub mod Service
pub mod Durable
pub mod Finals
pub mod Moves
pub mod Replays
pub mod Successes
pub mod Expiries
pub mod Ticks
