-- ===== src/Delivery.antt =====
-- The delivery plane (src/mind_runtime/delivery): the durable lifecycle of outbound requests, the
-- retry policy, the kill switch, the durable store and the recovery daemon.
pub mod Lifecycle
pub mod Retry
pub mod KillSwitch
pub mod Requests
pub mod Equality
pub mod Rows
pub mod Store
pub mod Recording
pub mod Actions
pub mod Daemon
mod Tests
