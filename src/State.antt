-- ===== src/State.antt =====
-- The canonical state plane (src/mind_runtime/state): lifecycle vocabulary, validity policies,
-- validity and relevance at an instant, the resolver of effective state and the reconciler.
pub mod Lifecycle
pub mod Definitions
pub mod Validity
pub mod Relevance
pub mod Resolver
pub mod Interpretation
pub mod Records
pub mod Steps
pub mod Reconciler
mod Tests
