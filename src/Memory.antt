-- ===== src/Memory.antt =====
-- Memory (src/mind_runtime/memory): the overlay of evidence that is not admitted yet.
mod Tests
pub mod Pending
