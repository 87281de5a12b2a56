-- ===== src/Contracts.antt =====
-- The contract objects of the state plane (src/mind_runtime/contracts): scopes, synchronization
-- fields, state snapshots and their transitions, with the checks that their constructors make.
mod Scopes
mod Sync
mod Snapshots
unfoldable pub use Scopes.*
unfoldable pub use Sync.*
unfoldable pub use Snapshots.*
