-- ===== src/Pool.antt =====
-- The pool's channel manager and its downstream connections (pool-apps/pool/src/lib).
mod Error
mod State
mod Access
pub mod Shares
pub mod Open
pub mod Requests
pub mod Templates
pub mod Vardiff
pub mod Manager
pub mod Sync
pub mod Isolation
pub mod Connection
mod Sample
mod Tests
pub use Error.*
pub use State.*
pub use Access.*
