-- ===== src/Translator/Connection.antt =====
-- sv1/downstream: the connection of a miner.
mod Validation
mod Methods
mod Handlers
pub mod Versions
pub mod Accepted
pub mod Delivery
pub mod Opening
pub mod Forwarding
pub mod Shares
unfoldable pub use Validation.*
unfoldable pub use Methods.*
unfoldable pub use Handlers.*
