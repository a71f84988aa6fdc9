-- ===== src/Translator/Difficulty.antt =====
-- sv1/sv1_server/difficulty_manager.rs.
mod Proposals
mod Upstream
mod SetTarget
pub mod Fairness
pub mod Rounds
pub mod Applied
pub mod Settling
unfoldable pub use Proposals.*
unfoldable pub use Upstream.*
unfoldable pub use SetTarget.*
