-- ===== src/Pool/Open.antt =====
-- channel_manager/mining_message_handler.rs: what the opening of a standard and of an extended
-- channel share, the group channel, and the two handlers.
mod Common
mod Standard
mod Extended
pub mod Replies
unfoldable pub use Common.*
unfoldable pub use Standard.*
unfoldable pub use Extended.*
