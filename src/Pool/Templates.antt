-- ===== src/Pool/Templates.antt =====
-- channel_manager/template_distribution_message_handler.rs: new templates and previous hashes.
mod Rounds
mod NewTemplate
mod PrevHash
pub mod Addressed
unfoldable pub use Rounds.*
unfoldable pub use NewTemplate.*
unfoldable pub use PrevHash.*
