-- ===== src/Translator.antt =====
-- The translator (miner-apps/translator/src/lib): its SV1 server and the connections of SV1 miners.
mod Core
mod State
mod Sample
mod Tests
pub mod Difficulty
pub mod Connection
pub mod Server
pub use Core.*
pub use State.*
