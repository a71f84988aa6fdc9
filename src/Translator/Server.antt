-- ===== src/Translator/Server.antt =====
-- sv1/sv1_server/sv1_server.rs: the SV1 server.
mod Opening
mod Jobs
mod Sending
mod Lifecycle
pub mod Miners
pub mod Stale
pub mod Attaching
pub mod RoundTrip
pub mod Registry
unfoldable pub use Opening.*
unfoldable pub use Jobs.*
unfoldable pub use Sending.*
unfoldable pub use Lifecycle.*
