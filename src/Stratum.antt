-- ===== src/Stratum.antt =====
-- What the applications use of the Stratum V2 crates, which are not part of the repository.
mod Types
mod Library
mod Messages
pub use Types.*
pub use Library.*
pub use Messages.*
