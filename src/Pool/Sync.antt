-- ===== src/Pool/Sync.antt =====
-- The vardiff map and the channels: which channels have a vardiff state.
pub mod Frame
pub mod Locks
pub mod Shares
pub mod ExtendedShares
pub mod Openings
pub mod ExtendedOpenings
pub mod Requests
pub mod Templates
pub mod Vardiff
pub mod Events
