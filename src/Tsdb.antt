-- ===== src/Tsdb.antt =====
-- tsdb.rs: the time-series database.
pub mod Types
pub mod Sector
pub mod Append
pub mod Frame
pub mod Walk
pub mod Search
pub mod Query
pub mod Init
pub mod Tests
pub mod Examples
