-- ===== src/Kvdb.antt =====
-- kvdb.rs: the key-value database, generic in its storage.
pub mod Types
pub mod Record
pub mod Next
pub mod Sector
pub mod Walk
pub mod Alloc
pub mod Find
pub mod Lookup
pub mod Gc
pub mod Create
pub mod Load
pub mod Api
pub mod Iter
pub mod Tests
