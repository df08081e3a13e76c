-- ===== src/Storage.antt =====
-- storage.rs: the `Storage` trait, and what the engine relies on of a backend.
pub mod Bytes
pub mod Laws
pub mod Writes
pub mod Ram
pub mod Sectors
pub mod Files
use flash_db_rust.Base.{ℕ, List, Bool, Cmd, Result}

-- The trait, over the backend's state. `read` also returns the caller's buffer after the call.
pub record Storage (S : Type 0) : Type 0 where
  pub read : ℕ → List ℕ → Cmd S (Result (Unit {0}) × List ℕ)
  pub write : ℕ → List ℕ → Bool → Cmd S (Result (Unit {0}))
  pub erase : ℕ → ℕ → Cmd S (Result (Unit {0}))
