-- ===== src/Tsdb/Sector/Log.antt =====
-- The logs of a byte array, and reading one.
use flash_db_rust.Base.{ℕ, ◌+◌, ◌≤◌, ◌≡◌, replicate}
use flash_db_rust.Storage.{Storage}
use flash_db_rust.Storage.Bytes.{slice}
use flash_db_rust.Storage.Laws.{IsByteArray}
use flash_db_rust.Tsdb.Types.{Tsl, Tsdb}
use flash_db_rust.Tsdb.Sector.{decode_tsl, read_tsl}

-- The log whose index record stands at `addr`.
unfoldable pub log_at : (ℕ → ℕ) → ℕ → ℕ → Tsl
log_at f max_len addr = decode_tsl max_len (slice f addr 16) addr

module _ {S T : Type 0} (st : Storage S) (arr : IsByteArray st) where
  open arr use {capacity, byte, read_in}

  -- Reading a log inside the medium changes nothing.
  pub read_tsl_lem :
      (addr : ℕ) (db : Tsdb S T)
      → addr + 16 ≤ capacity db.storage
      → read_tsl st addr db ≡ (log_at (byte db.storage) db.max_len addr, db)
  unfolding read_tsl log_at
  read_tsl_lem addr db h = rw (read_in db.storage addr (replicate 16 0) h)
