-- ===== src/Storage/Ram.antt =====
-- storage.rs: `RamStorage`, one vector of bytes.
pub mod Laws
pub mod Tests
use flash_db_rust.Base.{
  ℕ, ◌+◌, List, ◌++◌, Bool, Cmd, Result, ok, err, read_err, write_err, erase_err, length, take,
  drop, replicate, ltb, if◌then◌else◌,
}
use flash_db_rust.Storage.{Storage}

pub record RamStorage : Type 0 where
  pub mem : List ℕ

-- `RamStorage::new`
unfoldable pub new : ℕ → RamStorage
new capacity = record { mem = replicate capacity 0xff }

-- `RamStorage::from_bytes` and `into_bytes`
abbrev pub from_bytes : List ℕ → RamStorage
from_bytes bytes = record { mem = bytes }

abbrev pub into_bytes : RamStorage → List ℕ
into_bytes s = s.mem

unfoldable pub read : ℕ → List ℕ → Cmd RamStorage (Result (Unit {0}) × List ℕ)
read start buf s =
    let end = start + length buf in
    if ltb (length s.mem) end
    then ((err read_err, buf), s)
    else ((ok tt, take (length buf) (drop start s.mem)), s)

unfoldable pub write : ℕ → List ℕ → Bool → Cmd RamStorage (Result (Unit {0}))
write start buf sync s =
    let end = start + length buf in
    if ltb (length s.mem) end
    then (err write_err, s)
    else (ok tt, record { mem = take start s.mem ++ (buf ++ drop end s.mem) })

unfoldable pub erase : ℕ → ℕ → Cmd RamStorage (Result (Unit {0}))
erase start size s =
    let end = start + size in
    if ltb (length s.mem) end
    then (err erase_err, s)
    else (ok tt, record { mem = take start s.mem ++ (replicate size 0xff ++ drop end s.mem) })

-- `impl Storage for RamStorage`
abbrev pub ram : Storage RamStorage
ram = record { read = read; write = write; erase = erase }
