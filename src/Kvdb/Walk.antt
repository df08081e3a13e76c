-- ===== src/Kvdb/Walk.antt =====
-- kvdb.rs: the two loops that its operations share, over the ring of sectors and over the nodes
-- of a sector. Each operation gives the body of its loop.
pub mod Rules
pub mod Enough
use flash_db_rust.Base.{
  ℕ, zero, suc, ◌+◌, ◌/◌, Bool, true, false, Cmd, Result, pure, gets, ◌>>=◌, wrapping_add, ◌==◌,
  branch, ◌||◌,
}
use flash_db_rust.Def.{failed_addr}
use flash_db_rust.Storage.{Storage}
use flash_db_rust.Kvdb.Types.{Kv, KvSecInfo, Kvdb}
use flash_db_rust.Kvdb.Record.{read_kv}
use flash_db_rust.Kvdb.Next.{get_next_kv_addr}
use flash_db_rust.Kvdb.Sector.{get_next_sector_addr}

-- What a body leaves: whether it ends the loop, the sector that it read, and its variables.
pub record Visit (A : Type 0) : Type 0 where
  pub stop : Bool
  pub sector : KvSecInfo
  pub acc : A

module _ {S A : Type 0} (body : ℕ → A → Cmd (Kvdb S) (Visit A)) where
  unfoldable pub sector_loop : ℕ → ℕ → ℕ → A → Cmd (Kvdb S) A
  sector_loop zero sec_addr traversed_len acc = pure acc
  sector_loop (suc fuel) sec_addr traversed_len acc = do
    sec_size ← gets (λ db. db.sec_size)
    visit ← body sec_addr acc
    max_size ← gets (λ db. db.max_size)
    let traversed = wrapping_add traversed_len sec_size
    let next = get_next_sector_addr sec_size max_size visit.sector traversed
    branch (visit.stop || next == failed_addr) (pure visit.acc)
        (sector_loop fuel next traversed visit.acc)

  -- A walk from `start`. It makes a round for each sector, and one more when a header names a
  -- block of no sectors.
  unfoldable pub walk_sectors : ℕ → A → Cmd (Kvdb S) A
  walk_sectors start acc db = sector_loop (db.max_size / db.sec_size + 1) start 0 acc db

module _ {S A : Type 0} (st : Storage S)
    (body : Result (Unit {0}) → Kv → A → Cmd (Kvdb S) (Bool × A)) where
  -- The loop over the nodes of a sector: whether the body ended it, the node reached, and the
  -- body's variables.
  unfoldable pub kv_loop : ℕ → KvSecInfo → Kv → A → Cmd (Kvdb S) (Bool × Kv × A)
  kv_loop zero sector kv acc = pure (false, kv, acc)
  kv_loop (suc fuel) sector kv acc = do
    (r, kv) ← read_kv st kv
    (stop, acc) ← body r kv acc
    branch stop (pure (true, kv, acc)) (do
      next ← get_next_kv_addr st sector kv
      branch (next == failed_addr) (pure (false, kv, acc))
          (kv_loop fuel sector (record kv { addr_start = next }) acc))

  -- Each node lies above the one before it, so a round for each byte of the sector is enough.
  unfoldable pub walk_kvs : KvSecInfo → Kv → A → Cmd (Kvdb S) (Bool × Kv × A)
  walk_kvs sector kv acc db = kv_loop (db.sec_size + 1) sector kv acc db
