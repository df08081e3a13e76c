-- ===== src/Tsdb/Walk.antt =====
-- tsdb.rs: the loops that its queries share, over the ring of sectors and over the logs of a
-- sector. Each query gives the body of its loop.
pub mod Logs
pub mod Enough
pub mod Ends
use flash_db_rust.Base.{
  ℕ, zero, suc, ◌+◌, ◌/◌, Bool, true, false, Cmd, pure, gets, branch, ◌>>=◌, wrapping_add, ◌==◌,
  ◌||◌,
}
use flash_db_rust.Def.{failed_addr}
use flash_db_rust.Storage.{Storage}
use flash_db_rust.Tsdb.Types.{Tsl, TsdbSecInfo, Tsdb, Dir, get_next_tsl_addr, get_last_tsl_addr}
use flash_db_rust.Tsdb.Sector.{read_tsl, get_next_sector_addr, get_last_sector_addr}

-- What a body leaves: whether it ends the loop, the sector that it ended at, and its variables.
pub record Visit (A : Type 0) : Type 0 where
  pub stop : Bool
  pub addr : ℕ
  pub acc : A

unfoldable pub step_sector : Dir → ℕ → ℕ → ℕ → ℕ → ℕ
step_sector Dir.fwd = get_next_sector_addr
step_sector Dir.rev = get_last_sector_addr

unfoldable pub step_tsl : Dir → TsdbSecInfo → ℕ → ℕ
step_tsl Dir.fwd = get_next_tsl_addr
step_tsl Dir.rev = get_last_tsl_addr

module _ {S T A : Type 0} (dir : Dir) (body : ℕ → A → Cmd (Tsdb S T) (Visit A)) where
  unfoldable pub sector_loop : ℕ → ℕ → ℕ → A → Cmd (Tsdb S T) A
  sector_loop zero sec_addr traversed_len acc = pure acc
  sector_loop (suc fuel) sec_addr traversed_len acc = do
    sec_size ← gets (λ db. db.sec_size)
    max_size ← gets (λ db. db.max_size)
    visit ← body sec_addr acc
    let traversed = wrapping_add traversed_len sec_size
    let next = step_sector dir sec_size max_size visit.addr traversed
    branch (visit.stop || next == failed_addr) (pure visit.acc)
        (sector_loop fuel next traversed visit.acc)

  -- A walk from `start`, which makes a round for each sector.
  unfoldable pub walk_sectors : ℕ → A → Cmd (Tsdb S T) A
  walk_sectors start acc db = sector_loop (db.max_size / db.sec_size + 1) start 0 acc db

module _ {S T A : Type 0} (st : Storage S) (dir : Dir) (body : Tsl → A → Bool × A) where
  -- The loop over the logs of a sector: whether the body ended it, and the body's variables.
  unfoldable pub tsl_loop : ℕ → TsdbSecInfo → ℕ → A → Cmd (Tsdb S T) (Bool × A)
  tsl_loop zero sector addr acc = pure (false, acc)
  tsl_loop (suc fuel) sector addr acc = do
    tsl ← read_tsl st addr
    let (stop, acc) = body tsl acc
    let next = step_tsl dir sector addr
    branch (stop || next == failed_addr) (pure (stop, acc)) (tsl_loop fuel sector next acc)

  -- Forward the addresses rise to `end_idx`, in reverse they fall from it or the place after it,
  -- by 16 each round, so this number of rounds is enough.
  unfoldable pub walk_tsls : TsdbSecInfo → ℕ → A → Cmd (Tsdb S T) (Bool × A)
  walk_tsls sector addr acc = tsl_loop (sector.end_idx + 2) sector addr acc
