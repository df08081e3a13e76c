-- ===== src/Tsdb/Walk/Ends.antt =====
-- The walks over the index records of a sector end by themselves, in both directions.
use flash_db_rust.Base.{
  ℕ, zero, suc, ◌+◌, ◌-◌, ◌/◌, ◌^◌, ◌≤◌, ◌<◌, ◌≡◌, Bool, false, ◌||◌, branch_congr, ◌==◌, arith,
}
use flash_db_rust.Def.{failed_addr}
use flash_db_rust.Storage.{Storage}
use flash_db_rust.Tsdb.Types.{Tsl, TsdbSecInfo, Tsdb, Dir, get_next_tsl_addr, get_last_tsl_addr}
use flash_db_rust.Tsdb.Walk.{step_tsl, tsl_loop, walk_tsls}

-- The number of rounds that are left at an address, at most.
abbrev left : Dir → TsdbSecInfo → ℕ → ℕ
left Dir.fwd sector addr = sector.end_idx - addr
left Dir.rev sector addr = addr / 16

enough_left :
    (dir : Dir) (sector : TsdbSecInfo) (addr : ℕ)
    → addr ≤ sector.end_idx + 16
    → left dir sector addr < sector.end_idx + 2
enough_left Dir.fwd sector addr inside = omega arith
enough_left Dir.rev sector addr inside = omega arith

step_left :
    (dir : Dir) (sector : TsdbSecInfo) (addr fuel : ℕ) (stop : Bool)
    → sector.end_idx + 32 < 2 ^ 32
    → sector.addr + 48 < 2 ^ 32
    → addr ≤ sector.end_idx + 16
    → left dir sector addr < suc fuel
    → (stop || step_tsl dir sector addr == failed_addr) ≡ false
    → (step_tsl dir sector addr ≤ sector.end_idx + 16)
      × (left dir sector (step_tsl dir sector addr) < fuel)
unfolding step_tsl get_next_tsl_addr get_last_tsl_addr
step_left Dir.fwd sector addr fuel stop small low inside enough go = (ground arith, ground arith)
step_left Dir.rev sector addr fuel stop small low inside enough go = (ground arith, ground arith)

module _ {S T A : Type 0} (st : Storage S) (dir : Dir) (body : Tsl → A → Bool × A)
    (sector : TsdbSecInfo) (small : sector.end_idx + 32 < 2 ^ 32)
    (low : sector.addr + 48 < 2 ^ 32) where
  tsl_loop_enough :
      (fuel extra addr : ℕ) (acc : A) (db : Tsdb S T)
      → addr ≤ sector.end_idx + 16
      → left dir sector addr < fuel
      → tsl_loop st dir body (fuel + extra) sector addr acc db
        ≡ tsl_loop st dir body fuel sector addr acc db
  unfolding tsl_loop
  tsl_loop_enough zero extra addr acc db inside enough = absurd (omega arith)
  tsl_loop_enough (suc fuel) extra addr acc db inside enough =
      let sum : suc fuel + extra ≡ suc (fuel + extra) = omega arith in
      rw sum (
        branch_congr _ _ _ _ _ λ go.
          let (inside', enough') = step_left dir sector addr fuel _ small low inside enough go in
          tsl_loop_enough fuel extra _ _ _ inside' enough')

  -- Where the address is at most that of the place after the last record and the sums of
  -- addresses do not exceed 32 bits, the rounds that `walk_tsls` allows are enough: any number of
  -- further rounds gives the same result, whatever the medium holds.
  pub walk_tsls-enough :
      (extra addr : ℕ) (acc : A) (db : Tsdb S T)
      → addr ≤ sector.end_idx + 16
      → tsl_loop st dir body (sector.end_idx + 2 + extra) sector addr acc db
        ≡ walk_tsls st dir body sector addr acc db
  unfolding walk_tsls
  walk_tsls-enough extra addr acc db inside =
      tsl_loop_enough (sector.end_idx + 2) extra addr acc db inside
        (enough_left dir sector addr inside)
