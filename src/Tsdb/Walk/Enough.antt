-- ===== src/Tsdb/Walk/Enough.antt =====
-- The walks over the ring of sectors end by themselves, in both directions.
use native.Mathlib.Nat.{lt-div-mul-add}
use flash_db_rust.Base.{
  ℕ, zero, suc, ◌+◌, ◌*◌, ◌/◌, ◌%◌, ◌^◌, ◌≤◌, ◌<◌, ◌≡◌, ◌∙◌, refl, Bool, false, ◌||◌, Cmd,
  branch_congr, ◌==◌, arith,
}
use flash_db_rust.Def.{failed_addr}
use flash_db_rust.Tsdb.Types.{Tsdb, Dir}
use flash_db_rust.Tsdb.Frame.{Same}
use flash_db_rust.Tsdb.Sector.{get_next_sector_addr, get_last_sector_addr}
use flash_db_rust.Tsdb.Walk.{Visit, step_sector, sector_loop, walk_sectors}

-- Once the ring was walked, there is no next sector.
step_bound :
    (dir : Dir) (sec max addr traversed : ℕ) (stop : Bool)
    → traversed + sec < 2 ^ 32
    → (stop || step_sector dir sec max addr traversed == failed_addr) ≡ false
    → traversed ≤ max
unfolding step_sector get_next_sector_addr get_last_sector_addr
step_bound Dir.fwd sec max addr traversed stop small h = ground arith
step_bound Dir.rev sec max addr traversed stop small h = ground arith

module _ {S T A : Type 0} where
  -- A visit that changes at most the medium, the oldest sector and the current one.
  abbrev pub KeepsOptions : (ℕ → A → Cmd (Tsdb S T) (Visit A)) → Type 0
  KeepsOptions body = (addr : ℕ) (acc : A) (db : Tsdb S T) → Same db (body addr acc db).1

  module _ (dir : Dir) (body : ℕ → A → Cmd (Tsdb S T) (Visit A))
      (keeps : (addr : ℕ) (acc : A) (db : Tsdb S T) → Same db (body addr acc db).1) (sec max : ℕ)
      (small : max + 2 * sec < 2 ^ 32) where
    sector_loop_enough :
        (fuel extra addr traversed : ℕ) (acc : A) (db : Tsdb S T)
        → db.sec_size ≡ sec
        → db.max_size ≡ max
        → traversed ≤ max
        → max < traversed + fuel * sec
        → sector_loop dir body (fuel + extra) addr traversed acc db
          ≡ sector_loop dir body fuel addr traversed acc db
    unfolding sector_loop
    sector_loop_enough zero extra addr traversed acc db s m t e = absurd (omega arith)
    sector_loop_enough (suc fuel) extra addr traversed acc db s m t e =
        let same = keeps addr acc db in
        let wrap : (traversed + db.sec_size) % 2 ^ 32 ≡ traversed + sec = omega arith in
        let sum : suc fuel + extra ≡ suc (fuel + extra) = omega arith in
        let rounds : suc fuel * sec ≡ sec + fuel * sec = omega arith in
        let db' : Tsdb S T = (body addr acc db).1 in
        rw (sum, wrap)
          (branch_congr _ _ _ _ db' λ go.
            let inside =
              step_bound dir db.sec_size db.max_size (body addr acc db).0.addr (traversed + sec)
                ((body addr acc db).0.stop) (omega arith) go in
            sector_loop_enough fuel extra _ (traversed + sec) _ db' (same.sec_size ∙ s)
              (same.max_size ∙ m) (omega arith) (omega arith))

  -- If a visit keeps the options, the sector size is positive and no sum of the walk exceeds 32
  -- bits, then the rounds that `walk_sectors` allows are enough, in both directions: any number
  -- of further rounds gives the same result.
  pub walk_sectors-enough :
      (dir : Dir) (body : ℕ → A → Cmd (Tsdb S T) (Visit A))
      → KeepsOptions body
      → (start extra : ℕ) (acc : A) (db : Tsdb S T) → 0 < db.sec_size
      → db.max_size + 2 * db.sec_size < 2 ^ 32
      → sector_loop dir body (db.max_size / db.sec_size + 1 + extra) start 0 acc db
        ≡ walk_sectors dir body start acc db
  unfolding walk_sectors
  walk_sectors-enough dir body keeps start extra acc db p small =
      let q = lt-div-mul-add {a = db.max_size} p in
      let rounds : (db.max_size / db.sec_size + 1) * db.sec_size
          ≡ db.max_size / db.sec_size * db.sec_size + db.sec_size =
        omega arith in
      sector_loop_enough dir body keeps db.sec_size db.max_size small
        (db.max_size / db.sec_size + 1) extra start 0 acc db refl refl (omega arith) (omega arith)
