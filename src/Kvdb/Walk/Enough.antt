-- ===== src/Kvdb/Walk/Enough.antt =====
-- The walk over the ring ends by itself: more rounds than `walk_sectors` allows change nothing.
use native.Mathlib.Nat.{lt-div-mul-add}
use flash_db_rust.Base.{
  ℕ, zero, suc, ◌+◌, ◌*◌, ◌/◌, ◌%◌, ◌^◌, ◌≤◌, ◌<◌, ◌≡◌, ◌∙◌, refl, ◌⊎◌, false, Cmd, branch_congr,
  ◌==◌, arith,
}
use flash_db_rust.Def.{failed_addr}
use flash_db_rust.Kvdb.Types.{KvSecInfo, Kvdb, sector_not_combined, sector_combined}
use flash_db_rust.Kvdb.Sector.{get_next_sector_addr}
use flash_db_rust.Kvdb.Walk.{Visit, sector_loop, walk_sectors}

-- Once more than the ring was walked, there is no next sector.
next_bound :
    (sec max traversed : ℕ) (sector : KvSecInfo)
    → (sector.combined ≡ sector_not_combined) ⊎ (sector.combined ≡ sector_combined)
    → traversed + sec < 2 ^ 32
    → (get_next_sector_addr sec max sector traversed == failed_addr) ≡ false
    → traversed ≤ max
unfolding get_next_sector_addr
next_bound sec max traversed sector kind small h = ground arith

-- What a visit leaves alone, and which sectors it reports.
unfoldable pub KeepsGeometry : {S A : Type 0} → (ℕ → A → Cmd (Kvdb S) (Visit A)) → Type 0
KeepsGeometry {S} {A} body =
    (addr : ℕ) (acc : A) (db : Kvdb S)
    → ((body addr acc db).1.sec_size ≡ db.sec_size)
      × ((body addr acc db).1.max_size ≡ db.max_size)
      × (((body addr acc db).0.sector.combined ≡ sector_not_combined)
          ⊎ ((body addr acc db).0.sector.combined ≡ sector_combined))

module _ {S A : Type 0} (body : ℕ → A → Cmd (Kvdb S) (Visit A)) (sec max : ℕ)
    (small : max + 2 * sec < 2 ^ 32)
    (keeps : (addr : ℕ) (acc : A) (db : Kvdb S)
      → ((body addr acc db).1.sec_size ≡ db.sec_size)
        × ((body addr acc db).1.max_size ≡ db.max_size)
        × (((body addr acc db).0.sector.combined ≡ sector_not_combined)
            ⊎ ((body addr acc db).0.sector.combined ≡ sector_combined))) where
  sector_loop_enough :
      (fuel extra addr traversed : ℕ) (acc : A) (db : Kvdb S)
      → db.sec_size ≡ sec
      → db.max_size ≡ max
      → traversed ≤ max
      → max < traversed + fuel * sec
      → sector_loop body (fuel + extra) addr traversed acc db
        ≡ sector_loop body fuel addr traversed acc db
  unfolding sector_loop
  sector_loop_enough zero extra addr traversed acc db s m t e = absurd (omega arith)
  sector_loop_enough (suc fuel) extra addr traversed acc db s m t e =
      let (s', m', kind) = keeps addr acc db in
      let wrap : (traversed + db.sec_size) % 2 ^ 32 ≡ traversed + sec = omega arith in
      let sum : suc fuel + extra ≡ suc (fuel + extra) = omega arith in
      let rounds : suc fuel * sec ≡ sec + fuel * sec = omega arith in
      let db' : Kvdb S = (body addr acc db).1 in
      let sector : KvSecInfo = (body addr acc db).0.sector in
      rw (sum, wrap)
        (branch_congr _ _ _ _ db' λ go.
          let next : (get_next_sector_addr db.sec_size db'.max_size sector (traversed + sec)
                == failed_addr)
              ≡ false =
            ground arith in
          let inside =
            next_bound db.sec_size db'.max_size (traversed + sec) sector kind (omega arith) next in
          sector_loop_enough fuel extra _ (traversed + sec) _ db' (s' ∙ s) (m' ∙ m) (omega arith)
            (omega arith))

-- If a visit keeps the geometry and reports a sector whose combined field is one of the two that
-- a header may have, and the sector size is positive and no sum of the walk exceeds 32 bits,
-- then the rounds that `walk_sectors` allows are enough: any number of further rounds gives the
-- same result, so the walk has ended by itself.
pub walk_sectors-enough :
    {S A : Type 0} (body : ℕ → A → Cmd (Kvdb S) (Visit A))
    → KeepsGeometry body
    → (start extra : ℕ) (acc : A) (db : Kvdb S) → 0 < db.sec_size
    → db.max_size + 2 * db.sec_size < 2 ^ 32
    → sector_loop body (db.max_size / db.sec_size + 1 + extra) start 0 acc db
      ≡ walk_sectors body start acc db
unfolding walk_sectors KeepsGeometry
walk_sectors-enough body keeps start extra acc db p small =
    let q = lt-div-mul-add {a = db.max_size} p in
    let rounds : (db.max_size / db.sec_size + 1) * db.sec_size
        ≡ db.max_size / db.sec_size * db.sec_size + db.sec_size =
      omega arith in
    sector_loop_enough body db.sec_size db.max_size small keeps (db.max_size / db.sec_size + 1)
      extra start 0 acc db refl refl (omega arith) (omega arith)
