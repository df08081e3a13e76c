-- ===== src/Tsdb/Query/Frame.antt =====
-- What the queries leave alone, and that their walks end by themselves.
use flash_db_rust.Base.{
  ℕ, zero, suc, ◌+◌, ◌*◌, ◌/◌, ◌^◌, ◌<◌, ◌≡◌, Bool, false, branch_either, List, [], ℤ,
}
use flash_db_rust.Storage.{Storage}
use flash_db_rust.Tsdb.Types.{Tsl, TsdbSecInfo, Tsdb, Dir, blank_sector}
use flash_db_rust.Tsdb.Frame.{Same, Same-refl, Same-trans, touch-Same, read_sector_info-Same}
use flash_db_rust.Tsdb.Sector.{read_tsl, read_sector_info}
use flash_db_rust.Tsdb.Walk.{Visit, sector_loop, walk_sectors, tsl_loop, walk_tsls}
use flash_db_rust.Tsdb.Walk.Enough.{walk_sectors-enough}
use flash_db_rust.Tsdb.Search.{settle_start, search_loop, search_start_tsl_addr}
use flash_db_rust.Tsdb.Query.{collect_visit, collect_reverse_visit, range_in_sector, range_visit}

module _ {S T : Type 0} (st : Storage S) where
  module _ {A : Type 0} (dir : Dir) (body : Tsl → A → Bool × A) where
    tsl_loop-Same :
        (fuel : ℕ) (sector : TsdbSecInfo) (addr : ℕ) (acc : A) (db : Tsdb S T)
        → Same db (tsl_loop st dir body fuel sector addr acc db).1
    unfolding tsl_loop read_tsl
    tsl_loop-Same zero sector addr acc db = Same-refl db
    tsl_loop-Same (suc fuel) sector addr acc db =
        let db1 : Tsdb S T = (read_tsl st addr db).1 in
        let step : Same db db1 = touch-Same _ _ _ db in
        branch_either (λ (p : (Bool × A) × Tsdb S T). Same db p.1) _ _ (λ _. step)
          λ _. Same-trans db db1 _ step (tsl_loop-Same fuel sector _ _ db1)

    walk_tsls-Same :
        (sector : TsdbSecInfo) (addr : ℕ) (acc : A) (db : Tsdb S T)
        → Same db (walk_tsls st dir body sector addr acc db).1
    unfolding walk_tsls
    walk_tsls-Same sector addr acc db = tsl_loop-Same _ sector addr acc db

  settle_start-Same :
      (start : ℕ) (from to : ℤ) (db : Tsdb S T) → Same db (settle_start st start from to db).1
  unfolding settle_start read_tsl
  settle_start-Same start from to db =
      branch_either (λ (p : ℕ × Tsdb S T). Same db p.1) _ _ (λ _. touch-Same _ _ _ db)
        λ _. Same-refl db

  search_loop-Same :
      (fuel start end : ℕ) (from to : ℤ) (db : Tsdb S T)
      → Same db (search_loop st fuel start end from to db).1
  unfolding search_loop read_tsl
  search_loop-Same zero start end from to db = Same-refl db
  search_loop-Same (suc fuel) start end from to db =
      let P : ℕ × Tsdb S T → Type 0 = λ p. Same db p.1 in
      let db1 : Tsdb S T = (read_tsl st _ db).1 in
      let step : Same db db1 = touch-Same _ _ _ db in
      let settle : (start : ℕ) → P (settle_start st start from to db1) =
        λ start. Same-trans db db1 _ step (settle_start-Same start from to db1) in
      let more : (start end : ℕ) → P (search_loop st fuel start end from to db1) =
        λ start end. Same-trans db db1 _ step (search_loop-Same fuel start end from to db1) in
      branch_either P _ _ (λ _. branch_either P _ _ (λ _. settle _) λ _. more _ _)
        λ _. branch_either P _ _ (λ _. branch_either P _ _ (λ _. settle _) λ _. more _ _) λ _. step

  collect_visit-Same :
      (addr : ℕ) (out : List Tsl) (db : Tsdb S T) → Same db (collect_visit st addr out db).1
  unfolding collect_visit
  collect_visit-Same addr out db =
      let db1 : Tsdb S T = (read_sector_info st addr blank_sector false db).1 in
      let step : Same db db1 = read_sector_info-Same st addr blank_sector false db in
      branch_either (λ (p : Visit (List Tsl) × Tsdb S T). Same db p.1) _ _
        (λ _. Same-trans db db1 _ step (walk_tsls-Same Dir.fwd _ _ _ _ db1)) λ _. step

  collect_reverse_visit-Same :
      (addr : ℕ) (out : List Tsl) (db : Tsdb S T) → Same db (collect_reverse_visit st addr out db).1
  unfolding collect_reverse_visit
  collect_reverse_visit-Same addr out db =
      let db1 : Tsdb S T = (read_sector_info st addr blank_sector false db).1 in
      let step : Same db db1 = read_sector_info-Same st addr blank_sector false db in
      branch_either (λ (p : Visit (List Tsl) × Tsdb S T). Same db p.1) _ _
        (λ _. Same-trans db db1 _ step (walk_tsls-Same Dir.rev _ _ _ _ db1)) λ _. step

  range_visit-Same :
      (dir : Dir) (from to : ℤ) (start addr : ℕ) (acc : Bool × List Tsl) (db : Tsdb S T)
      → Same db (range_visit st dir from to start addr acc db).1
  unfolding range_visit range_in_sector search_start_tsl_addr
  range_visit-Same dir from to start addr (found, out) db =
      let P : Visit (Bool × List Tsl) × Tsdb S T → Type 0 = λ p. Same db p.1 in
      let db1 : Tsdb S T = (read_sector_info st addr blank_sector false db).1 in
      let step : Same db db1 = read_sector_info-Same st addr blank_sector false db in
      branch_either P _ _
        (λ _.
          branch_either P _ _
            (λ _. Same-trans db db1 _ step (
              Same-trans db1 _ _ (search_loop-Same _ _ _ from to db1)
                (walk_tsls-Same dir _ _ _ _ _)))
            λ _. step)
        λ _. step

  -- For each of the three queries, where the sector size is positive and no sum of the walk
  -- exceeds 32 bits, the rounds over the ring that the model allows are enough, whatever the
  -- backend does: any number of further rounds gives the same list and the same database.
  pub queries-enough :
      (extra start : ℕ) (dir : Dir) (from to : ℤ) (db : Tsdb S T)
      → 0 < db.sec_size
      → db.max_size + 2 * db.sec_size < 2 ^ 32
      → let rounds = db.max_size / db.sec_size + 1 + extra in
        (sector_loop Dir.fwd (collect_visit st) rounds start 0 [] db
          ≡ walk_sectors Dir.fwd (collect_visit st) start [] db)
        × (sector_loop Dir.rev (collect_reverse_visit st) rounds start 0 [] db
            ≡ walk_sectors Dir.rev (collect_reverse_visit st) start [] db)
        × (sector_loop dir (range_visit st dir from to start) rounds start 0 (false, []) db
            ≡ walk_sectors dir (range_visit st dir from to start) start (false, []) db)
  queries-enough extra start dir from to db positive small = (
    walk_sectors-enough Dir.fwd (collect_visit st) collect_visit-Same start extra [] db positive
        small,
    walk_sectors-enough Dir.rev (collect_reverse_visit st) collect_reverse_visit-Same start extra []
        db positive small,
    walk_sectors-enough dir (range_visit st dir from to start) (range_visit-Same dir from to start)
        start extra (false, []) db positive small,
  )
