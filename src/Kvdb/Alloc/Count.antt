-- ===== src/Kvdb/Alloc/Count.antt =====
-- `count_sectors` ends by itself.
use flash_db_rust.Base.{ℕ, ◌+◌, ◌*◌, ◌/◌, ◌^◌, ◌<◌, ◌≡◌}
use flash_db_rust.Storage.{Storage}
use flash_db_rust.Kvdb.Types.{Kvdb, blank_sector}
use flash_db_rust.Kvdb.Sector.Header.{read_sector_info-keeps}
use flash_db_rust.Kvdb.Walk.{sector_loop}
use flash_db_rust.Kvdb.Walk.Enough.{KeepsGeometry, walk_sectors-enough}
use flash_db_rust.Kvdb.Alloc.{count_visit, count_sectors}

module _ {S : Type 0} (st : Storage S) where
  pub count_visit-KeepsGeometry : KeepsGeometry (count_visit st)
  unfolding KeepsGeometry count_visit
  count_visit-KeepsGeometry addr acc db = read_sector_info-keeps st addr blank_sector db

  -- On any backend, if the sector size is positive and no sum of the walk exceeds 32 bits, the
  -- rounds that `count_sectors` is given are enough: with any number of further rounds its loop
  -- returns the same counts and leaves the same database.
  pub count_sectors-enough :
      (extra : ℕ) (db : Kvdb S)
      → 0 < db.sec_size
      → db.max_size + 2 * db.sec_size < 2 ^ 32
      → sector_loop
          (count_visit st)
          (db.max_size / db.sec_size + 1 + extra)
          db.oldest_addr
          0
          (0, 0)
          db
        ≡ count_sectors st db
  unfolding count_sectors
  count_sectors-enough extra db p small =
      walk_sectors-enough (count_visit st) count_visit-KeepsGeometry db.oldest_addr extra (0, 0) db
        p small
