-- ===== src/Tsdb/Init.antt =====
-- tsdb.rs: opening, recovering and erasing a database.
use flash_db_rust.Base.{
  ℕ, ◌+◌, Bool, true, false, not, ◌&&◌, Cmd, Result, ok, err, read_err, init_failed, pure, gets,
  modify, branch, ◌>>=◌, ◌>>◌, pos, wrapping_add, wrapping_sub, u32, leb, ltb, ◌==◌, if◌then◌else◌,
}
use flash_db_rust.Def.{data_unused}
use flash_db_rust.Def.StoreStatus
use flash_db_rust.Def.StoreStatus.{SectorStoreStatus}
use flash_db_rust.Db.{validate_geometry}
use flash_db_rust.Storage.{Storage}
use flash_db_rust.Tsdb.Types.{TsdbSecInfo, Tsdb, Dir, blank_sector}
use flash_db_rust.Tsdb.Sector.{read_sector_info, format_sector}
use flash_db_rust.Tsdb.Walk.{Visit, walk_sectors}

-- What the loop of `init` counts: whether a check failed, the number of empty sectors and the
-- address of the last one.
pub record InitScan : Type 0 where
  pub check_failed : Bool
  pub empty_num : ℕ
  pub empty_addr : ℕ

abbrev pub no_sectors : InitScan
no_sectors = record { check_failed = false; empty_num = 0; empty_addr = 0 }

-- The body of the loop of `init`, on a sector that was read: the counts, and the current sector.
unfoldable pub scan_sector : TsdbSecInfo → InitScan → TsdbSecInfo → Bool × InitScan × TsdbSecInfo
scan_sector sector scan cur =
    if not sector.check_ok
    then (true, record scan { check_failed = true }, cur)
    else if StoreStatus.eq sector.status SectorStoreStatus.using
    then (if cur.addr == data_unused
        then (false, scan, sector)
        else (true, record scan { check_failed = true }, cur))
    else if StoreStatus.eq sector.status SectorStoreStatus.empty
    then (
      false,
      record scan { empty_num = scan.empty_num + 1; empty_addr = sector.addr },
      if scan.empty_num == 0 && cur.addr == data_unused then sector else cur,
    )
    else (false, scan, cur)

-- The sector after one, in the order in which they are written.
abbrev pub sector_after : ℕ → ℕ → ℕ → ℕ
sector_after sec_size max_size addr =
    if leb max_size (wrapping_add addr sec_size) then 0 else wrapping_add addr sec_size

module _ {S T : Type 0} (st : Storage S) where
  unfoldable pub clean_visit : ℕ → Unit {0} → Cmd (Tsdb S T) (Visit (Unit {0}))
  clean_visit sec_addr _ = do
    (_, s) ← read_sector_info st sec_addr blank_sector false
    format_sector st s.addr
    pure (record { stop = false; addr = s.addr; acc = tt })

  unfoldable pub clean : Cmd (Tsdb S T) (Unit {0})
  clean = do
    walk_sectors Dir.fwd clean_visit 0 tt
    modify (λ db. record db { oldest_addr = 0; last_time = pos 0 })
    (_, cs) ← read_sector_info st 0 blank_sector false
    modify (λ db. record db { cur_sec = cs })
    pure tt

  unfoldable pub init_visit : ℕ → InitScan → Cmd (Tsdb S T) (Visit InitScan)
  init_visit sec_addr scan = do
    (_, sector) ← read_sector_info st sec_addr blank_sector false
    (_, sector) ← read_sector_info st sec_addr sector true
    cur ← gets (λ db. db.cur_sec)
    let (stop, scan, cur) = scan_sector sector scan cur
    modify (λ db. record db { cur_sec = cur })
    pure (record { stop = stop; addr = sector.addr; acc = scan })

  -- Chooses the oldest sector after a scan without a failed check.
  unfoldable pub find_oldest : InitScan → Cmd (Tsdb S T) (Unit {0})
  find_oldest scan = do
    sec_size ← gets (λ db. db.sec_size)
    max_size ← gets (λ db. db.max_size)
    branch (ltb 0 scan.empty_num)
        (modify (λ db. record db { oldest_addr = sector_after sec_size max_size scan.empty_addr }))
        (do
          rollover ← gets (λ db. db.rollover)
          if rollover
              then pure tt
              else modify (λ db. record db {
                cur_sec = record (db.cur_sec) { addr = wrapping_sub max_size sec_size };
              })
          modify (λ db. record db { oldest_addr = sector_after sec_size max_size db.cur_sec.addr }))

  -- The end of `init`: the current sector is measured, and the time of the last log found.
  unfoldable pub resume : Cmd (Tsdb S T) (Result (Unit {0}))
  resume = do
    cur_addr ← gets (λ db. db.cur_sec.addr)
    (_, cs) ← read_sector_info st cur_addr blank_sector true
    modify (λ db. record db { cur_sec = cs })
    oldest_addr ← gets (λ db. db.oldest_addr)
    sec_size ← gets (λ db. db.sec_size)
    max_size ← gets (λ db. db.max_size)
    branch (StoreStatus.eq cs.status SectorStoreStatus.using)
        (do modify (λ db. record db { last_time = cs.end_time }); pure (ok tt))
        (branch (StoreStatus.eq cs.status SectorStoreStatus.empty && not (oldest_addr == cs.addr))
          (do
            (_, sec) ←
                read_sector_info st
                  (if cs.addr == 0
                    then wrapping_sub max_size sec_size
                    else wrapping_sub cs.addr sec_size)
                  blank_sector false
            modify (λ db. record db { last_time = sec.end_time })
            pure (ok tt))
          (pure (ok tt)))

  unfoldable pub init : Cmd (Tsdb S T) (Result (Unit {0}))
  init = do
    scan ← walk_sectors Dir.fwd init_visit 0 no_sectors
    not_formatable ← gets (λ db. db.not_formatable)
    branch (scan.check_failed && not_formatable) (pure (err read_err))
        (do branch scan.check_failed clean (find_oldest scan); resume)

  -- `Tsdb::with_options`, with the state of the clock instead of its closure.
  unfoldable pub with_options : S → ℕ → ℕ → T → ℕ → Bool → Result (Tsdb S T)
  with_options storage sec_size max_size clock max_len not_formatable =
      let blank : Tsdb S T = record {
        storage = storage;
        sec_size = sec_size;
        max_size = max_size;
        oldest_addr = data_unused;
        init_ok = false;
        not_formatable = not_formatable;
        clock = clock;
        max_len = max_len;
        rollover = true;
        last_time = pos 0;
        cur_sec = record blank_sector { addr = data_unused };
      } in
      let (r, db) = init blank in
      elim (validate_geometry sec_size max_size) [
        | err e ↦ err e
        | ok _ ↦
            if leb sec_size (u32 max_len)
            then err init_failed
            else elim r [ err e ↦ err e | ok _ ↦ ok (record db { init_ok = true }) ]
      ]

  -- `Tsdb::new`
  unfoldable pub new : S → ℕ → ℕ → T → ℕ → Result (Tsdb S T)
  new storage sec_size max_size clock max_len =
      with_options storage sec_size max_size clock max_len false

-- `set_rollover`
unfoldable pub set_rollover : {S T : Type 0} → Bool → Tsdb S T → Tsdb S T
set_rollover rollover db = record db { rollover = rollover }
