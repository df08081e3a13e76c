-- ===== src/Kvdb/Alloc.antt =====
-- kvdb.rs: counting sectors, finding one with room, and its change of status.
pub mod Count
pub mod Room
use flash_db_rust.Base.{
  branch, ℕ, ◌+◌, Bool, true, false, not, ◌&&◌, ◌||◌, Option, none, some, Cmd, Result, ok, pure,
  gets, modify, ◌>>=◌, ◌>>◌, try, pos, ◌-ℤ◌, ltb_ℤ, ltb, ◌==◌, if◌then◌else◌,
}
use flash_db_rust.Def.{failed_addr, sector_store_status_num}
use flash_db_rust.Def.StoreStatus
use flash_db_rust.Def.StoreStatus.{SectorStoreStatus}
use flash_db_rust.Def.DirtyStatus
use flash_db_rust.Def.DirtyStatus.{SectorDirtyStatus}
use flash_db_rust.Storage.{Storage}
use flash_db_rust.Flash.{write_status}
use flash_db_rust.Kvdb.Types.{
  KvSecInfo, Kvdb, blank_sector, sec_remain_threshold, gc_empty_sec_threshold, on_storage,
}
use flash_db_rust.Kvdb.Sector.{read_sector_info}
use flash_db_rust.Kvdb.Walk.{Visit, walk_sectors}

-- The test of `alloc_scan` on a sector that was traversed.
unfoldable pub has_room : KvSecInfo → ℕ → Bool → Bool
has_room s kv_size gc_request =
    s.check_ok
    && (ltb_ℤ (pos (kv_size + sec_remain_threshold)) s.remain
        && (DirtyStatus.eq s.dirty SectorDirtyStatus.clean
            || DirtyStatus.eq s.dirty SectorDirtyStatus.dirty && not gc_request))

module _ {S : Type 0} (st : Storage S) where
  unfoldable pub count_visit : ℕ → ℕ × ℕ → Cmd (Kvdb S) (Visit (ℕ × ℕ))
  count_visit sec_addr (empty, using) = do
    (_, s) ← read_sector_info st sec_addr blank_sector false
    pure (record {
      stop = false;
      sector = s;
      acc =
          if s.check_ok && StoreStatus.eq s.store SectorStoreStatus.empty
          then (empty + 1, using)
          else if s.check_ok && StoreStatus.eq s.store SectorStoreStatus.using
          then (empty, using + 1)
          else (empty, using);
    })

  -- The numbers of empty sectors and of sectors in use.
  unfoldable pub count_sectors : Cmd (Kvdb S) (ℕ × ℕ)
  count_sectors db = walk_sectors (count_visit) db.oldest_addr (0, 0) db

  unfoldable pub alloc_visit :
      SectorStoreStatus → ℕ → ℕ → Option KvSecInfo → Cmd (Kvdb S) (Visit (Option KvSecInfo))
  alloc_visit want kv_size sec_addr found = do
    (_, s) ← read_sector_info st sec_addr blank_sector false
    branch (StoreStatus.eq s.store want)
        (do
          (_, s) ← read_sector_info st sec_addr s true
          gc_request ← gets (λ db. db.gc_request)
          let room = has_room s kv_size gc_request
          pure (record { stop = room; sector = s; acc = if room then some s else none }))
        (pure (record { stop = false; sector = s; acc = none }))

  unfoldable pub alloc_scan : SectorStoreStatus → ℕ → Cmd (Kvdb S) (Option KvSecInfo)
  alloc_scan want kv_size db = walk_sectors (alloc_visit want kv_size) db.oldest_addr none db

  -- `Some(s)` stores `s` in the caller's sector and allocates its empty tail.
  abbrev pub take_sector : KvSecInfo → Option KvSecInfo → ℕ × KvSecInfo
  take_sector sector none = (failed_addr, sector)
  take_sector sector (some s) = (s.empty_kv, s)

  unfoldable pub alloc_kv : KvSecInfo → ℕ → Cmd (Kvdb S) (ℕ × KvSecInfo)
  alloc_kv sector kv_size = do
    (empty_count, using_count) ← count_sectors
    (empty_kv, sector) ←
        if ltb 0 using_count
        then (do
          found ← alloc_scan SectorStoreStatus.using kv_size
          pure (take_sector sector found))
        else pure (failed_addr, sector)
    gc_request ← gets (λ db. db.gc_request)
    if ltb 0 empty_count && empty_kv == failed_addr
        then (if ltb gc_empty_sec_threshold empty_count || gc_request
            then (do
              found ← alloc_scan SectorStoreStatus.empty kv_size
              pure (take_sector sector found))
            else (do modify (λ db. record db { gc_request = true }); pure (empty_kv, sector)))
        else pure (empty_kv, sector)

  -- Whether the sector became full.
  unfoldable pub update_sec_status : KvSecInfo → ℕ → Cmd (Kvdb S) (Result Bool)
  update_sec_status sector new_kv_len =
      if StoreStatus.eq sector.store SectorStoreStatus.empty
      then try
          (on_storage (
            write_status st sector.addr sector_store_status_num
              (StoreStatus.index SectorStoreStatus.using) true))
          (λ _. pure (ok false))
      else if StoreStatus.eq sector.store SectorStoreStatus.using
          && (ltb_ℤ sector.remain (pos sec_remain_threshold)
              || ltb_ℤ (sector.remain -ℤ pos new_kv_len) (pos sec_remain_threshold))
      then try
          (on_storage (
            write_status st sector.addr sector_store_status_num
              (StoreStatus.index SectorStoreStatus.full) true))
          (λ _. pure (ok true))
      else pure (ok false)
