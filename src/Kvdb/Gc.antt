-- ===== src/Kvdb/Gc.antt =====
-- kvdb.rs: moving nodes, and garbage collection.
use flash_db_rust.Base.{
  ℕ, zero, suc, ◌+◌, ◌-◌, min, Bool, true, false, List, ◌&&◌, ◌||◌, ◌++◌, Cmd, Result, ok, err,
  saved_full, is_ok, pure, gets, modify, ◌>>=◌, ◌>>◌, try, take, drop, replicate, pos, ltb_ℤ,
  wrapping_add, wrapping_sub, leb, ltb, ◌==◌, if◌then◌else◌,
}
use flash_db_rust.Def.{failed_addr, kv_status_num, sector_dirty_status_num}
use flash_db_rust.Def.KvStatus
use flash_db_rust.Def.KvStatus.{KvStatus}
use flash_db_rust.Def.StoreStatus
use flash_db_rust.Def.StoreStatus.{SectorStoreStatus}
use flash_db_rust.Def.DirtyStatus
use flash_db_rust.Def.DirtyStatus.{SectorDirtyStatus}
use flash_db_rust.Storage.{Storage}
use flash_db_rust.Flash.{write_status}
use flash_db_rust.Kvdb.Types.{
  Kv, KvSecInfo, Kvdb, blank_kv, blank_sector, kv_magic_offset, sector_dirty_offset,
  sector_not_combined, gc_empty_sec_threshold, on_storage,
}
use flash_db_rust.Kvdb.Sector.{get_next_sector_addr, read_sector_info, format_sector}
use flash_db_rust.Kvdb.Walk.{Visit, walk_sectors, walk_kvs}
use flash_db_rust.Kvdb.Alloc.{alloc_kv, update_sec_status}
use flash_db_rust.Kvdb.Find.{first_kv, find_kv, del_old_kv}

module _ {S : Type 0} (st : Storage S) where
  -- The loop of `move_kv_body`: `n` bytes from `src` to `dst`, in chunks of at most 32 bytes.
  unfoldable pub copy_loop : ℕ → ℕ → ℕ → ℕ → List ℕ → ℕ → Cmd (Kvdb S) (Result (Unit {0}))
  copy_loop zero src dst n buf len = pure (ok tt)
  copy_loop (suc fuel) src dst n buf len =
      if ltb len n
      then (do
        let size = min 32 (n - len)
        (_, chunk) ← on_storage (st.read (wrapping_add src len) (take size buf))
        try (on_storage (st.write (wrapping_add dst len) chunk true))
            (λ _. copy_loop fuel src dst n (chunk ++ drop size buf) (len + size)))
      else pure (ok tt)

  unfoldable pub move_kv_body : Kv → KvSecInfo → ℕ → Cmd (Kvdb S) (Result (Unit {0}))
  move_kv_body kv sector kv_addr =
      let set_state = λ (status : KvStatus) (sync : Bool).
        on_storage (write_status st kv_addr kv_status_num (KvStatus.index status) sync) in
      let n = wrapping_sub kv.len kv_magic_offset in
      try (update_sec_status st sector kv.len) λ _. try (set_state KvStatus.pre_write false) λ _.
        try
          (copy_loop n (wrapping_add kv.addr_start kv_magic_offset)
            (wrapping_add kv_addr kv_magic_offset) n (replicate 32 0) 0)
          λ _. set_state KvStatus.write true

  unfoldable pub move_kv : Kv → Cmd (Kvdb S) (Result (Unit {0}))
  move_kv kv = do
    if KvStatus.eq kv.status KvStatus.write then del_old_kv st kv false else pure (ok tt)
    (kv_addr, sector) ← alloc_kv st blank_sector kv.len
    if kv_addr == failed_addr then pure (err saved_full) else (do
      recovering ← gets (λ db. db.in_recovery_check)
      (replaced, _) ←
          if recovering && KvStatus.eq kv.status KvStatus.pre_delete
          then find_kv st (take kv.name_len kv.name) blank_kv
          else pure (false, blank_kv)
      result ← if replaced then pure (ok tt) else move_kv_body kv sector kv_addr
      del_old_kv st kv true
      pure result)

  -- The body of the loop in `do_gc_one`.
  unfoldable pub gc_kv : Result (Unit {0}) → Kv → Unit {0} → Cmd (Kvdb S) (Bool × Unit {0})
  gc_kv r kv acc = do
    if kv.crc_is_ok
          && (KvStatus.eq kv.status KvStatus.write || KvStatus.eq kv.status KvStatus.pre_delete)
        then move_kv kv
        else pure (ok tt)
    pure (false, tt)

  -- Whether the walk stops, and the last collected sector's address.
  unfoldable pub do_gc_one : KvSecInfo → ℕ → ℕ → Cmd (Kvdb S) (Bool × ℕ)
  do_gc_one sector setting_free_size last_gc_sec_addr =
      if sector.check_ok
        && (DirtyStatus.eq sector.dirty SectorDirtyStatus.dirty
            || DirtyStatus.eq sector.dirty SectorDirtyStatus.gc)
      then (do
        on_storage (
            write_status st (wrapping_add sector.addr sector_dirty_offset) sector_dirty_status_num
              (DirtyStatus.index SectorDirtyStatus.gc) true)
        walk_kvs st gc_kv sector (record blank_kv { addr_start = first_kv sector }) tt
        format_sector st sector.addr sector_not_combined
        modify (λ db. record db {
          oldest_addr = get_next_sector_addr db.sec_size db.max_size sector 0;
        })
        (r, last_gc_sector) ← read_sector_info st last_gc_sec_addr blank_sector true
        pure (is_ok r && ltb_ℤ (pos setting_free_size) last_gc_sector.remain, sector.addr))
      else pure (false, last_gc_sec_addr)

  -- The empty sectors, and the address of the last one.
  unfoldable pub empty_visit : ℕ → ℕ × ℕ → Cmd (Kvdb S) (Visit (ℕ × ℕ))
  empty_visit sec_addr (empty_sec_num, empty_sec_addr) = do
    (_, s) ← read_sector_info st sec_addr blank_sector false
    pure (record {
      stop = false;
      sector = s;
      acc =
          if StoreStatus.eq s.store SectorStoreStatus.empty && s.check_ok
          then (empty_sec_num + 1, s.addr)
          else (empty_sec_num, empty_sec_addr);
    })

  unfoldable pub gc_visit : ℕ → ℕ → ℕ → Cmd (Kvdb S) (Visit ℕ)
  gc_visit free_size sec_addr last_gc_sec_addr = do
    (_, s) ← read_sector_info st sec_addr blank_sector false
    (stop, last) ← do_gc_one s free_size last_gc_sec_addr
    pure (record { stop = stop; sector = s; acc = last })

  unfoldable pub gc_collect_by_free_size : ℕ → Cmd (Kvdb S) (Unit {0})
  gc_collect_by_free_size free_size = do
    oldest_addr ← gets (λ db. db.oldest_addr)
    (empty_sec_num, empty_sec_addr) ← walk_sectors empty_visit oldest_addr (0, 0)
    if leb empty_sec_num gc_empty_sec_threshold
        then walk_sectors (gc_visit free_size) oldest_addr empty_sec_addr
        else pure empty_sec_addr
    modify (λ db. record db { gc_request = false })

  unfoldable pub gc_collect : Cmd (Kvdb S) (Unit {0})
  gc_collect db = gc_collect_by_free_size db.max_size db
