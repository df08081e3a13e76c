-- ===== src/Kvdb/Find.antt =====
-- kvdb.rs: the search for a key, and the deletion of a node.
pub mod Sound
pub mod LongKeys
use flash_db_rust.Base.{
  ℕ, Bool, true, false, not, List, ◌&&◌, ◌||◌, Cmd, Result, ok, err, kv_name_err, pure, gets,
  modify, branch, ◌>>=◌, ◌>>◌, try, is_ok, length, take, eq_bytes, wrapping_add, ◌==◌,
  if◌then◌else◌,
}
use flash_db_rust.Def.{align_down, kv_status_num, sector_dirty_status_num}
use flash_db_rust.Def.KvStatus
use flash_db_rust.Def.KvStatus.{KvStatus}
use flash_db_rust.Def.StoreStatus
use flash_db_rust.Def.StoreStatus.{SectorStoreStatus}
use flash_db_rust.Def.DirtyStatus
use flash_db_rust.Def.DirtyStatus.{SectorDirtyStatus}
use flash_db_rust.Storage.{Storage}
use flash_db_rust.Flash.{read_status, write_status}
use flash_db_rust.Kvdb.Types.{
  Kv, KvSecInfo, Kvdb, blank_kv, blank_sector, sector_hdr_data_size, sector_dirty_offset,
  on_storage,
}
use flash_db_rust.Kvdb.Sector.{read_sector_info}
use flash_db_rust.Kvdb.Walk.{Visit, walk_sectors, walk_kvs}

-- A node that holds the current value of `key`. (`name` has room for every `name_len` that a
-- node with a good checksum was written with.)
unfoldable pub matches : List ℕ → Kv → Bool
matches key kv =
    kv.crc_is_ok
    && (KvStatus.eq kv.status KvStatus.write
        && (kv.name_len == length key && eq_bytes (take kv.name_len kv.name) key))

-- A sector that can hold nodes.
abbrev pub in_use : KvSecInfo → Bool
in_use s =
    StoreStatus.eq s.store SectorStoreStatus.using || StoreStatus.eq s.store SectorStoreStatus.full

-- The address of the first node of a sector.
abbrev pub first_kv : KvSecInfo → ℕ
first_kv s = wrapping_add s.addr sector_hdr_data_size

module _ {S : Type 0} (st : Storage S) where
  unfoldable pub find_visit : List ℕ → ℕ → Bool × Kv → Cmd (Kvdb S) (Visit (Bool × Kv))
  find_visit key sec_addr (_, kv) = do
    (r, sector) ← read_sector_info st sec_addr blank_sector false
    branch (is_ok r && in_use sector)
        (do
          (stop, kv, _) ←
              walk_kvs st (λ _ kv (_ : Unit {0}). pure (matches key kv, tt)) sector
                (record kv { addr_start = first_kv sector }) tt
          pure (record { stop = stop; sector = sector; acc = (stop, kv) }))
        (pure (record { stop = false; sector = sector; acc = (false, kv) }))

  -- `find_kv_no_cache`, which `find_kv` calls: whether the key was found, and the node read last.
  unfoldable pub find_kv : List ℕ → Kv → Cmd (Kvdb S) (Bool × Kv)
  find_kv key kv db = walk_sectors (find_visit key) db.oldest_addr (false, kv) db

  -- The end of `del_kv`: a clean sector becomes dirty.
  unfoldable pub mark_dirty : ℕ → Cmd (Kvdb S) (Result (Unit {0}))
  mark_dirty addr_start = do
    sec_size ← gets (λ db. db.sec_size)
    let dirty_status_addr = wrapping_add (align_down addr_start sec_size) sector_dirty_offset
    dirty ← on_storage (read_status st dirty_status_addr sector_dirty_status_num)
    branch (dirty == DirtyStatus.index SectorDirtyStatus.clean)
        (on_storage (
          write_status st dirty_status_addr sector_dirty_status_num
            (DirtyStatus.index SectorDirtyStatus.dirty) true))
        (pure (ok tt))

  -- The part of `del_kv` that changes the node at `addr_start`.
  unfoldable pub delete_at : ℕ → Bool → Cmd (Kvdb S) (Result (Unit {0}))
  delete_at addr_start complete_del =
      try
        (on_storage (
          if complete_del
          then write_status st addr_start kv_status_num (KvStatus.index KvStatus.deleted) true
          else write_status st addr_start kv_status_num (KvStatus.index KvStatus.pre_delete) false))
        λ _. do
          modify (λ db. record db { last_is_complete_del = not complete_del })
          mark_dirty addr_start

  -- `del_kv` with `old_kv`, the node that the caller found.
  unfoldable pub del_old_kv : Kv → Bool → Cmd (Kvdb S) (Result (Unit {0}))
  del_old_kv kv complete_del = delete_at kv.addr_start complete_del

  -- `del_kv` with a key.
  unfoldable pub del_key : List ℕ → Bool → Cmd (Kvdb S) (Result (Unit {0}))
  del_key key complete_del = do
    (found, kv) ← find_kv key blank_kv
    if found then delete_at kv.addr_start complete_del else pure (err kv_name_err)
