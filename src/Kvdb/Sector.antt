-- ===== src/Kvdb/Sector.antt =====
-- kvdb.rs: sector headers, the room left in a sector, and the ring of sectors.
pub mod Header
pub mod Format
use flash_db_rust.Base.{
  ℕ, zero, suc, ◌+◌, Bool, true, false, List, ◌∷◌, [], ◌++◌, not, ◌&&◌, ◌||◌, Cmd, Result, ok, err,
  read_err, init_failed, pure, gets, ◌>>=◌, try, take, drop, replicate, pos, ◌-ℤ◌, wrapping_add,
  wrapping_sub, wrapping_mul, to_le_bytes, leb, ltb, ◌==◌, if◌then◌else◌,
}
use flash_db_rust.Def.{failed_addr, data_unused, sector_store_status_num, sector_dirty_status_num}
use flash_db_rust.Def.KvStatus
use flash_db_rust.Def.KvStatus.{KvStatus}
use flash_db_rust.Def.StoreStatus
use flash_db_rust.Def.StoreStatus.{SectorStoreStatus}
use flash_db_rust.Def.DirtyStatus
use flash_db_rust.Def.DirtyStatus.{SectorDirtyStatus}
use flash_db_rust.Status.{set_status, get_status}
use flash_db_rust.Storage.{Storage}
use flash_db_rust.Flash.{continue_ff_addr}
use flash_db_rust.Kvdb.Types.{
  Kv, KvSecInfo, Kvdb, blank_kv, sector_magic_word, sector_not_combined, sector_combined,
  sector_hdr_data_size, sector_magic_offset, rd_u32, on_storage,
}
use flash_db_rust.Kvdb.Record.{read_kv}
use flash_db_rust.Kvdb.Next.{get_next_kv_addr}

-- The address of the sector after `pre_sec`, or `failed_addr` once the ring was walked round.
unfoldable pub get_next_sector_addr : ℕ → ℕ → KvSecInfo → ℕ → ℕ
get_next_sector_addr sec_size max_size pre_sec traversed_len =
    let cur_block_size =
      if pre_sec.combined == sector_not_combined
      then sec_size
      else wrapping_mul pre_sec.combined sec_size in
    if leb (wrapping_add traversed_len cur_block_size) max_size
    then (if ltb (wrapping_add pre_sec.addr cur_block_size) max_size
        then wrapping_add pre_sec.addr cur_block_size
        else 0)
    else failed_addr

-- The header fields of a sector, from the 16 bytes at its start.
unfoldable pub decode_sector : ℕ → List ℕ → KvSecInfo → Result (Unit {0}) × KvSecInfo
decode_sector addr hdr sector =
    let magic = rd_u32 hdr sector_magic_offset in
    let combined = rd_u32 hdr 8 in
    if not (magic == sector_magic_word)
      || not (combined == sector_not_combined) && not (combined == sector_combined)
    then (
      err init_failed,
      record sector {
        store = SectorStoreStatus.unused;
        dirty = SectorDirtyStatus.unused;
        addr = addr;
        check_ok = false;
        combined = sector_not_combined;
        empty_kv = failed_addr;
        remain = pos 0;
      },
    )
    else (
      ok tt,
      record sector {
        addr = addr;
        check_ok = true;
        combined = combined;
        store = StoreStatus.from_index (get_status (take 1 hdr) sector_store_status_num);
        dirty = DirtyStatus.from_index (get_status (take 1 (drop 1 hdr)) sector_dirty_status_num);
        empty_kv = failed_addr;
        remain = pos 0;
      },
    )

-- The 16 header bytes of an empty sector that is not dirty.
unfoldable pub sector_header : ℕ → List ℕ
sector_header combined_value =
    (set_status (0xff ∷ []) sector_store_status_num (StoreStatus.index SectorStoreStatus.empty)).1
    ++ ((set_status (0xff ∷ []) sector_dirty_status_num
          (DirtyStatus.index SectorDirtyStatus.clean)).1
        ++ (replicate 2 0xff
            ++ (to_le_bytes sector_magic_word
                ++ (to_le_bytes combined_value ++ to_le_bytes data_unused))))

module _ {S : Type 0} (st : Storage S) where
  -- The loop over the nodes of a sector in use: it sums what they take.
  unfoldable pub measure_kvs : ℕ → Kv → KvSecInfo → Cmd (Kvdb S) (Result (Unit {0}) × KvSecInfo)
  measure_kvs zero kv sector = pure (ok tt, sector)
  measure_kvs (suc fuel) kv sector = do
    (_, kv) ← read_kv st kv
    if not kv.crc_is_ok
          && not (KvStatus.eq kv.status KvStatus.pre_write)
          && not (KvStatus.eq kv.status KvStatus.err_hdr)
        then pure (err read_err, record sector { remain = pos 0 })
        else (do
          let sector = record sector {
            empty_kv = wrapping_add sector.empty_kv kv.len;
            remain = sector.remain -ℤ pos kv.len;
          }
          next ← get_next_kv_addr st sector kv
          if next == failed_addr
              then pure (ok tt, sector)
              else measure_kvs fuel (record kv { addr_start = next }) sector)

  -- After the loop: the room is what lies in the erased tail of the sector.
  unfoldable pub settle_empty : KvSecInfo → Cmd (Kvdb S) KvSecInfo
  settle_empty sector = do
    sec_size ← gets (λ db. db.sec_size)
    ff_addr ← on_storage (continue_ff_addr st sector.empty_kv (wrapping_add sector.addr sec_size))
    pure (
        if sector.empty_kv == ff_addr then sector else record sector {
          empty_kv = ff_addr;
          remain = pos (wrapping_sub sec_size (wrapping_sub ff_addr sector.addr));
        })

  -- The traversal of a sector whose header is good.
  unfoldable pub traverse_sector : KvSecInfo → Cmd (Kvdb S) (Result (Unit {0}) × KvSecInfo)
  traverse_sector sector = do
    sec_size ← gets (λ db. db.sec_size)
    let start = wrapping_add sector.addr sector_hdr_data_size
    let room = pos (wrapping_sub sec_size sector_hdr_data_size)
    if StoreStatus.eq sector.store SectorStoreStatus.empty
        then pure (ok tt, record sector { empty_kv = start; remain = room })
        else if StoreStatus.eq sector.store SectorStoreStatus.using
        then (do
          (result, sector) ←
              measure_kvs (sec_size + 1) (record blank_kv { addr_start = start })
                (record sector { empty_kv = start; remain = room })
          sector ← settle_empty sector
          pure (result, sector))
        else pure (ok tt, record sector { empty_kv = start; remain = pos 0 })

  -- The rest of `read_sector_info`, after the header was decoded.
  unfoldable pub after_header :
      Bool → Result (Unit {0}) → KvSecInfo → Cmd (Kvdb S) (Result (Unit {0}) × KvSecInfo)
  after_header traversal (err e) sector = pure (err e, sector)
  after_header traversal (ok _) sector =
      if traversal then traverse_sector sector else pure (ok tt, sector)

  unfoldable pub read_sector_info :
      ℕ → KvSecInfo → Bool → Cmd (Kvdb S) (Result (Unit {0}) × KvSecInfo)
  read_sector_info addr sector traversal = do
    (_, hdr) ← on_storage (st.read addr (replicate sector_hdr_data_size 0))
    let (r, sector) = decode_sector addr hdr sector
    after_header traversal r sector

  unfoldable pub format_sector : ℕ → ℕ → Cmd (Kvdb S) (Result (Unit {0}))
  format_sector addr combined_value db =
      try (on_storage (st.erase addr db.sec_size))
        (λ _. on_storage (st.write addr (sector_header combined_value) true)) db
