-- ===== src/Tsdb/Sector.antt =====
-- tsdb.rs: reading logs and sector headers, the ring of sectors, and formatting a sector.
pub mod Log
use flash_db_rust.Base.{
  ℕ, zero, suc, ◌+◌, ◌-◌, Bool, true, false, List, not, ◌&&◌, ◌||◌, Cmd, Result, ok, err, read_err,
  init_failed, pure, gets, branch, ◌>>=◌, try, take, drop, replicate, ℤ, pos, ◌-ℤ◌, ltb_ℤ,
  wrapping_add, wrapping_sub, to_le_bytes, u32, leb, ltb, ◌==◌, if◌then◌else◌,
}
use flash_db_rust.Def.{failed_addr, data_unused, wg_align, sector_store_status_num, tsl_status_num}
use flash_db_rust.Def.TslStatus
use flash_db_rust.Def.TslStatus.{TslStatus}
use flash_db_rust.Def.StoreStatus
use flash_db_rust.Def.StoreStatus.{SectorStoreStatus}
use flash_db_rust.Status.{get_status}
use flash_db_rust.Storage.{Storage}
use flash_db_rust.Flash.{write_status}
use flash_db_rust.Tsdb.Types.{
  Tsl, TsdbSecInfo, Tsdb, blank_tsl, sector_magic_word, sector_hdr_data_size, sector_magic_offset,
  sector_start_time_offset, sector_end0_time_offset, sector_end0_idx_offset,
  sector_end0_status_offset, sector_end1_time_offset, sector_end1_idx_offset,
  sector_end1_status_offset, log_idx_data_size, log_idx_ts_offset, rd_u32, rd_i32, on_storage,
}

-- The log whose index record, at `addr_index`, has the bytes `idx`.
unfoldable pub decode_tsl : ℕ → List ℕ → ℕ → Tsl
decode_tsl max_len idx addr_index =
    let status = TslStatus.from_index (get_status (take 1 idx) tsl_status_num) in
    if TslStatus.eq status TslStatus.pre_write || TslStatus.eq status TslStatus.unused
    then record {
      status = status;
      time = pos 0;
      log_len = u32 max_len;
      addr_index = addr_index;
      addr_log = data_unused;
    }
    else record {
      status = status;
      time = rd_i32 idx log_idx_ts_offset;
      log_len = rd_u32 idx 8;
      addr_index = addr_index;
      addr_log = rd_u32 idx 12;
    }

-- The status of a place for end information in a header.
abbrev pub end_stat : List ℕ → ℕ → TslStatus
end_stat hdr off = TslStatus.from_index (get_status (take 1 (drop off hdr)) tsl_status_num)

-- The end time and end index of a sector, if its header has them.
abbrev pub decode_end : List ℕ → TsdbSecInfo → TsdbSecInfo
decode_end hdr sector =
    if TslStatus.eq (end_stat hdr sector_end0_status_offset) TslStatus.write
    then record sector {
      end_time = rd_i32 hdr sector_end0_time_offset;
      end_idx = rd_u32 hdr sector_end0_idx_offset;
    }
    else if TslStatus.eq (end_stat hdr sector_end1_status_offset) TslStatus.write
    then record sector {
      end_time = rd_i32 hdr sector_end1_time_offset;
      end_idx = rd_u32 hdr sector_end1_idx_offset;
    }
    else sector

-- The header fields of a sector, from the 32 bytes at its start.
unfoldable pub decode_sector : ℕ → ℕ → List ℕ → TsdbSecInfo → Result (Unit {0}) × TsdbSecInfo
decode_sector sec_size addr hdr sector =
    if not (rd_u32 hdr sector_magic_offset == sector_magic_word)
    then (err init_failed, record sector { addr = addr; check_ok = false })
    else (
      ok tt,
      decode_end hdr (record sector {
        addr = addr;
        check_ok = true;
        status = StoreStatus.from_index (get_status (take 1 hdr) sector_store_status_num);
        start_time = rd_i32 hdr sector_start_time_offset;
        end_info_stat =
            (end_stat hdr sector_end0_status_offset, end_stat hdr sector_end1_status_offset);
        empty_idx = wrapping_add addr sector_hdr_data_size;
        empty_data = wrapping_add addr sec_size;
        remain =
            pos
              (wrapping_sub (wrapping_add addr sec_size) (wrapping_add addr sector_hdr_data_size));
      }),
    )

-- What `read_sector_info` notes of a log that is not unused.
unfoldable pub note_tsl : TsdbSecInfo → Tsl → TsdbSecInfo
note_tsl sector tsl = record sector {
  end_time = if TslStatus.eq tsl.status TslStatus.pre_write then sector.end_time else tsl.time;
  end_idx = tsl.addr_index;
  empty_idx = wrapping_add sector.empty_idx log_idx_data_size;
  empty_data = sector.empty_data - wg_align tsl.log_len;
}

-- The bytes that a log takes from its sector.
abbrev pub tsl_cost : ℕ → ℕ
tsl_cost log_len = log_idx_data_size + wg_align log_len

unfoldable pub get_next_sector_addr : ℕ → ℕ → ℕ → ℕ → ℕ
get_next_sector_addr sec_size max_size pre_addr traversed_len =
    if leb (wrapping_add traversed_len sec_size) max_size
    then (if ltb (wrapping_add pre_addr sec_size) max_size
        then wrapping_add pre_addr sec_size
        else 0)
    else failed_addr

unfoldable pub get_last_sector_addr : ℕ → ℕ → ℕ → ℕ → ℕ
get_last_sector_addr sec_size max_size pre_addr traversed_len =
    if leb (wrapping_add traversed_len sec_size) max_size
    then (if leb sec_size pre_addr then pre_addr - sec_size else wrapping_sub max_size sec_size)
    else failed_addr

module _ {S T : Type 0} (st : Storage S) where
  -- `read_tsl` of the log at an address; the other fields of the argument are all set anew.
  unfoldable pub read_tsl : ℕ → Cmd (Tsdb S T) Tsl
  read_tsl addr_index = do
    (_, idx) ← on_storage (st.read addr_index (replicate log_idx_data_size 0))
    max_len ← gets (λ db. db.max_len)
    pure (decode_tsl max_len idx addr_index)

  -- The loop over the logs of a sector in use.
  unfoldable pub measure_tsls :
      ℕ → ℕ → TsdbSecInfo → Cmd (Tsdb S T) (Result (Unit {0}) × TsdbSecInfo)
  measure_tsls zero addr_index sector = pure (ok tt, sector)
  measure_tsls (suc fuel) addr_index sector = do
    tsl ← read_tsl addr_index
    let noted = note_tsl sector tsl
    let cost = pos (tsl_cost tsl.log_len)
    branch (TslStatus.eq tsl.status TslStatus.unused) (pure (ok tt, sector)) (
        branch (ltb_ℤ cost sector.remain)
          (measure_tsls fuel (wrapping_add addr_index log_idx_data_size)
            (record noted { remain = sector.remain -ℤ cost }))
          (pure (err read_err, record noted { remain = pos 0 })))

  -- The rest of `read_sector_info`, after the header was decoded. Each round of the loop takes at
  -- least 16 bytes from `remain`, so a round for each byte of the sector is enough.
  unfoldable pub after_header :
      Bool → Result (Unit {0}) → TsdbSecInfo → Cmd (Tsdb S T) (Result (Unit {0}) × TsdbSecInfo)
  after_header traversal (err e) sector = pure (err e, sector)
  after_header traversal (ok _) sector = do
    sec_size ← gets (λ db. db.sec_size)
    branch (StoreStatus.eq sector.status SectorStoreStatus.using && traversal)
        (measure_tsls (sec_size + 1) sector.empty_idx sector) (pure (ok tt, sector))

  unfoldable pub read_sector_info :
      ℕ → TsdbSecInfo → Bool → Cmd (Tsdb S T) (Result (Unit {0}) × TsdbSecInfo)
  read_sector_info addr sector traversal = do
    (_, hdr) ← on_storage (st.read addr (replicate sector_hdr_data_size 0))
    sec_size ← gets (λ db. db.sec_size)
    let (r, decoded) = decode_sector sec_size addr hdr sector
    after_header traversal r decoded

  unfoldable pub format_sector : ℕ → Cmd (Tsdb S T) (Result (Unit {0}))
  format_sector addr db =
      try (on_storage (st.erase addr db.sec_size))
        (λ _.
          try
            (on_storage (
              write_status st addr sector_store_status_num
                (StoreStatus.index SectorStoreStatus.empty) true))
            λ _. on_storage (
              st.write (wrapping_add addr sector_magic_offset) (to_le_bytes sector_magic_word)
                true))
        db
