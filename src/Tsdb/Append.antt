-- ===== src/Tsdb/Append.antt =====
-- tsdb.rs: writing a log and moving on to the next sector.
pub mod RoundTrip
pub mod Stored
pub mod Room
pub mod Order
pub mod Recover
pub mod Refused
pub mod Reopen
pub mod Fresh
pub mod Format
pub mod Close
pub mod Turn
pub mod Roll
pub mod Refines
use flash_db_rust.Base.{
  ℕ, ◌+◌, ◌-◌, min, Bool, true, false, Option, none, some, List, [], ◌∷◌, ◌++◌, not, ◌&&◌, Cmd,
  Result, ok, err, write_err, saved_full, init_failed, is_ok, pure, gets, modify, branch, ◌>>=◌,
  ◌>>◌, try, length, take, drop, replicate, ℤ, pos, ◌-ℤ◌, ltb_ℤ, leb_ℤ, wrapping_add, wrapping_sub,
  to_le_bytes, u32, ltb, if◌then◌else◌,
}
use flash_db_rust.Def.{wg_align, sector_store_status_num, tsl_status_num}
use flash_db_rust.Def.TslStatus
use flash_db_rust.Def.TslStatus.{TslStatus}
use flash_db_rust.Def.StoreStatus
use flash_db_rust.Def.StoreStatus.{SectorStoreStatus}
use flash_db_rust.Storage.{Storage}
use flash_db_rust.Flash.{write_status, write_align}
use flash_db_rust.Tsdb.Types.{
  Tsl, TsdbSecInfo, Tsdb, blank_sector, sector_start_time_offset, sector_end0_time_offset,
  sector_end0_idx_offset, sector_end0_status_offset, sector_end1_time_offset,
  sector_end1_idx_offset, sector_end1_status_offset, log_idx_data_size, log_idx_ts_offset,
  time_bytes, on_storage,
}
use flash_db_rust.Tsdb.Sector.{tsl_cost, read_sector_info, format_sector}

-- Bytes 4 to 16 of an index record.
unfoldable pub index_bytes : ℤ → ℕ → ℕ → List ℕ
index_bytes time log_len log_addr =
    time_bytes time ++ (to_le_bytes (u32 log_len) ++ to_le_bytes log_addr)

-- The address of the sector after the current one, or `none` at the end without rollover.
unfoldable pub new_sector_addr : {S T : Type 0} → Tsdb S T → Option ℕ
new_sector_addr db =
    if ltb (wrapping_add db.cur_sec.addr db.sec_size) db.max_size
    then some (wrapping_add db.cur_sec.addr db.sec_size)
    else if db.rollover
    then some 0
    else none

-- What `tsl_append` keeps of a log that was written.
unfoldable pub advance : {S T : Type 0} → ℕ → ℤ → Tsdb S T → Tsdb S T
advance blob_size cur_time db = record db {
  last_time = cur_time;
  cur_sec = record (db.cur_sec) {
    end_idx = db.cur_sec.empty_idx;
    end_time = cur_time;
    empty_idx = wrapping_add db.cur_sec.empty_idx log_idx_data_size;
    empty_data = wrapping_sub db.cur_sec.empty_data (wg_align blob_size);
    remain = db.cur_sec.remain -ℤ pos (tsl_cost blob_size);
  };
}

module _ {S T : Type 0} (st : Storage S) where
  -- The writes of `write_tsl` for an index record at `idx_addr` and data at `log_addr`: the state
  -- that the log is being written, the record, the data, and last the state that it is valid.
  unfoldable pub write_log : ℕ → ℕ → List ℕ → ℤ → Cmd (Tsdb S T) (Result (Unit {0}))
  write_log idx_addr log_addr blob time =
      try
        (on_storage
          (write_status st idx_addr tsl_status_num (TslStatus.index TslStatus.pre_write) false))
        λ _.
          try
            (on_storage (
              st.write (wrapping_add idx_addr log_idx_ts_offset)
                (index_bytes time (length blob) log_addr) false))
            λ _. try (on_storage (write_align st log_addr blob)) λ _.
              on_storage
                (write_status st idx_addr tsl_status_num (TslStatus.index TslStatus.write) true)

  unfoldable pub write_tsl : List ℕ → ℤ → Cmd (Tsdb S T) (Result (Unit {0}))
  write_tsl blob time db =
      write_log db.cur_sec.empty_idx
        (wrapping_sub db.cur_sec.empty_data (wg_align (u32 (length blob)))) blob time db

  -- The end time and end index of a full sector, in one of the two places of its header.
  unfoldable pub write_end_info : ℕ → ℕ → ℕ → ℤ → ℕ → Cmd (Tsdb S T) (Result (Unit {0}))
  write_end_info status_addr time_addr idx_addr last_time end_index =
      try
        (on_storage
          (write_status st status_addr tsl_status_num (TslStatus.index TslStatus.pre_write) false))
        λ _. try (on_storage (st.write time_addr (time_bytes last_time) false)) λ _.
          try (on_storage (st.write idx_addr (to_le_bytes end_index) false)) λ _.
            on_storage
              (write_status st status_addr tsl_status_num (TslStatus.index TslStatus.write) true)

  -- The first part of closing a sector: the place for the end information that is still unused.
  unfoldable pub close_end_info : TsdbSecInfo → ℤ → Cmd (Tsdb S T) (Result (Unit {0}))
  close_end_info sec last_time =
      let end_index_temp = wrapping_sub sec.empty_idx log_idx_data_size in
      branch (TslStatus.eq sec.end_info_stat.0 TslStatus.unused)
        (write_end_info (wrapping_add sec.addr sector_end0_status_offset)
          (wrapping_add sec.addr sector_end0_time_offset)
          (wrapping_add sec.addr sector_end0_idx_offset) last_time end_index_temp)
        (branch (TslStatus.eq sec.end_info_stat.1 TslStatus.unused)
          (write_end_info (wrapping_add sec.addr sector_end1_status_offset)
            (wrapping_add sec.addr sector_end1_time_offset)
            (wrapping_add sec.addr sector_end1_idx_offset) last_time end_index_temp)
          (pure (ok tt)))

  -- The sector at `new_sec_addr` becomes the current one; its old logs are dropped.
  unfoldable pub enter_sector : ℕ → Cmd (Tsdb S T) (Result (Unit {0}))
  enter_sector new_sec_addr = do
    (_, cs) ← read_sector_info st new_sec_addr blank_sector false
    modify (λ db. record db { cur_sec = cs })
    sec_size ← gets (λ db. db.sec_size)
    max_size ← gets (λ db. db.max_size)
    branch (StoreStatus.eq cs.status SectorStoreStatus.empty) (pure (ok tt)) (do
      modify (λ db. record db {
        oldest_addr =
            if ltb (wrapping_add new_sec_addr sec_size) max_size
            then wrapping_add new_sec_addr sec_size
            else 0;
      })
      try (format_sector st new_sec_addr) λ _. do
        (_, cs2) ← read_sector_info st new_sec_addr blank_sector false
        modify (λ db. record db { cur_sec = cs2 })
        pure (ok tt))

  unfoldable pub enter_next : Option ℕ → Cmd (Tsdb S T) (Result (Unit {0}))
  enter_next none = pure (err saved_full)
  enter_next (some addr) = enter_sector addr

  -- The branch of `update_sec_status` for a sector in use without room.
  unfoldable pub close_sector : Cmd (Tsdb S T) (Result (Unit {0}))
  close_sector db =
      try (close_end_info db.cur_sec db.last_time)
        (λ _.
          try
            (on_storage (
              write_status st db.cur_sec.addr sector_store_status_num
                (StoreStatus.index SectorStoreStatus.full) true))
            λ _. do
              modify (λ db. record db {
                cur_sec = record (db.cur_sec) { status = SectorStoreStatus.full };
              })
              next ← gets (λ db. new_sector_addr db)
              enter_next next)
        db

  -- The end of `update_sec_status`: an empty sector is put in use.
  unfoldable pub start_sector : ℤ → Cmd (Tsdb S T) (Result (Unit {0}))
  start_sector cur_time = do
    sec ← gets (λ db. db.cur_sec)
    branch (StoreStatus.eq sec.status SectorStoreStatus.empty)
        (do
          modify (λ db. record db {
            cur_sec = record (db.cur_sec) {
              status = SectorStoreStatus.using;
              start_time = cur_time;
            };
          })
          try
              (on_storage (
                write_status st sec.addr sector_store_status_num
                  (StoreStatus.index SectorStoreStatus.using) true))
              λ _. on_storage (
                st.write (wrapping_add sec.addr sector_start_time_offset) (time_bytes cur_time)
                  true))
        (pure (ok tt))

  unfoldable pub update_sec_status : ℕ → ℤ → Cmd (Tsdb S T) (Result (Unit {0}))
  update_sec_status blob_size cur_time = do
    sec ← gets (λ db. db.cur_sec)
    branch
        (StoreStatus.eq sec.status SectorStoreStatus.using
          && ltb_ℤ sec.remain (pos (tsl_cost blob_size)))
        (try close_sector λ _. start_sector cur_time)
        (branch (StoreStatus.eq sec.status SectorStoreStatus.full) (pure (err saved_full))
          (start_sector cur_time))

  -- `tsl_append`, once the time is known.
  unfoldable pub append_at : List ℕ → ℤ → Cmd (Tsdb S T) (Result (Unit {0}))
  append_at blob cur_time = do
    max_len ← gets (λ db. db.max_len)
    last_time ← gets (λ db. db.last_time)
    branch (ltb max_len (length blob)) (pure (err write_err)) (
        branch (leb_ℤ cur_time last_time) (pure (err write_err)) (
          try (update_sec_status (u32 (length blob)) cur_time) λ _.
            try (write_tsl blob cur_time)
              λ _. do modify (advance (u32 (length blob)) cur_time); pure (ok tt)))

  -- `tsl_append`; without a time stamp the closure `get_time` is called first.
  unfoldable pub tsl_append : Cmd T ℤ → List ℕ → Option ℤ → Cmd (Tsdb S T) (Result (Unit {0}))
  tsl_append get_time blob (some t) = append_at blob t
  tsl_append get_time blob none =
      λ db. let (t, clock) = get_time db.clock in append_at blob t (record db { clock = clock })

  unfoldable pub append : Cmd T ℤ → List ℕ → Cmd (Tsdb S T) (Result (Unit {0}))
  append get_time blob = do
    init_ok ← gets (λ db. db.init_ok)
    branch (not init_ok) (pure (err init_failed)) (tsl_append get_time blob none)

  unfoldable pub append_with_ts : Cmd T ℤ → List ℕ → ℤ → Cmd (Tsdb S T) (Result (Unit {0}))
  append_with_ts get_time blob timestamp = do
    init_ok ← gets (λ db. db.init_ok)
    branch (not init_ok) (pure (err init_failed)) (tsl_append get_time blob (some timestamp))

  -- The public `set_status` of a log.
  unfoldable pub set_tsl_status : Tsl → TslStatus → Cmd (Tsdb S T) (Result (Unit {0}))
  set_tsl_status tsl status =
      on_storage (write_status st tsl.addr_index tsl_status_num (TslStatus.index status) true)

  -- The number of bytes read, and the buffer.
  unfoldable pub read_log : Tsl → List ℕ → Cmd (Tsdb S T) (ℕ × List ℕ)
  read_log tsl buf = do
    let read_len = min (length buf) tsl.log_len
    (r, got) ← on_storage (st.read tsl.addr_log (take read_len buf))
    pure (if is_ok r then read_len else 0, got ++ drop read_len buf)
