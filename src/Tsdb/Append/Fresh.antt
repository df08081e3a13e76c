-- ===== src/Tsdb/Append/Fresh.antt =====
-- An empty sector, as its header says, which the first append puts in use.
use flash_db_rust.Base.{
  ℕ, ◌+◌, ◌-◌, ◌%◌, ◌^◌, ◌≤◌, ◌<◌, ◌≡◌, refl, ◌∙◌, ap, ◌⊎◌, true, false, Result, ok, List, [], ◌∷◌,
  ℤ, pos, leb_ℤ, ◌<ℤ◌, IsI32, arith, length, branch, try, ltb, replicate,
}
use flash_db_rust.Def.{failed_addr}
use flash_db_rust.Def.StoreStatus
use flash_db_rust.Def.StoreStatus.{SectorStoreStatus}
use flash_db_rust.Status.Laws.{status_byte}
use flash_db_rust.Storage.{Storage}
use flash_db_rust.Storage.Bytes.{slice}
use flash_db_rust.Storage.Laws.{IsByteArray}
use flash_db_rust.Flash.{write_status}
use flash_db_rust.Flash.Wrote.{Wrote, write_lem, write_status-Wrote, byte-Wrote_ne}
use flash_db_rust.Tsdb.Types.{Tsdb, time_bytes, blank_sector}
use flash_db_rust.Tsdb.Sector.{decode_sector, after_header, read_sector_info}
use flash_db_rust.Tsdb.Append.{start_sector, update_sec_status, advance, append_at}
use flash_db_rust.Tsdb.Append.Recover.{Measured}
use flash_db_rust.Tsdb.Append.Reopen.{IsHeader, decode_sector-IsHeader}
use flash_db_rust.Tsdb.Append.Stored.{Stored}
use flash_db_rust.Tsdb.Append.Room.{IsOpen, write_tsl_lem, appended, appended-IsOpen}

module _ {S T : Type 0} (st : Storage S) (arr : IsByteArray st) where
  open arr use {capacity, byte, read_in}

  -- The current sector is empty, and its descriptor says so.
  pub record IsEmpty (db : Tsdb S T) : Type 0 where
    pub empty : db.cur_sec.status ≡ SectorStoreStatus.empty
    pub room : Measured db.cur_sec 0 (db.cur_sec.addr + 32) (db.cur_sec.addr + db.sec_size)
    pub large : 32 ≤ db.sec_size
    pub fits : db.cur_sec.addr + db.sec_size ≤ capacity db.storage
    pub small : db.cur_sec.addr + db.sec_size < failed_addr

  module _ (time : ℤ) (db : Tsdb S T) where
    -- The medium after the two writes of `start_sector`.
    abbrev marked : Result (Unit {0}) × S
    marked = write_status st db.cur_sec.addr 4 2 true db.storage

    abbrev pub started : Result (Unit {0}) × S
    started = st.write (db.cur_sec.addr + 5) (time_bytes time) true marked.1

    abbrev pub begin : Tsdb S T
    begin = record db {
      storage = started.1;
      cur_sec = record (db.cur_sec) { status = SectorStoreStatus.using; start_time = time };
    }

    module _ (is_empty : IsEmpty db) where
      w1 : Wrote st arr db.storage marked db.cur_sec.addr (status_byte 4 2 ∷ [])
      w1 =
          write_status-Wrote st arr db.storage db.cur_sec.addr 4 2 true (omega arith) (omega arith)
            (omega arith) (omega arith) (omega arith)

      w2 : Wrote st arr marked.1 started (db.cur_sec.addr + 5) (time_bytes time)
      w2 =
          write_lem st arr marked.1 (db.cur_sec.addr + 5) (time_bytes time) true
            (rw (w1.same) (omega arith))

      pub capacity-started : capacity started.1 ≡ capacity db.storage
      capacity-started = w2.same ∙ w1.same

      pub byte-started :
          (x : ℕ)
          → (x < db.cur_sec.addr) ⊎ (db.cur_sec.addr + 9 ≤ x)
          → byte started.1 x ≡ byte db.storage x
      byte-started x outside =
          byte-Wrote_ne st arr _ _ (db.cur_sec.addr + 5) (time_bytes time) w2 x (omega arith)
          ∙ byte-Wrote_ne st arr _ _ db.cur_sec.addr _ w1 x (omega arith)

      pub start_sector_lem : start_sector st time db ≡ (ok tt, begin)
      unfolding start_sector try branch
      start_sector_lem =
          let a : (db.cur_sec.addr + 5) % 2 ^ 32 ≡ db.cur_sec.addr + 5 = omega arith in
          rw (is_empty.empty, a, w1.done, w2.done)

      pub begin-IsOpen : IsOpen st arr begin [] (db.sec_size - 32)
      unfolding Stored
      begin-IsOpen =
          let m = is_empty.room in
          record {
            using = refl;
            stored = (m.empty_idx, m.empty_data);
            ended = λ p. absurd (omega arith);
            left = m.remain ∙ ap pos (omega arith);
            apart = m.empty_data ∙ (rw (m.empty_idx) (omega arith));
            fits = rw (w2.same, w1.same) (is_empty.fits);
            small = is_empty.small;
          }

      append_at-begin :
          (blob : List ℕ)
          → 48 + length blob ≤ db.sec_size
          → length blob ≤ db.max_len
          → db.last_time <ℤ time
          → append_at st blob time db ≡ (ok tt, appended st arr begin blob time)
      unfolding append_at update_sec_status branch try
      append_at-begin blob enough short later =
          let fits : ltb db.max_len (length blob) ≡ false = ground arith in
          let after : leb_ℤ time db.last_time ≡ false = ground arith in
          let not_using : StoreStatus.eq db.cur_sec.status SectorStoreStatus.using ≡ false =
            rw (is_empty.empty) refl in
          let not_full : StoreStatus.eq db.cur_sec.status SectorStoreStatus.full ≡ false =
            rw (is_empty.empty) refl in
          let start = start_sector_lem in
          let write =
            write_tsl_lem st arr begin [] (db.sec_size - 32) blob time begin-IsOpen (omega arith) in
          rw (fits, after, not_using, not_full, start, write)

  -- On a byte array, appending a log that is no longer than the limit, with a later time stamp
  -- that fits 32 bits, to an empty sector with room for its record and data succeeds and puts the
  -- sector in use: it then holds exactly that log, the room is what the header and the log leave,
  -- and the time stamp is the new last time.
  pub append_at-IsEmpty :
      (db : Tsdb S T) (blob : List ℕ) (time : ℤ)
      → IsEmpty db
      → 48 + length blob ≤ db.sec_size
      → length blob ≤ db.max_len
      → db.last_time <ℤ time
      → IsI32 time
      → let (result, db') = append_at st blob time db in
        (result ≡ ok tt)
        × IsOpen st arr db' ((time, blob) ∷ []) (db.sec_size - 32 - (16 + length blob))
        × (db'.last_time ≡ time)
  unfolding advance
  append_at-IsEmpty db blob time is_empty enough short later t =
      let open_db = begin-IsOpen time db is_empty in
      rw (append_at-begin time db is_empty blob enough short later) (
        refl,
        appended-IsOpen st arr (begin time db) [] (db.sec_size - 32) blob time open_db (omega arith)
            t,
        refl,
      )

  -- Reading an empty sector's header.
  pub read_sector_info-IsEmpty :
      (addr : ℕ) (db : Tsdb S T)
      → IsHeader (slice (byte db.storage) addr 32) SectorStoreStatus.empty
      → 32 ≤ db.sec_size
      → addr + db.sec_size < failed_addr
      → addr + db.sec_size ≤ capacity db.storage
      → let ((r, sec), db') = read_sector_info st addr blank_sector false db in
        (r ≡ ok tt) × (db' ≡ db) × IsEmpty (record db { cur_sec = sec }) × (sec.addr ≡ addr)
  unfolding read_sector_info after_header branch
  read_sector_info-IsEmpty addr db header large small fits =
      let hdr = slice (byte db.storage) addr 32 in
      let (good, empty, same_addr, start) =
        decode_sector-IsHeader SectorStoreStatus.empty db.sec_size addr hdr header large
          (omega arith) in
      let not_using : StoreStatus.eq (decode_sector db.sec_size addr hdr blank_sector).1.status
            SectorStoreStatus.using
          ≡ false =
        rw empty refl in
      let read = read_in db.storage addr (replicate 32 0) (omega arith) in
      rw (read, good, not_using)
        (
          refl,
          refl,
          record {
            empty = empty;
            room = rw same_addr start;
            large = large;
            fits = rw same_addr fits;
            small = rw same_addr small;
          },
          same_addr,
        )
