-- ===== src/Tsdb/Append/Room.antt =====
-- `tsl_append` while the current sector has room: the sector holds one more log.
use flash_db_rust.Base.{
  ℕ, ◌+◌, ◌-◌, ◌%◌, ◌^◌, ◌≤◌, ◌<◌, ◌≡◌, refl, false, ok, List, [], ◌∷◌, ◌++◌, ℤ, pos, ◌-ℤ◌, ◌<ℤ◌,
  ltb_ℤ, leb_ℤ, IsI32, arith, length, branch, try, u32, ltb, wrapping_sub,
}
use flash_db_rust.Def.{failed_addr}
use flash_db_rust.Def.StoreStatus.{SectorStoreStatus}
use flash_db_rust.Storage.{Storage}
use flash_db_rust.Storage.Laws.{IsByteArray}
use flash_db_rust.Tsdb.Types.{Tsdb}
use flash_db_rust.Tsdb.Append.{write_tsl, start_sector, update_sec_status, advance, append_at}
use flash_db_rust.Tsdb.Append.RoundTrip.{
  valid, valid-IsLog, capacity-valid, write_log_lem, byte-valid,
}
use flash_db_rust.Tsdb.Append.Stored.{Stored, Stored-bounds, Stored-snoc, Stored_congr}

module _ {S T : Type 0} (st : Storage S) (arr : IsByteArray st) where
  open arr use {capacity, byte}

  -- The current sector is in use, holds exactly `logs`, and its descriptor tells where its free
  -- bytes begin and end, and how many they are.
  pub record IsOpen (db : Tsdb S T) (logs : List (ℤ × List ℕ)) (room : ℕ) : Type 0 where
    pub using : db.cur_sec.status ≡ SectorStoreStatus.using
    pub stored :
        Stored
          (byte db.storage)
          (db.cur_sec.addr + 32)
          (db.cur_sec.addr + db.sec_size)
          logs
          db.cur_sec.empty_idx
          db.cur_sec.empty_data
    pub ended : 0 < length logs → db.cur_sec.end_idx + 16 ≡ db.cur_sec.empty_idx
    pub left : db.cur_sec.remain ≡ pos room
    pub apart : db.cur_sec.empty_data ≡ db.cur_sec.empty_idx + room
    pub fits : db.cur_sec.addr + db.sec_size ≤ capacity db.storage
    pub small : db.cur_sec.addr + db.sec_size < failed_addr

  update_lem :
      (db : Tsdb S T) (logs : List (ℤ × List ℕ)) (room n : ℕ) (time : ℤ)
      → IsOpen db logs room
      → 16 + n ≤ room
      → update_sec_status st n time db ≡ (ok tt, db)
  unfolding update_sec_status start_sector branch try
  update_lem db logs room n time open_db enough =
      let e : ltb_ℤ (pos room) (pos (16 + n)) ≡ false = ground arith in
      rw (open_db.using, open_db.left, e)

  -- The database after a log was written and noted.
  abbrev pub appended : Tsdb S T → List ℕ → ℤ → Tsdb S T
  appended db blob time = advance (u32 (length blob)) time (record db {
    storage =
        (valid st arr db.cur_sec.empty_idx (db.cur_sec.empty_data - length blob) blob time db).1;
  })

  pub write_tsl_lem :
      (db : Tsdb S T) (logs : List (ℤ × List ℕ)) (room : ℕ) (blob : List ℕ) (time : ℤ)
      → IsOpen db logs room
      → 16 + length blob ≤ room
      → write_tsl st blob time db ≡ (
        ok tt,
        record db {
          storage =
              (valid st arr db.cur_sec.empty_idx
                (db.cur_sec.empty_data - length blob)
                blob
                time
                db).1;
        },
      )
  unfolding write_tsl
  write_tsl_lem db logs room blob time open_db enough =
      let b = Stored-bounds _ _ _ logs _ _ open_db.stored in
      let start : wrapping_sub db.cur_sec.empty_data (u32 (length blob))
          ≡ db.cur_sec.empty_data - length blob =
        omega arith in
      rw start (
        write_log_lem st arr db.cur_sec.empty_idx (db.cur_sec.empty_data - length blob) blob time db
          (omega arith) (omega arith) (omega arith))

  pub append_at_lem :
      (db : Tsdb S T) (logs : List (ℤ × List ℕ)) (room : ℕ) (blob : List ℕ) (time : ℤ)
      → IsOpen db logs room
      → 16 + length blob ≤ room
      → length blob ≤ db.max_len
      → db.last_time <ℤ time
      → append_at st blob time db ≡ (ok tt, appended db blob time)
  unfolding append_at branch try
  append_at_lem db logs room blob time open_db enough short later =
      let fits : ltb db.max_len (length blob) ≡ false = ground arith in
      let after : leb_ℤ time db.last_time ≡ false = ground arith in
      let b = Stored-bounds _ _ _ logs _ _ open_db.stored in
      let update = update_lem db logs room (u32 (length blob)) time open_db (omega arith) in
      rw (fits, after, update, write_tsl_lem db logs room blob time open_db enough)

  pub appended-IsOpen :
      (db : Tsdb S T) (logs : List (ℤ × List ℕ)) (room : ℕ) (blob : List ℕ) (time : ℤ)
      → IsOpen db logs room
      → 16 + length blob ≤ room
      → IsI32 time
      → IsOpen (appended db blob time) (logs ++ (time, blob) ∷ []) (room - (16 + length blob))
  unfolding advance ◌-ℤ◌
  appended-IsOpen db logs room blob time open_db enough t =
      let b = Stored-bounds _ _ _ logs _ _ open_db.stored in
      let log = db.cur_sec.empty_data - length blob in
      let idx = db.cur_sec.empty_idx in
      let s' : S = (valid st arr idx log blob time db).1 in
      let is_log =
        valid-IsLog st arr idx log blob time db (omega arith) (omega arith) (omega arith) in
      let kept =
        Stored_congr (byte db.storage) (byte s') _ _ logs _ _
          (λ x out.
            byte-valid st arr idx log blob time db (omega arith) (omega arith) (omega arith) x
              (omega arith) (omega arith))
          open_db.stored in
      let more = Stored-snoc (byte s') _ _ logs _ _ time blob kept (omega arith) t is_log in
      let size : length blob % 2 ^ 32 ≡ length blob = omega arith in
      let e1 : (idx + 16) % 2 ^ 32 ≡ idx + 16 = omega arith in
      let e2 : wrapping_sub db.cur_sec.empty_data (length blob) ≡ log = omega arith in
      rw (size, e1, e2)
        (record {
          using = open_db.using;
          stored = more;
          ended = λ _. refl;
          left = rw (open_db.left) (ground arith);
          apart = omega arith;
          fits =
              rw
                (capacity-valid st arr idx log blob time db (omega arith) (omega arith)
                  (omega arith))
                open_db.fits;
          small = open_db.small;
        })

  -- On a byte array, appending a log that is no longer than the limit, with a later time stamp
  -- that fits 32 bits, to an open sector with room for its record and data succeeds; the sector
  -- then holds the logs before and that log, in this order, the room shrinks by what the log
  -- takes, and the time stamp is the new last time.
  pub append_at-IsOpen :
      (db : Tsdb S T) (logs : List (ℤ × List ℕ)) (room : ℕ) (blob : List ℕ) (time : ℤ)
      → IsOpen db logs room
      → 16 + length blob ≤ room
      → length blob ≤ db.max_len
      → db.last_time <ℤ time
      → IsI32 time
      → let (result, db') = append_at st blob time db in
        (result ≡ ok tt)
        × IsOpen db' (logs ++ (time, blob) ∷ []) (room - (16 + length blob))
        × (db'.last_time ≡ time)
  unfolding advance
  append_at-IsOpen db logs room blob time open_db enough short later t =
      rw (append_at_lem db logs room blob time open_db enough short later)
        (refl, appended-IsOpen db logs room blob time open_db enough t, refl)
