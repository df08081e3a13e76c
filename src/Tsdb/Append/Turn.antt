-- ===== src/Tsdb/Append/Turn.antt =====
-- A sector without room for a log is closed, and the log is the first of the next sector.
use flash_db_rust.Base.{
  ℕ, ◌+◌, ◌-◌, ◌%◌, ◌^◌, ◌≤◌, ◌<◌, ◌≡◌, refl, ◌∙◌, sym, subst, ◌⊎◌, inr, true, false, some, ok,
  List, [], ◌∷◌, ℤ, pos, ltb_ℤ, leb_ℤ, ◌<ℤ◌, IsI32, arith, length, branch, try, ltb,
}
use flash_db_rust.Def.{failed_addr}
use flash_db_rust.Def.StoreStatus
use flash_db_rust.Def.StoreStatus.{SectorStoreStatus}
use flash_db_rust.Def.TslStatus.{TslStatus}
use flash_db_rust.Storage.{Storage}
use flash_db_rust.Storage.Bytes.{slice, slice_congr}
use flash_db_rust.Storage.Laws.{IsByteArray}
use flash_db_rust.Tsdb.Types.{Tsdb, blank_sector}
use flash_db_rust.Tsdb.Sector.{read_sector_info}
use flash_db_rust.Tsdb.Append.{
  new_sector_addr, enter_sector, enter_next, close_sector, update_sec_status, advance, append_at,
}
use flash_db_rust.Tsdb.Append.Reopen.{IsHeader}
use flash_db_rust.Tsdb.Append.Stored.{Stored, Stored-bounds, Stored_congr}
use flash_db_rust.Tsdb.Append.RoundTrip.{byte-valid}
use flash_db_rust.Tsdb.Append.Room.{IsOpen, write_tsl_lem, appended, appended-IsOpen}
use flash_db_rust.Tsdb.Append.Fresh.{
  IsEmpty, begin, begin-IsOpen, byte-started, capacity-started, start_sector_lem,
  read_sector_info-IsEmpty,
}
use flash_db_rust.Tsdb.Append.Close.{closed, w5, capacity-closed, byte-closed, close_end_info_lem}

module _ {S T : Type 0} (st : Storage S) (arr : IsByteArray st) (db : Tsdb S T) where
  open arr use {capacity, byte}

  -- Closing the current sector succeeds and leaves an empty current sector at `next`, apart from
  -- the one that was closed, which keeps its records and data.
  pub record Enters (entered : Tsdb S T) (next : ℕ) : Type 0 where
    pub close : close_sector st db ≡ (ok tt, entered)
    pub empty : IsEmpty st arr entered
    pub at : entered.cur_sec.addr ≡ next
    pub apart : (next + entered.sec_size ≤ db.cur_sec.addr) ⊎ (db.cur_sec.addr + db.sec_size ≤ next)
    pub kept :
        (x : ℕ)
        → db.cur_sec.addr + 32 ≤ x
        → x < db.cur_sec.addr + db.sec_size
        → byte entered.storage x ≡ byte db.storage x

  module _ (logs : List (ℤ × List ℕ)) (room next : ℕ) (entered : Tsdb S T)
      (current : IsOpen st arr db logs room) (enters : Enters entered next) (blob : List ℕ)
      (time : ℤ) (tight : room < 16 + length blob) (enough : 48 + length blob ≤ entered.sec_size)
      (short : length blob ≤ db.max_len) (later : db.last_time <ℤ time) where
    pub append_at-entered :
        append_at st blob time db ≡ (ok tt, appended st arr (begin st arr time entered) blob time)
    unfolding append_at update_sec_status branch try
    append_at-entered =
        let empty = enters.empty in
        let small = empty.small in
        let fits : ltb db.max_len (length blob) ≡ false = ground arith in
        let after : leb_ℤ time db.last_time ≡ false = ground arith in
        let is_using : StoreStatus.eq db.cur_sec.status SectorStoreStatus.using ≡ true =
          rw (current.using) refl in
        let size : length blob % 2 ^ 32 ≡ length blob = omega arith in
        let no_room : ltb_ℤ db.cur_sec.remain (pos (16 + length blob)) ≡ true =
          rw (current.left) (ground arith) in
        let close = enters.close in
        let start = start_sector_lem st arr time entered empty in
        let open_db = begin-IsOpen st arr time entered empty in
        let write =
          write_tsl_lem st arr (begin st arr time entered) [] (entered.sec_size - 32) blob time
            open_db (omega arith) in
        rw (fits, after, is_using, size, no_room, close, start, write)

    module _ (t : IsI32 time) where
      -- The bytes of the sector that was closed, behind its header, stay.
      byte_kept :
          (x : ℕ)
          → db.cur_sec.addr + 32 ≤ x
          → x < db.cur_sec.addr + db.sec_size
          → byte db.storage x
            ≡ byte (appended st arr (begin st arr time entered) blob time).storage x
      unfolding advance
      byte_kept x p q =
          let empty = enters.empty in
          let apart = enters.apart in
          let at = enters.at in
          let start = begin st arr time entered in
          let i = empty.room.empty_idx in
          let d = empty.room.empty_data in
          let fits = empty.fits in
          let low = empty.small in
          let same =
            byte-valid st arr start.cur_sec.empty_idx (start.cur_sec.empty_data - length blob) blob
              time start (omega arith) (omega arith)
              (rw (capacity-started st arr time entered empty) (omega arith)) x (omega arith)
              (omega arith) in
          sym (enters.kept x p q)
          ∙ sym (byte-started st arr time entered empty x (omega arith))
          ∙ same

      pub append_at-Enters :
          let (result, db') = append_at st blob time db in
          (result ≡ ok tt)
          × IsOpen st arr db' ((time, blob) ∷ []) (entered.sec_size - 32 - (16 + length blob))
          × (db'.cur_sec.addr ≡ next)
          × Stored
              (byte db'.storage)
              (db.cur_sec.addr + 32)
              (db.cur_sec.addr + db.sec_size)
              logs
              db.cur_sec.empty_idx
              db.cur_sec.empty_data
          × (db'.oldest_addr ≡ entered.oldest_addr)
      unfolding advance
      append_at-Enters =
          let start = begin st arr time entered in
          let open_db = begin-IsOpen st arr time entered (enters.empty) in
          let b = Stored-bounds _ _ _ logs _ _ current.stored in
          rw append_at-entered (
            refl,
            appended-IsOpen st arr start [] (entered.sec_size - 32) blob time open_db (omega arith)
                t,
            enters.at,
            Stored_congr (byte db.storage) _ _ _ logs _ _
                (λ x o. byte_kept x (omega arith) (omega arith)) current.stored,
            refl,
          )

  -- The current sector holds `logs`, and the sector to enter after it, at `next`, has `status`.
  pub record Turns (status : SectorStoreStatus) (logs : List (ℤ × List ℕ)) (room next : ℕ)
      : Type 0 where
    pub current : IsOpen st arr db logs room
    pub free : db.cur_sec.end_info_stat.0 ≡ TslStatus.unused
    pub target : new_sector_addr db ≡ some next
    pub apart : (next + db.sec_size ≤ db.cur_sec.addr) ⊎ (db.cur_sec.addr + db.sec_size ≤ next)
    pub header : IsHeader (slice (byte db.storage) next 32) status
    pub large : 32 ≤ db.sec_size
    pub inside : next + db.sec_size ≤ capacity db.storage
    pub low : next + db.sec_size < failed_addr

  -- The database with the current sector closed.
  abbrev pub full_db : Tsdb S T
  full_db = record db {
    storage = (closed st arr db).1;
    cur_sec = record (db.cur_sec) { status = SectorStoreStatus.full };
  }

  module _ (status : SectorStoreStatus) (logs : List (ℤ × List ℕ)) (room next : ℕ)
      (turns : Turns status logs room next) where
    fits_cur : db.cur_sec.addr + 32 ≤ capacity db.storage
    fits_cur = let h = turns.current.fits in let l = turns.large in omega arith

    small_cur : db.cur_sec.addr + 32 < failed_addr
    small_cur = let h = turns.current.small in let l = turns.large in omega arith

    pub byte-full_db :
        (x : ℕ)
        → (x < db.cur_sec.addr) ⊎ (db.cur_sec.addr + 32 ≤ x)
        → byte full_db.storage x ≡ byte db.storage x
    byte-full_db = byte-closed st arr db fits_cur small_cur

    pub full_db-inside : next + db.sec_size ≤ capacity full_db.storage
    full_db-inside = rw (capacity-closed st arr db fits_cur small_cur) (turns.inside)

    pub full_db-IsHeader : IsHeader (slice (byte full_db.storage) next 32) status
    full_db-IsHeader =
        let apart = turns.apart in
        let l = turns.large in
        subst (λ hdr. IsHeader hdr status)
          (slice_congr (byte db.storage) (byte full_db.storage) next 32
            (λ x p q. sym (byte-full_db x (omega arith))))
          (turns.header)

    -- Closing ends with entering the next sector.
    pub close_sector-enter :
        (entered : Tsdb S T)
        → enter_sector st next full_db ≡ (ok tt, entered)
        → close_sector st db ≡ (ok tt, entered)
    unfolding close_sector enter_next try new_sector_addr
    close_sector-enter entered enter =
        let close = close_end_info_lem st arr db fits_cur small_cur (turns.free) in
        let target = turns.target in
        let done = (w5 st arr db fits_cur small_cur).done in rw (close, done, target, enter)

  module _ (logs : List (ℤ × List ℕ)) (room next : ℕ)
      (turns : Turns SectorStoreStatus.empty logs room next) where
    abbrev entered : Tsdb S T
    entered = record full_db { cur_sec = (read_sector_info st next blank_sector false full_db).0.1 }

    entered-IsEmpty :
        ((read_sector_info st next blank_sector false full_db).1 ≡ full_db)
        × IsEmpty st arr entered
        × (entered.cur_sec.addr ≡ next)
    entered-IsEmpty =
        let (read, kept, empty, at) =
          read_sector_info-IsEmpty st arr next full_db (full_db-IsHeader _ logs room next turns)
            (turns.large) (turns.low) (full_db-inside _ logs room next turns) in
        (kept, empty, at)

    enter_sector_lem : enter_sector st next full_db ≡ (ok tt, entered)
    unfolding enter_sector branch
    enter_sector_lem =
        let (kept, empty, at) = entered-IsEmpty in
        let is_empty : StoreStatus.eq entered.cur_sec.status SectorStoreStatus.empty ≡ true =
          rw (empty.empty) refl in
        rw (kept, is_empty)

    entered-Enters : Enters entered next
    entered-Enters =
        let (kept, empty, at) = entered-IsEmpty in
        record {
          close = close_sector-enter _ logs room next turns entered enter_sector_lem;
          empty = empty;
          at = at;
          apart = turns.apart;
          kept = λ x p q. byte-full_db _ logs room next turns x (inr p);
        }

  -- On a byte array, where the current sector is in use without room for a log, and without an
  -- entry in the first place for its end, and the next one is empty and lies apart inside the
  -- medium and below the greatest address, appending the log, with a later time stamp that fits
  -- 32 bits, no longer than the limit and at least 48 bytes shorter than a sector, succeeds: the
  -- next sector is then the current one and holds exactly that log, and the sector that was
  -- closed still holds all of its logs. The oldest sector stays the same.
  pub append_at-Turns :
      (logs : List (ℤ × List ℕ)) (room next : ℕ) (blob : List ℕ) (time : ℤ)
      → Turns SectorStoreStatus.empty logs room next
      → room < 16 + length blob
      → 48 + length blob ≤ db.sec_size
      → length blob ≤ db.max_len
      → db.last_time <ℤ time
      → IsI32 time
      → let (result, db') = append_at st blob time db in
        (result ≡ ok tt)
        × IsOpen st arr db' ((time, blob) ∷ []) (db.sec_size - 32 - (16 + length blob))
        × (db'.cur_sec.addr ≡ next)
        × Stored
            (byte db'.storage)
            (db.cur_sec.addr + 32)
            (db.cur_sec.addr + db.sec_size)
            logs
            db.cur_sec.empty_idx
            db.cur_sec.empty_data
        × (db'.oldest_addr ≡ db.oldest_addr)
  append_at-Turns logs room next blob time turns tight enough short later t =
      append_at-Enters logs room next (entered logs room next turns) (turns.current)
        (entered-Enters logs room next turns) blob time tight enough short later t
