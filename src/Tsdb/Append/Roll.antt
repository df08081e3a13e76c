-- ===== src/Tsdb/Append/Roll.antt =====
-- At the end of the ring: the next sector is full, its logs are dropped, and the log is its first.
use flash_db_rust.Base.{
  ℕ, ◌+◌, ◌-◌, ◌≤◌, ◌<◌, ◌≡◌, refl, ◌∙◌, sym, ◌⊎◌, inr, false, ok, List, [], ◌∷◌, ℤ, ◌<ℤ◌, IsI32,
  arith, length, branch, try, ltb, replicate, wrapping_add, if◌then◌else◌,
}
use flash_db_rust.Def.{failed_addr}
use flash_db_rust.Def.StoreStatus
use flash_db_rust.Def.StoreStatus.{SectorStoreStatus}
use flash_db_rust.Storage.{Storage}
use flash_db_rust.Storage.Bytes.{slice}
use flash_db_rust.Storage.Laws.{IsByteArray}
use flash_db_rust.Tsdb.Types.{Tsdb, blank_sector}
use flash_db_rust.Tsdb.Sector.{decode_sector, after_header, read_sector_info}
use flash_db_rust.Tsdb.Append.{enter_sector, append_at, advance}
use flash_db_rust.Tsdb.Append.Reopen.{IsHeader, decode_sector-IsHeader}
use flash_db_rust.Tsdb.Append.Stored.{Stored}
use flash_db_rust.Tsdb.Append.Room.{IsOpen, appended}
use flash_db_rust.Tsdb.Append.RoundTrip.{byte-valid}
use flash_db_rust.Tsdb.Append.Fresh.{
  IsEmpty, read_sector_info-IsEmpty, begin, byte-started, capacity-started,
}
use flash_db_rust.Tsdb.Append.Format.{
  formatted, byte-formatted, byte-formatted_self, capacity-formatted, format_sector_lem,
  formatted-IsHeader,
}
use flash_db_rust.Tsdb.Append.Turn.{
  Turns, Enters, append_at-entered, append_at-Enters, full_db, byte-full_db, full_db-inside,
  full_db-IsHeader, close_sector-enter,
}

module _ {S T : Type 0} (st : Storage S) (arr : IsByteArray st) where
  open arr use {capacity, byte, read_in}

  read_full :
      (addr : ℕ) (db : Tsdb S T)
      → IsHeader (slice (byte db.storage) addr 32) SectorStoreStatus.full
      → 32 ≤ db.sec_size
      → addr + db.sec_size < failed_addr
      → addr + db.sec_size ≤ capacity db.storage
      → let ((r, sec), db') = read_sector_info st addr blank_sector false db in
        (db' ≡ db) × (sec.status ≡ SectorStoreStatus.full)
  unfolding read_sector_info after_header branch
  read_full addr db header large small fits =
      let hdr = slice (byte db.storage) addr 32 in
      let (good, full, same_addr, start) =
        decode_sector-IsHeader SectorStoreStatus.full db.sec_size addr hdr header large
          (omega arith) in
      let not_using : StoreStatus.eq (decode_sector db.sec_size addr hdr blank_sector).1.status
            SectorStoreStatus.using
          ≡ false =
        rw full refl in
      let read = read_in db.storage addr (replicate 32 0) (omega arith) in
      rw (read, good, not_using) (refl, full)

module _ {S T : Type 0} (st : Storage S) (arr : IsByteArray st) (db : Tsdb S T) where
  open arr use {capacity, byte}

  module _ (logs : List (ℤ × List ℕ)) (room next : ℕ)
      (rolls : Turns st arr db SectorStoreStatus.full logs room next) where
    inside_closed : next + db.sec_size ≤ capacity (full_db st arr db).storage
    inside_closed = full_db-inside st arr db _ logs room next rolls

    -- The database with the full sector as the current one, and the oldest sector behind it.
    abbrev dropped : Tsdb S T
    dropped = record (full_db st arr db) {
      cur_sec = (read_sector_info st next blank_sector false (full_db st arr db)).0.1;
      oldest_addr =
          if ltb (wrapping_add next db.sec_size) db.max_size
          then wrapping_add next db.sec_size
          else 0;
    }

    abbrev cleared : Tsdb S T
    cleared = record dropped {
      storage = (formatted st arr next dropped (rolls.large) (rolls.low) inside_closed).1;
    }

    abbrev entered : Tsdb S T
    entered = record cleared { cur_sec = (read_sector_info st next blank_sector false cleared).0.1 }

    entered-IsEmpty :
        ((read_sector_info st next blank_sector false cleared).1 ≡ cleared)
        × IsEmpty st arr entered
        × (entered.cur_sec.addr ≡ next)
    entered-IsEmpty =
        let header =
          formatted-IsHeader st arr next dropped (rolls.large) (rolls.low) inside_closed in
        let (read, kept, empty, at) =
          read_sector_info-IsEmpty st arr next cleared header (rolls.large) (rolls.low) (
            rw (capacity-formatted st arr next dropped (rolls.large) (rolls.low) inside_closed)
              inside_closed) in
        (kept, empty, at)

    enter_sector_lem : enter_sector st next (full_db st arr db) ≡ (ok tt, entered)
    unfolding enter_sector branch try
    enter_sector_lem =
        let (kept, full) =
          read_full st arr next (full_db st arr db)
            (full_db-IsHeader st arr db _ logs room next rolls) (rolls.large) (rolls.low)
            inside_closed in
        let (kept', empty, at) = entered-IsEmpty in
        let not_empty : StoreStatus.eq dropped.cur_sec.status SectorStoreStatus.empty ≡ false =
          rw full refl in
        let format =
          format_sector_lem st arr next dropped (rolls.large) (rolls.low) inside_closed in
        rw (kept, not_empty, format, kept')

    entered-Enters : Enters st arr db entered next
    entered-Enters =
        let (kept, empty, at) = entered-IsEmpty in
        let apart = rolls.apart in
        record {
          close = close_sector-enter st arr db _ logs room next rolls entered enter_sector_lem;
          empty = empty;
          at = at;
          apart = apart;
          kept = λ x p q.
              byte-formatted st arr next dropped (rolls.large) (rolls.low) inside_closed x
                (omega arith)
              ∙ byte-full_db st arr db _ logs room next rolls x (inr p);
        }

    -- What an append leaves erased of the sector that was formatted
    byte_free :
        (blob : List ℕ) (time : ℤ)
        → 48 + length blob ≤ db.sec_size
        → (x : ℕ) → next + 9 ≤ x
        → x < next + db.sec_size - length blob
        → (x < next + 32) ⊎ (next + 48 ≤ x)
        → byte (appended st arr (begin st arr time entered) blob time).storage x ≡ 0xff
    unfolding advance
    byte_free blob time enough x p q clear =
        let (kept, empty, at) = entered-IsEmpty in
        let start = begin st arr time entered in
        let i = empty.room.empty_idx in
        let d = empty.room.empty_data in
        let fits = empty.fits in
        let low = empty.small in
        let same =
          byte-valid st arr start.cur_sec.empty_idx (start.cur_sec.empty_data - length blob) blob
            time start (omega arith) (omega arith)
            (rw (capacity-started st arr time entered empty) (omega arith)) x (omega arith)
            (omega arith) in
        sym same
        ∙ byte-started st arr time entered empty x (omega arith)
        ∙ byte-formatted_self st arr next dropped (rolls.large) (rolls.low) inside_closed x
            (omega arith) (omega arith)

  -- On a byte array, where the current sector is in use without room for a log, and without an
  -- entry in the first place for its end, and the next one is full and lies apart inside the
  -- medium and below the greatest address, appending the log, with a later time stamp that fits
  -- 32 bits, no longer than the limit and at least 48 bytes shorter than a sector, succeeds: the
  -- next sector is erased, becomes the current one and holds exactly that log, all of its bytes
  -- are 0xff but those of the status, the magic word, the start time, the record and the data,
  -- the sector that was closed still holds all of its logs, and the oldest sector is then the one
  -- behind the new current sector, or the first one of the ring.
  pub append_at-Turns_full :
      (logs : List (ℤ × List ℕ)) (room next : ℕ) (blob : List ℕ) (time : ℤ)
      → Turns st arr db SectorStoreStatus.full logs room next
      → room < 16 + length blob
      → 48 + length blob ≤ db.sec_size
      → length blob ≤ db.max_len
      → db.last_time <ℤ time
      → IsI32 time
      → let (result, db') = append_at st blob time db in
        (result ≡ ok tt)
        × IsOpen st arr db' ((time, blob) ∷ []) (db.sec_size - 32 - (16 + length blob))
        × (db'.cur_sec.addr ≡ next)
        × Stored
            (byte db'.storage)
            (db.cur_sec.addr + 32)
            (db.cur_sec.addr + db.sec_size)
            logs
            db.cur_sec.empty_idx
            db.cur_sec.empty_data
        × (db'.oldest_addr ≡ (
            if ltb (wrapping_add next db.sec_size) db.max_size
            then wrapping_add next db.sec_size
            else 0))
        × ((x : ℕ)
            → next + 9 ≤ x
            → x < next + db.sec_size - length blob
            → (x < next + 32) ⊎ (next + 48 ≤ x)
            → byte db'.storage x ≡ 0xff)
  append_at-Turns_full logs room next blob time rolls tight enough short later t =
      let (done, opened, at, stored, oldest) =
        append_at-Enters st arr db logs room next (entered logs room next rolls) (rolls.current)
          (entered-Enters logs room next rolls) blob time tight enough short later t in
      let result =
        append_at-entered st arr db logs room next (entered logs room next rolls) (rolls.current)
          (entered-Enters logs room next rolls) blob time tight enough short later in
      (
        done,
        opened,
        at,
        stored,
        oldest,
        rw result (byte_free logs room next rolls blob time enough),
      )
