-- ===== src/Tsdb/Append/Format.antt =====
-- A sector that was formatted is empty.
use flash_db_rust.Base.{
  ◌⊎◌, ℕ, ◌+◌, ◌%◌, ◌^◌, ◌≤◌, ◌<◌, ◌≡◌, refl, ◌∙◌, sym, ap, inl, true, false, Result, ok, [], ◌∷◌,
  ◌++◌, arith, try, to_le_bytes,
}
use flash_db_rust.Def.{failed_addr}
use flash_db_rust.Def.StoreStatus.{SectorStoreStatus}
use flash_db_rust.Status.Laws.{status_byte}
use flash_db_rust.Storage.{Storage}
use flash_db_rust.Storage.Bytes.{slice, slice-append, overlay}
use flash_db_rust.Storage.Laws.{IsByteArray}
use flash_db_rust.Storage.Writes.{byte-erase_self, byte-erase_ne}
use flash_db_rust.Flash.{write_status}
use flash_db_rust.Flash.Laws.{get_status-status_byte}
use flash_db_rust.Flash.Wrote.{
  Wrote, write_lem, write_status-Wrote, byte-Wrote_ne, slice-Wrote_self,
}
use flash_db_rust.Tsdb.Types.{Tsdb, blank_sector}
use flash_db_rust.Tsdb.Sector.{read_sector_info, format_sector}
use flash_db_rust.Tsdb.Append.Reopen.{IsHeader}
use flash_db_rust.Tsdb.Append.Fresh.{IsEmpty, read_sector_info-IsEmpty}

module _ {S T : Type 0} (st : Storage S) (arr : IsByteArray st) where
  open arr use {capacity, byte}

  -- The medium after the writes of `format_sector`.
  module _ (addr : ℕ) (db : Tsdb S T) (large : 32 ≤ db.sec_size)
      (small : addr + db.sec_size < failed_addr)
      (fits : addr + db.sec_size ≤ capacity db.storage) where
    abbrev erased : Result (Unit {0}) × S
    erased = st.erase addr db.sec_size db.storage

    abbrev stated : Result (Unit {0}) × S
    stated = write_status st addr 4 1 true erased.1

    abbrev pub formatted : Result (Unit {0}) × S
    formatted = st.write (addr + 1) (to_le_bytes 0x304c_5354) true stated.1

    f1 : Wrote st arr erased.1 stated addr (status_byte 4 1 ∷ [])
    f1 =
        write_status-Wrote st arr erased.1 addr 4 1 true (omega arith)
          (rw arr.capacity-erase (omega arith)) (omega arith) (omega arith) (omega arith)

    f2 : Wrote st arr stated.1 formatted (addr + 1) (to_le_bytes 0x304c_5354)
    f2 =
        write_lem st arr stated.1 (addr + 1) (to_le_bytes 0x304c_5354) true
          (rw (f1.same, arr.capacity-erase) (omega arith))

    pub format_sector_lem : format_sector st addr db ≡ (ok tt, record db { storage = formatted.1 })
    unfolding format_sector try
    format_sector_lem =
        let a : (addr + 1) % 2 ^ 32 ≡ addr + 1 = omega arith in
        rw (arr.erase_in db.storage addr db.sec_size fits, a, f1.done, f2.done)

    pub byte-formatted :
        (x : ℕ) → (x < addr) ⊎ (addr + db.sec_size ≤ x) → byte formatted.1 x ≡ byte db.storage x
    byte-formatted x outside =
        byte-Wrote_ne st arr _ _ (addr + 1) (to_le_bytes 0x304c_5354) f2 x (omega arith)
        ∙ byte-Wrote_ne st arr _ _ addr _ f1 x (omega arith)
        ∙ byte-erase_ne st arr db.storage addr db.sec_size x fits outside

    pub byte-formatted_self :
        (x : ℕ) → addr + 5 ≤ x → x < addr + db.sec_size → byte formatted.1 x ≡ 0xff
    byte-formatted_self x p q =
        byte-Wrote_ne st arr _ _ (addr + 1) (to_le_bytes 0x304c_5354) f2 x (omega arith)
        ∙ byte-Wrote_ne st arr _ _ addr _ f1 x (omega arith)
        ∙ byte-erase_self st arr db.storage addr db.sec_size x fits (omega arith) q

    pub capacity-formatted : capacity formatted.1 ≡ capacity db.storage
    capacity-formatted = f2.same ∙ f1.same ∙ arr.capacity-erase db.storage addr db.sec_size

    pub formatted-IsHeader : IsHeader (slice (byte formatted.1) addr 32) SectorStoreStatus.empty
    formatted-IsHeader =
        let f = byte formatted.1 in
        let first : f addr ≡ status_byte 4 1 =
          byte-Wrote_ne st arr _ _ (addr + 1) (to_le_bytes 0x304c_5354) f2 addr (inl (omega arith))
          ∙ f1.bytes addr
          ∙ (unfold overlay in ground arith) in
        let word = slice-Wrote_self st arr _ _ (addr + 1) (to_le_bytes 0x304c_5354) f2 in
        let split : slice f addr 32 ≡ f addr ∷ slice f (addr + 1) 31 = unfold slice in refl in
        let bytes : slice f addr 32 ≡ f addr ∷ (slice f (addr + 1) 4 ++ slice f (addr + 1 + 4) 27) =
          split ∙ ap (λ rest. f addr ∷ rest) (sym (slice-append f (addr + 1) 4 27)) in
        let state = get_status-status_byte 4 1 (omega arith) (omega arith) (omega arith) in
        record { magic = rw (bytes, word) refl; state = rw (bytes, first, state) refl }

  -- On a byte array, `format_sector` on a sector of at least 32 bytes inside the medium, that
  -- ends below the greatest address, succeeds, whatever the sector held. All of its bytes behind
  -- the status and the magic word are then 0xff, and the bytes outside the sector are as before.
  -- `read_sector_info` succeeds and changes nothing, and with the descriptor that it builds the
  -- sector is empty, at its address and with all bytes behind the header left.
  pub format_sector-IsEmpty :
      (addr : ℕ) (db : Tsdb S T)
      → 32 ≤ db.sec_size
      → addr + db.sec_size < failed_addr
      → addr + db.sec_size ≤ capacity db.storage
      → let (result, db1) = format_sector st addr db in
        let ((r, sec), db2) = read_sector_info st addr blank_sector false db1 in
        (result ≡ ok tt)
        × (r ≡ ok tt)
        × (db2 ≡ db1)
        × IsEmpty st arr (record db1 { cur_sec = sec })
        × (sec.addr ≡ addr)
        × ((x : ℕ) → addr + 5 ≤ x → x < addr + db.sec_size → byte db1.storage x ≡ 0xff)
        × ((x : ℕ) → (x < addr) ⊎ (addr + db.sec_size ≤ x) → byte db1.storage x ≡ byte db.storage x)
  format_sector-IsEmpty addr db large small fits =
      let header = formatted-IsHeader addr db large small fits in
      let kept = capacity-formatted addr db large small fits in
      let (read, same, empty, at) =
        read_sector_info-IsEmpty st arr addr
          (record db { storage = (formatted addr db large small fits).1 }) header large small
          (rw kept fits) in
      rw (format_sector_lem addr db large small fits) (
        refl,
        read,
        same,
        empty,
        at,
        byte-formatted_self addr db large small fits,
        byte-formatted addr db large small fits,
      )
