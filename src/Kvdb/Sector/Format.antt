-- ===== src/Kvdb/Sector/Format.antt =====
-- A sector that was formatted reads as empty.
use flash_db_rust.Base.{
  try, ℕ, ◌+◌, ◌-◌, ◌%◌, ◌^◌, ◌≤◌, ◌<◌, ◌≡◌, refl, true, ok, pos, arith, length, wrapping_sub,
  subst, replicate, ◌∙◌, ◌⊎◌, inr,
}
use flash_db_rust.Def.StoreStatus.{SectorStoreStatus}
use flash_db_rust.Def.DirtyStatus.{SectorDirtyStatus}
use flash_db_rust.Status.{set_status, get_status}
use flash_db_rust.Storage.{Storage}
use flash_db_rust.Storage.Bytes.{slice}
use flash_db_rust.Storage.Laws.{IsByteArray}
use flash_db_rust.Storage.Writes.{slice-write_self, byte-write_ne, byte-erase_self, byte-erase_ne}
use flash_db_rust.Kvdb.Types.{KvSecInfo, Kvdb, sector_not_combined}
use flash_db_rust.Kvdb.Sector.{
  decode_sector, sector_header, traverse_sector, after_header, read_sector_info, format_sector,
}

-- The descriptor of an empty sector.
unfoldable pub fresh_sector : ℕ → ℕ → KvSecInfo
fresh_sector addr sec_size = record {
  check_ok = true;
  store = SectorStoreStatus.empty;
  dirty = SectorDirtyStatus.clean;
  addr = addr;
  combined = sector_not_combined;
  remain = pos (sec_size - 16);
  empty_kv = addr + 16;
}

module _ {S : Type 0} (st : Storage S) (arr : IsByteArray st) (addr : ℕ) (sector : KvSecInfo)
    (db : Kvdb S) where
  open arr use {capacity, byte, read_in}

  abbrev erased : S
  erased = (st.erase addr db.sec_size db.storage).1

  abbrev formatted : S
  formatted = (st.write addr (sector_header sector_not_combined) true erased).1

  decode_fresh :
      addr + 16 < 2 ^ 32
      → 16 ≤ db.sec_size
      → db.sec_size < 2 ^ 32
      → (s : S)
      → after_header st true
          (decode_sector addr (sector_header sector_not_combined) sector).0
          (decode_sector addr (sector_header sector_not_combined) sector).1
          (record db { storage = s })
        ≡ ((ok tt, fresh_sector addr db.sec_size), record db { storage = s })
  unfolding after_header decode_sector sector_header traverse_sector fresh_sector set_status
      get_status
  decode_fresh small size word s =
      let first : (addr + 16) % 2 ^ 32 ≡ addr + 16 = omega arith in
      let left : wrapping_sub db.sec_size 16 ≡ db.sec_size - 16 = omega arith in rw (first, left)

  header_size : length (sector_header sector_not_combined) ≡ 16
  unfolding sector_header set_status
  header_size = refl

  -- On a byte array, `format_sector` on a sector of at least 16 bytes inside the medium, whose
  -- addresses fit 32 bits, succeeds, whatever the sector held. All of its bytes behind the header
  -- are then 0xff, the bytes outside the sector are as before, and `read_sector_info` with the
  -- traversal reports a valid, empty and clean sector that is not combined, with all bytes behind
  -- the header left, whatever the descriptor held, and changes nothing.
  pub read_sector_info-format_sector :
      addr + db.sec_size < 2 ^ 32
      → 16 ≤ db.sec_size
      → addr + db.sec_size ≤ capacity db.storage
      → let (result, db') = format_sector st addr sector_not_combined db in
        (result ≡ ok tt)
        × (read_sector_info st addr sector true db' ≡ ((ok tt, fresh_sector addr db.sec_size), db'))
        × ((x : ℕ) → addr + 16 ≤ x → x < addr + db.sec_size → byte db'.storage x ≡ 0xff)
        × ((x : ℕ) → (x < addr) ⊎ (addr + db.sec_size ≤ x) → byte db'.storage x ≡ byte db.storage x)
  unfolding format_sector read_sector_info try
  read_sector_info-format_sector small size fits =
      let hdr = sector_header sector_not_combined in
      let kept : addr + length hdr ≤ capacity erased =
        rw (header_size, arr.capacity-erase) (omega arith) in
      let all : addr + 16 ≤ capacity formatted =
        rw (arr.capacity-write, arr.capacity-erase) (omega arith) in
      let stored : slice (byte formatted) addr 16 ≡ hdr =
        subst (λ n. slice (byte formatted) addr n ≡ hdr) header_size
          (slice-write_self st arr erased addr hdr true kept) in
      rw (arr.erase_in db.storage addr db.sec_size fits) (
        arr.write_in erased addr hdr true kept,
        rw (read_in formatted addr (replicate 16 0) all, stored)
            (decode_fresh (omega arith) size (omega arith) formatted),
        λ x p q.
            byte-write_ne st arr erased addr hdr true x kept (inr (rw header_size p))
            ∙ byte-erase_self st arr db.storage addr db.sec_size x fits (omega arith) q,
        λ x outside.
            byte-write_ne st arr erased addr hdr true x kept (rw header_size (omega arith))
            ∙ byte-erase_ne st arr db.storage addr db.sec_size x fits outside,
      )
