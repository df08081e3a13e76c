-- ===== src/Kvdb/Sector/Header.antt =====
-- What reading a sector header leaves alone, and what its combined field can be.
use flash_db_rust.Base.{
  ℕ, ◌≡◌, refl, ◌⊎◌, false, List, Result, ok, err, arith, replicate, subst, sym,
}
use flash_db_rust.Storage.{Storage}
use flash_db_rust.Kvdb.Types.{KvSecInfo, Kvdb, sector_not_combined, sector_combined}
use flash_db_rust.Kvdb.Sector.{decode_sector, after_header, read_sector_info}

decode_sector-combined :
    (addr : ℕ) (hdr : List ℕ) (sector : KvSecInfo)
    → ((decode_sector addr hdr sector).1.combined ≡ sector_not_combined)
      ⊎ ((decode_sector addr hdr sector).1.combined ≡ sector_combined)
unfolding decode_sector
decode_sector-combined addr hdr sector = ground arith

module _ {S : Type 0} (st : Storage S) where
  after_header-keeps :
      (r : Result (Unit {0})) (sector : KvSecInfo) (db : Kvdb S)
      → let ((_, sector'), db') = after_header st false r sector db in
        (db'.sec_size ≡ db.sec_size)
        × (db'.max_size ≡ db.max_size)
        × (sector'.combined ≡ sector.combined)
  unfolding after_header
  after_header-keeps (ok _) sector db = (refl, refl, refl)
  after_header-keeps (err e) sector db = (refl, refl, refl)

  pub read_sector_info-keeps :
      (addr : ℕ) (sector : KvSecInfo) (db : Kvdb S)
      → let ((_, sector'), db') = read_sector_info st addr sector false db in
        (db'.sec_size ≡ db.sec_size)
        × (db'.max_size ≡ db.max_size)
        × ((sector'.combined ≡ sector_not_combined) ⊎ (sector'.combined ≡ sector_combined))
  unfolding read_sector_info
  read_sector_info-keeps addr sector db =
      let ((_, hdr), s) = st.read addr (replicate 16 0) db.storage in
      let (p, q, c) =
        after_header-keeps (decode_sector addr hdr sector).0 (decode_sector addr hdr sector).1
          (record db { storage = s }) in
      (
        p,
        q,
        subst (λ n. (n ≡ sector_not_combined) ⊎ (n ≡ sector_combined)) (sym c)
            (decode_sector-combined addr hdr sector),
      )
