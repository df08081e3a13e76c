-- ===== src/Kvdb/Lookup/Allocate.antt =====
-- kvdb.rs: `alloc_kv` returns the place behind the nodes of the first sector with room.
use native.Mathlib.Nat.{div-eq_of_eq-mul_left}
use flash_db_rust.Base.{
  branch, ℕ, suc, ◌+◌, ◌-◌, ◌*◌, ◌/◌, ◌^◌, ◌≤◌, ◌<◌, ◌≡◌, refl, ◌∙◌, sym, ap, ◌⊎◌, inl, inr, true,
  false, Option, none, some, List, [], ◌∷◌, ◌&&◌, arith, length, ltb, ◌==◌, ok, pos, replicate,
}
use flash_db_rust.Def.{failed_addr}
use flash_db_rust.Def.StoreStatus.{SectorStoreStatus}
use flash_db_rust.Storage.{Storage}
use flash_db_rust.Storage.Bytes.{slice}
use flash_db_rust.Storage.Laws.{IsByteArray}
use flash_db_rust.Kvdb.Types.{KvSecInfo, Kvdb, blank_sector, sector_not_combined}
use flash_db_rust.Kvdb.Sector.{after_header, read_sector_info}
use flash_db_rust.Kvdb.Walk.{walk_sectors}
use flash_db_rust.Kvdb.Alloc.{
  has_room, count_visit, count_sectors, alloc_visit, alloc_scan, alloc_kv,
}
use flash_db_rust.Kvdb.Lookup.{Node}
use flash_db_rust.Kvdb.Lookup.Rule.{
  Holds, Ring, header, header-addr, following, Holds-combined, Ring-rule,
}
use flash_db_rust.Kvdb.Lookup.Ring.{read_header, used-empty}
use flash_db_rust.Kvdb.Lookup.Measure.{traverse_lem}
use flash_db_rust.Kvdb.Lookup.Place.{
  using, used-ok, pair_eq, counted, Room, Place, decode_ok, decode_again, room_lem, counted_using,
}

module _ {S : Type 0} (st : Storage S) (arr : IsByteArray st) (db : Kvdb S)
    (small : db.max_size + db.sec_size + 32 < 2 ^ 32) (fits : db.max_size ≤ arr.capacity db.storage)
    (wide : 16 ≤ db.sec_size) where
  open arr use {capacity, byte, read_in}

  abbrev f : ℕ → ℕ
  f = byte db.storage

  -- The descriptor of the sector that is found
  abbrev pub placed : ℕ → ℕ → KvSecInfo
  placed place end = record (header (byte db.storage) place).1 {
    empty_kv = end;
    remain = pos (place + db.sec_size - end);
  }

  read_again :
      (addr : ℕ) (n : Node) (nodes : List Node) (size end : ℕ)
      → addr + db.sec_size ≤ db.max_size
      → Room f db.sec_size size addr n nodes end
      → read_sector_info st addr (header f addr).1 true db ≡ ((ok tt, placed addr end), db)
  unfolding read_sector_info after_header
  read_again addr n nodes size end inside r =
      let at = header-addr f addr in
      let sector : KvSecInfo = (header f addr).1 in
      let (good, check) =
        decode_ok addr (slice f addr 16) blank_sector (used-ok (header f addr) r.good) in
      let traversed =
        traverse_lem st arr db sector end r.store (used-empty (header f addr) r.good)
          (omega (arith, r.room)) (λ x p q. r.erased x p (omega arith)) (omega arith) (omega arith)
          (omega arith) (omega arith) n nodes (rw at r.stored) in
      rw
        (
          read_in db.storage addr (replicate 16 0) (omega arith),
          decode_again addr (slice f addr 16) (header f addr).1 blank_sector,
          good,
        )
        (traversed ∙ rw at refl)

  -- The visit of a sector that is not in use, and of the one with room
  alloc_other :
      (addr size : ℕ) (acc : Option KvSecInfo)
      → addr + db.sec_size ≤ db.max_size
      → using f addr ≡ false
      → alloc_visit st SectorStoreStatus.using size addr acc db
        ≡ (record { stop = false; sector = (header f addr).1; acc = none }, db)
  unfolding alloc_visit branch
  alloc_other addr size acc inside other =
      rw (read_header st arr [] db addr (omega arith), other) refl

  alloc_here :
      (addr size : ℕ) (acc : Option KvSecInfo) (n : Node) (nodes : List Node) (end : ℕ)
      → addr + db.sec_size ≤ db.max_size
      → db.gc_request ≡ false
      → Room f db.sec_size size addr n nodes end
      → alloc_visit st SectorStoreStatus.using size addr acc db
        ≡ (record { stop = true; sector = placed addr end; acc = some (placed addr end) }, db)
  unfolding alloc_visit branch has_room
  alloc_here addr size acc n nodes end inside quiet r =
      let (good, check) =
        decode_ok addr (slice f addr 16) blank_sector (used-ok (header f addr) r.good) in
      let fitting : has_room (placed addr end) size db.gc_request ≡ true =
        room_lem (placed addr end) size (addr + db.sec_size - end) db.gc_request check r.dirty quiet
          refl (omega (arith, r.room)) in
      rw
        (
          read_header st arr [] db addr (omega arith),
          r.store,
          read_again addr n nodes size end inside r,
          fitting,
        )
        refl

  -- The walk of `alloc_scan`
  alloc_step :
      (place size end addr : ℕ) (nodes : List Node) (sectors : List (List Node))
      (acc : Option KvSecInfo)
      → db.gc_request ≡ false
      → Place f db.sec_size db.max_size size (nodes ∷ sectors) addr place end
      → Holds f db.sec_size addr nodes
      → addr + db.sec_size ≤ db.max_size
      → let (v, db') = alloc_visit st SectorStoreStatus.using size addr acc db in
        (db' ≡ db)
        × (v.sector.addr ≡ addr)
        × (v.sector.combined ≡ sector_not_combined)
        × (v.stop ≡ true → v.acc ≡ some (placed place end))
        × (v.stop ≡ false
            → Place f db.sec_size db.max_size size sectors
                (following db.sec_size db.max_size addr)
                place
                end)
  unfolding Place
  alloc_step place size end addr [] sectors acc quiet (other, later) holds inside =
      rw (alloc_other addr size acc inside other) (
        refl,
        header-addr f addr,
        Holds-combined f db.sec_size db.max_size small wide addr [] holds,
        λ h. absurd (ground arith),
        λ h. later,
      )
  alloc_step place size end addr (n ∷ nodes) sectors acc quiet (inr (other, later)) holds inside =
      rw (alloc_other addr size acc inside other) (
        refl,
        header-addr f addr,
        Holds-combined f db.sec_size db.max_size small wide addr (n ∷ nodes) holds,
        λ h. absurd (ground arith),
        λ h. later,
      )
  alloc_step place size end addr (n ∷ nodes) sectors acc quiet (inl (here, r)) holds inside =
      rw (alloc_here addr size acc n nodes end inside quiet r) (
        refl,
        header-addr f addr,
        Holds-combined f db.sec_size db.max_size small wide addr (n ∷ nodes) holds,
        λ h. ap (λ a. some (placed a end)) here,
        λ h. absurd (ground arith),
      )

  Place-step :
      (size place end addr : ℕ) (nodes : List Node) (sectors : List (List Node))
      → Place f db.sec_size db.max_size size (nodes ∷ sectors) addr place end
      → (((header f addr).1.check_ok ≡ true) × (using f addr ≡ true))
        ⊎ Place f db.sec_size db.max_size size sectors
            (following db.sec_size db.max_size addr)
            place
            end
  unfolding Place
  Place-step size place end addr [] sectors (other, later) = inr later
  Place-step size place end addr (n ∷ nodes) sectors (inr (other, later)) = inr later
  Place-step size place end addr (n ∷ nodes) sectors (inl (here, r)) =
      inl (
        (decode_ok addr (slice f addr 16) blank_sector (used-ok (header f addr) r.good)).1,
        r.store,
      )

  -- The walk of `count_sectors`
  count_step :
      (place size end addr : ℕ) (nodes : List Node) (sectors : List (List Node)) (acc : ℕ × ℕ)
      → (0 < acc.1) ⊎ Place f db.sec_size db.max_size size (nodes ∷ sectors) addr place end
      → Holds f db.sec_size addr nodes
      → addr + db.sec_size ≤ db.max_size
      → let (v, db') = count_visit st addr acc db in
        (db' ≡ db)
        × (v.sector.addr ≡ addr)
        × (v.sector.combined ≡ sector_not_combined)
        × (v.stop ≡ true → 0 < v.acc.1)
        × (v.stop ≡ false
            → (0 < v.acc.1)
              ⊎ Place f db.sec_size db.max_size size sectors
                  (following db.sec_size db.max_size addr)
                  place
                  end)
  unfolding Place count_visit
  count_step place size end addr nodes sectors (e, u) p holds inside =
      rw (read_header st arr [] db addr (omega arith)) (
        refl,
        header-addr f addr,
        Holds-combined f db.sec_size db.max_size small wide addr nodes holds,
        λ h. absurd (ground arith),
        λ h. elim p [
          | inl some_before ↦ inl (counted (header f addr).1 e u some_before)
          | inr later ↦ elim (Place-step size place end addr nodes sectors later) [
            | inl (check, here) ↦ inl (counted_using (header f addr).1 e u check here)
            | inr rest ↦ inr rest
          ]
        ],
      )

  module _ (nodes : List Node) (sectors : List (List Node)) (size place end : ℕ)
      (total : db.sec_size + length sectors * db.sec_size ≡ db.max_size)
      (ring : Ring f db.sec_size db.max_size db.oldest_addr (nodes ∷ sectors))
      (quiet : db.gc_request ≡ false)
      (at : Place f db.sec_size db.max_size size (nodes ∷ sectors) db.oldest_addr place end) where
    rounds : db.max_size / db.sec_size ≡ suc (length sectors)
    rounds = div-eq_of_eq-mul_left (omega arith) (sym total ∙ omega arith)

    scan_lem : alloc_scan st SectorStoreStatus.using size db ≡ (some (placed place end), db)
    unfolding alloc_scan walk_sectors Place
    scan_lem =
        let (same, found) =
          Ring-rule (alloc_visit st SectorStoreStatus.using size) db f small wide
            (λ rest addr acc. Place f db.sec_size db.max_size size rest addr place end)
            (λ acc. acc ≡ some (placed place end))
            (λ addr ns rest acc p. alloc_step place size end addr ns rest acc quiet p)
            (λ addr acc p. absurd p) (db.max_size / db.sec_size + 1) db.oldest_addr 0 nodes sectors
            none (omega (arith, rounds)) (omega arith) ring at in
        pair_eq _ _ _ found same

    count_lem : ((count_sectors st db).1 ≡ db) × (0 < (count_sectors st db).0.1)
    unfolding count_sectors walk_sectors Place
    count_lem =
        Ring-rule (count_visit st) db f small wide
          (λ rest addr acc. (0 < acc.1) ⊎ Place f db.sec_size db.max_size size rest addr place end)
          (λ acc. 0 < acc.1) (λ addr ns rest acc p. count_step place size end addr ns rest acc p)
          (λ addr acc p. elim p [ inl h ↦ h | inr later ↦ absurd later ])
          (db.max_size / db.sec_size + 1) db.oldest_addr 0 nodes sectors (0, 0)
          (omega (arith, rounds)) (omega arith) ring (inr at)

    -- The allocation takes the room behind the nodes of that sector and changes nothing.
    pub alloc_kv-Place :
        (sector : KvSecInfo)
        → end < failed_addr
        → alloc_kv st sector size db ≡ ((end, placed place end), db)
    unfolding alloc_kv
    alloc_kv-Place sector low =
        let (same, many) = count_lem in
        let go : ltb 0 (count_sectors st db).0.1 ≡ true = ground arith in
        let stop : (ltb 0 (count_sectors st db).0.0 && end == failed_addr) ≡ false = ground arith in
        rw (same, go, scan_lem, stop) refl
