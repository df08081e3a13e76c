-- ===== src/Kvdb/Lookup/Ring.antt =====
-- kvdb.rs: the walk over the ring of sectors, and the value that `get_vec` returns.
use native.Mathlib.Nat.{div-eq_of_eq-mul_left}
use flash_db_rust.Base.{
  branch, ℕ, suc, ◌+◌, ◌*◌, ◌/◌, ◌%◌, ◌^◌, ◌≤◌, ◌<◌, ◌≡◌, refl, ◌∙◌, sym, subst, Bool, true, false,
  Option, List, [], ◌∷◌, arith, length, replicate, if◌then◌else◌, Option-cases, inl, inr,
  length-replicate, Result, ok, err, not, Cmd,
}
use flash_db_rust.Def.StoreStatus
use flash_db_rust.Def.StoreStatus.{SectorStoreStatus}
use flash_db_rust.Storage.{Storage}
use flash_db_rust.Storage.Laws.{IsByteArray}
use flash_db_rust.Kvdb.Types.{Kv, KvSecInfo, Kvdb, blank_kv, blank_sector, sector_not_combined}
use flash_db_rust.Kvdb.Sector.{after_header, read_sector_info}
use flash_db_rust.Kvdb.Walk.{walk_sectors, walk_kvs}
use flash_db_rust.Kvdb.Find.{find_visit, find_kv}
use flash_db_rust.Kvdb.Api.{get_vec}
use flash_db_rust.Kvdb.Lookup.{Node, lookup, lookup-append, Nodes-length}
use flash_db_rust.Kvdb.Lookup.Rule.{
  Holds, Ring, concat, header, header-addr, is_used, following, Holds-combined, Ring-rule,
}
use flash_db_rust.Kvdb.Lookup.Sector.{Searched, Answer, Answer-hit, Answer-miss, kv_loop_lem}

pub used-empty :
    (t : Result (Unit {0}) × KvSecInfo)
    → is_used t ≡ true
    → StoreStatus.eq t.1.store SectorStoreStatus.empty ≡ false
used-empty (ok _, s) h = ground arith
used-empty (err e, s) h = absurd (ground arith)

module _ {S : Type 0} (st : Storage S) (arr : IsByteArray st) (key : List ℕ) (db : Kvdb S) where
  open arr use {capacity, byte, read_in}

  pub after_header_lem :
      (r : Result (Unit {0})) (sector : KvSecInfo)
      → after_header st false r sector db ≡ ((r, sector), db)
  unfolding after_header
  after_header_lem (ok _) sector = refl
  after_header_lem (err e) sector = refl

  pub read_header :
      (addr : ℕ)
      → addr + 16 ≤ capacity db.storage
      → read_sector_info st addr blank_sector false db ≡ (header (byte db.storage) addr, db)
  unfolding read_sector_info
  read_header addr h = rw (read_in db.storage addr (replicate 16 0) h) (after_header_lem _ _)

  module _ (small : db.max_size + db.sec_size + 32 < 2 ^ 32)
      (fits : db.max_size ≤ capacity db.storage) (wide : 16 ≤ db.sec_size) where
    find_visit_lem :
        (addr : ℕ) (nodes : List Node) (b : Bool) (kv : Kv)
        → Holds (byte db.storage) db.sec_size addr nodes
        → addr + db.sec_size ≤ db.max_size
        → length kv.name ≡ 64
        → let (visit, db') = find_visit st key addr (b, kv) db in
          (visit.stop ≡ visit.acc.0)
          × (visit.sector ≡ (header (byte db.storage) addr).1)
          × Searched st arr key db (lookup key nodes) visit.acc.0 visit.acc.1 db'
    unfolding find_visit Holds branch lookup Answer walk_kvs
    find_visit_lem addr [] b kv (combined, idle) inside room =
        rw (read_header addr (omega arith), idle) (refl, refl, (refl, room, refl))
    find_visit_lem addr (n ∷ nodes) b kv (combined, busy, (end, stored, tail, erased)) inside room =
        let at = header-addr (byte db.storage) addr in
        let sector : KvSecInfo = (header (byte db.storage) addr).1 in
        let whole : sector.addr + db.sec_size ≤ db.max_size = rw at inside in
        let first : (sector.addr + 16) % 2 ^ 32 ≡ addr + 16 = omega arith in
        let many = Nodes-length (byte db.storage) (addr + 16) (n ∷ nodes) end stored in
        let walked =
          kv_loop_lem st arr key db sector end (used-empty (header (byte db.storage) addr) busy)
            (omega arith) (λ x p q. erased x p (omega arith)) (omega arith) (omega arith) whole
            (omega arith) (db.sec_size + 1) n nodes (record kv { addr_start = addr + 16 })
            (omega arith) room stored in
        rw (read_header addr (omega arith), busy, first) (refl, refl, walked)

    -- What is known before a visit: the key has no valid node in the sectors before
    abbrev Sought : Option (List ℕ) → List (List Node) → ℕ → Bool × Kv → Type 0
    Sought out sectors addr (found, kv) =
        (lookup key (concat sectors) ≡ out) × (length kv.name ≡ 64) × (found ≡ false)

    abbrev Found : Option (List ℕ) → Bool × Kv → Type 0
    Found out (found, kv) =
        (length kv.name ≡ 64) × Answer (byte db.storage) (capacity db.storage) out found kv

    find_step :
        (out : Option (List ℕ)) (addr : ℕ) (nodes : List Node) (sectors : List (List Node))
        (acc : Bool × Kv)
        → Sought out (nodes ∷ sectors) addr acc
        → Holds (byte db.storage) db.sec_size addr nodes
        → addr + db.sec_size ≤ db.max_size
        → let (v, db') = find_visit st key addr acc db in
          (db' ≡ db)
          × (v.sector.addr ≡ addr)
          × (v.sector.combined ≡ sector_not_combined)
          × (v.stop ≡ true → Found out v.acc)
          × (v.stop ≡ false → Sought out sectors (following db.sec_size db.max_size addr) v.acc)
    unfolding Answer
    find_step out addr nodes sectors (b, kv) (sought, room, before) holds inside =
        let (stop, sector, (same, room', answer)) =
          find_visit_lem addr nodes b kv holds inside room in
        let combined =
          Holds-combined (byte db.storage) db.sec_size db.max_size small wide addr nodes holds in
        let visit = (find_visit st key addr (b, kv) db).0 in
        let whole = sym (lookup-append key nodes (concat sectors)) ∙ sought in
        (
          same,
          rw sector (header-addr (byte db.storage) addr),
          rw sector combined,
          λ e. (
            room',
            Answer-hit (byte db.storage) (capacity db.storage) (lookup key (concat sectors))
                (lookup key nodes) out visit.acc.0 visit.acc.1 answer (sym stop ∙ e) whole,
          ),
          λ e. (
            Answer-miss (byte db.storage) (capacity db.storage) (lookup key (concat sectors))
                (lookup key nodes) out visit.acc.0 visit.acc.1 answer (sym stop ∙ e) whole,
            room',
            sym stop ∙ e,
          ),
        )

    find_last :
        (out : Option (List ℕ)) (addr : ℕ) (acc : Bool × Kv)
        → Sought out [] addr acc
        → Found out acc
    unfolding Answer lookup
    find_last out addr (b, kv) (sought, room, before) =
        (room, subst (λ o. Answer (byte db.storage) (capacity db.storage) o b kv) sought before)

    -- `find_kv` finds the first valid node with the key, in the order of the ring, and changes
    -- nothing.
    pub find_kv_lem :
        (nodes : List Node) (sectors : List (List Node)) (kv : Kv)
        → db.sec_size + length sectors * db.sec_size ≡ db.max_size
        → Ring (byte db.storage) db.sec_size db.max_size db.oldest_addr (nodes ∷ sectors)
        → length kv.name ≡ 64
        → let ((found, got), db') = find_kv st key kv db in
          Searched st arr key db (lookup key (concat (nodes ∷ sectors))) found got db'
    unfolding find_kv walk_sectors Answer
    find_kv_lem nodes sectors kv total ring room =
        let rounds : db.max_size / db.sec_size ≡ suc (length sectors) =
          div-eq_of_eq-mul_left (omega arith) (sym total ∙ omega arith) in
        let out = lookup key (concat (nodes ∷ sectors)) in
        let (same, (room', answer)) =
          Ring-rule (find_visit st key) db (byte db.storage) small wide (Sought out) (Found out)
            (find_step out) (find_last out) (db.max_size / db.sec_size + 1) db.oldest_addr 0 nodes
            sectors (false, kv) (omega arith) (omega arith) ring (refl, room, refl) in
        (same, room', answer)

-- The ring of a database: its sectors, from the oldest on, with their nodes.
pub record IsRing {S : Type 0} (st : Storage S) (arr : IsByteArray st) (db : Kvdb S)
    (sectors : List (List Node)) : Type 0 where
  pub geometry : length sectors * db.sec_size ≡ db.max_size
  pub ring : Ring (arr.byte db.storage) db.sec_size db.max_size db.oldest_addr sectors
  pub some_sectors : 0 < length sectors
  pub wide : 16 ≤ db.sec_size
  pub small : db.max_size + db.sec_size + 32 < 2 ^ 32
  pub fits : db.max_size ≤ arr.capacity db.storage

-- The test of `init_ok` at the start of an operation
pub opened_lem :
    {S B : Type 0} (b : Bool) (m n : Cmd S B) (s : S) → b ≡ true → (if not b then m else n) s ≡ n s
opened_lem true m n s h = refl
opened_lem false m n s h = absurd (ground arith)

-- On a byte array, for an open database that `IsRing` describes: its sectors lie inside the
-- medium, have at least 16 bytes, end more than a sector and 32 bytes below 2^32 and are not
-- combined, and each is not in use or holds at least one complete node, with keys of at most 63
-- bytes, one node behind the other and then at least 48 bytes, all erased. `get_vec` then returns
-- the value of the first valid node with the key, in the order of the ring from the oldest sector
-- on, or nothing where there is none, and changes nothing.
pub get_vec-lookup :
    {S : Type 0} (st : Storage S) (arr : IsByteArray st) (key : List ℕ) (db : Kvdb S)
    (sectors : List (List Node))
    → IsRing st arr db sectors
    → db.init_ok ≡ true
    → get_vec st key db ≡ (lookup key (concat sectors), db)
unfolding get_vec Answer
get_vec-lookup st arr key db [] h opened = absurd (omega (arith, h.some_sectors))
get_vec-lookup st arr key db (nodes ∷ sectors) h opened =
    let total : db.sec_size + length sectors * db.sec_size ≡ db.max_size =
      omega (arith, h.geometry) in
    let (same, room, answer) =
      find_kv_lem st arr key db h.small h.fits h.wide nodes sectors blank_kv total h.ring refl in
    opened_lem db.init_ok _ _ db opened
    ∙ elim (Option-cases (lookup key (concat (nodes ∷ sectors)))) [
      | inl e ↦
          let miss : (find_kv st key blank_kv db).0.0 ≡ false =
            subst
              (λ o.
                Answer (arr.byte db.storage) (arr.capacity db.storage) o
                  (find_kv st key blank_kv db).0.0 (find_kv st key blank_kv db).0.1)
              e answer in
          rw (miss, e, same) refl
      | inr (v, e) ↦
          let (hit, len, content, bound) =
            subst
              (λ o.
                Answer (arr.byte db.storage) (arr.capacity db.storage) o
                  (find_kv st key blank_kv db).0.0 (find_kv st key blank_kv db).0.1)
              e answer in
          let size = length-replicate {A = ℕ} (length v) 0 in
          let got =
            arr.read_in db.storage (find_kv st key blank_kv db).0.1.addr_value
              (replicate (length v) 0) (rw size bound) in
          rw (hit, e, same, len, got, size, content) refl
    ]
