-- ===== src/Kvdb/Lookup/Set.antt =====
-- kvdb.rs: `set` of a key that has no value, and what is read afterwards.
use flash_db_rust.Base.{
  try, ℕ, ◌+◌, ◌-◌, ◌*◌, ◌^◌, ◌≤◌, ◌<◌, ◌≡◌, refl, ◌∙◌, ap, inl, true, false, none, some, List, [],
  ◌∷◌, arith, length, subst, eq_bytes, eq_bytes_refl, ltb, ltb_ℤ, pos, ◌==◌, ok, u32, wrapping_sub,
}
use flash_db_rust.Def.{failed_addr}
use flash_db_rust.Def.StoreStatus
use flash_db_rust.Def.StoreStatus.{SectorStoreStatus}
use flash_db_rust.Status.{get_status}
use flash_db_rust.Flash.Laws.{get_status-status_byte}
use flash_db_rust.Storage.{Storage}
use flash_db_rust.Storage.Laws.{IsByteArray}
use flash_db_rust.Kvdb.Types.{KvSecInfo, Kvdb, blank_kv, blank_sector, sec_remain_threshold}
use flash_db_rust.Kvdb.Alloc.{alloc_kv, update_sec_status}
use flash_db_rust.Kvdb.Find.{find_kv}
use flash_db_rust.Kvdb.Create.{node_len, new_kv, new_kv_ex, create_at, create_kv_blob}
use flash_db_rust.Kvdb.Create.Write.{
  valid, capacity-valid, status-valid, valid-IsNode, byte-valid, write_node_lem,
}
use flash_db_rust.Kvdb.Api.{set_kv, set, get_vec}
use flash_db_rust.Kvdb.Lookup.{Node, size, lookup}
use flash_db_rust.Kvdb.Lookup.Rule.{Ring, concat}
use flash_db_rust.Kvdb.Lookup.Ring.{IsRing, find_kv_lem, get_vec-lookup, opened_lem}
use flash_db_rust.Kvdb.Lookup.Place.{Place, Place-bounds, using}
use flash_db_rust.Kvdb.Lookup.Allocate.{placed, alloc_kv-Place}
use flash_db_rust.Kvdb.Lookup.Measure.{pos-sub}
use flash_db_rust.Kvdb.Lookup.Sector.{Answer}
use flash_db_rust.Kvdb.Lookup.Grow.{grow, length-grow, grow-Ring}
use flash_db_rust.Kvdb.Lookup.Grown.{lookup-grow_ne, lookup-grow_eq}

-- The node that `set` writes
abbrev pub new_node : List ℕ → List ℕ → Node
new_node key value = record { state = 2; key = key; value = value }

module _ {S : Type 0} (st : Storage S) (arr : IsByteArray st) (key value : List ℕ) (db : Kvdb S)
    (nodes : List Node) (sectors : List (List Node)) (place end : ℕ)
    (h : IsRing st arr db (nodes ∷ sectors)) (quiet : db.gc_request ≡ false)
    (at : Place
      (arr.byte db.storage)
      db.sec_size
      db.max_size
      (size (new_node key value))
      (nodes ∷ sectors)
      db.oldest_addr
      place
      end)
    (short : length key ≤ 63) (absent : lookup key (concat (nodes ∷ sectors)) ≡ none) where
  open arr use {capacity, byte}

  total : db.sec_size + length sectors * db.sec_size ≡ db.max_size
  total = omega (arith, h.geometry)

  first : db.oldest_addr + db.sec_size ≤ db.max_size
  unfolding Ring
  first = h.ring.1

  bounds :
      (place + 16 ≤ end)
      × (end + size (new_node key value) + 88 < place + db.sec_size)
      × (place + db.sec_size ≤ db.max_size)
      × (using (byte db.storage) place ≡ true)
  bounds =
      Place-bounds (byte db.storage) db.sec_size db.max_size (size (new_node key value)) place end
        db.oldest_addr (nodes ∷ sectors) h.ring at

  alloc_lem :
      alloc_kv st blank_sector (size (new_node key value)) db
      ≡ ((end, placed st arr db h.small h.fits h.wide place end), db)
  alloc_lem =
      let (low, room, inside, store) = bounds in
      let small = h.small in
      alloc_kv-Place st arr db h.small h.fits h.wide nodes sectors (size (new_node key value)) place
        end total h.ring quiet at blank_sector (omega arith)

  find_lem : ((find_kv st key blank_kv db).1 ≡ db) × ((find_kv st key blank_kv db).0.0 ≡ false)
  unfolding Answer
  find_lem =
      let (same, room, answer) =
        find_kv_lem st arr key db h.small h.fits h.wide nodes sectors blank_kv total h.ring refl in
      (
        same,
        subst
            (λ o.
              Answer (byte db.storage) (capacity db.storage) o (find_kv st key blank_kv db).0.0
                (find_kv st key blank_kv db).0.1)
            absent answer,
      )

  -- The database after `set`
  abbrev stored : Kvdb S
  stored = record db { storage = (valid st arr end key value db).1 }

  abbrev target : KvSecInfo
  target = placed st arr db h.small h.fits h.wide place end

  abbrev len : ℕ
  len = size (new_node key value)

  len_lem : node_len (u32 (length key)) (u32 (length value)) ≡ len
  len_lem = let (low, room, inside, store) = bounds in let small = h.small in omega arith

  there : (end == failed_addr) ≡ false
  there = let (low, room, inside, store) = bounds in let small = h.small in ground arith

  -- The sector keeps its status, since the allocation left more than the threshold.
  update_lem : update_sec_status st target len db ≡ (ok false, db)
  unfolding update_sec_status
  update_lem =
      let (low, room, inside, store) = bounds in
      let not_empty : StoreStatus.eq target.store SectorStoreStatus.empty ≡ false = ground arith in
      let first_test : ltb_ℤ (pos (place + db.sec_size - end)) (pos sec_remain_threshold) ≡ false =
        ground arith in
      let second_test : ltb_ℤ (pos (place + db.sec_size - end - len)) (pos sec_remain_threshold)
          ≡ false =
        ground arith in
      rw
        (
          not_empty,
          store,
          first_test,
          pos-sub (place + db.sec_size - end) len (omega arith),
          second_test,
        )
        refl

  create_lem : create_kv_blob st target key value db ≡ (ok tt, stored)
  unfolding create_kv_blob create_at try
  create_lem =
      let (low, room, inside, store) = bounds in
      let small = h.small in
      let fits = h.fits in
      let known : ltb 64 (length key) ≡ false = ground arith in
      let enough : ltb (wrapping_sub db.sec_size 16) len ≡ false = ground arith in
      let written = write_node_lem st arr end key value db (omega arith) (omega arith) in
      rw (len_lem, known, enough, there, update_lem, written) refl

  new_kv_lem :
      new_kv_ex st blank_sector (u32 (length key)) (u32 (length value)) db ≡ ((end, target), db)
  unfolding new_kv_ex new_kv
  new_kv_lem = rw (len_lem, alloc_lem, there) refl

  set_lem : set_kv st key value db ≡ (ok tt, stored)
  unfolding set_kv
  set_lem =
      let (same, miss) = find_lem in rw (new_kv_lem, there, same, miss, create_lem, quiet) refl

  -- The ring with the new node
  ring_lem :
      IsRing st arr stored
        (grow db.sec_size db.max_size (new_node key value) place db.oldest_addr (nodes ∷ sectors))
  ring_lem =
      let (low, room, inside, store) = bounds in
      let small = h.small in
      let fits = h.fits in
      let long : end + 24 + length key + length value < 2 ^ 32 = omega arith in
      let inner : end + 24 + length key + length value ≤ capacity db.storage = omega arith in
      let kept = capacity-valid st arr end key value db long inner in
      let same =
        length-grow db.sec_size db.max_size (new_node key value) place db.oldest_addr
          (nodes ∷ sectors) in
      let state : get_status (byte stored.storage end ∷ []) 6 ≡ 2 =
        ap (λ b. get_status (b ∷ []) 6) (status-valid st arr end key value db long inner)
        ∙ get_status-status_byte 6 2 (omega arith) (omega arith) (omega arith) in
      record {
        geometry = rw same h.geometry;
        ring =
            grow-Ring (byte db.storage) db.oldest_addr db.sec_size db.max_size place end
              (new_node key value) (omega (arith, first, h.wide)) h.wide (byte stored.storage)
              (λ x o. byte-valid st arr end key value db long inner x (omega arith)) state short
              (valid-IsNode st arr end key value db long inner) 0 db.oldest_addr (nodes ∷ sectors)
              (omega (arith, h.geometry)) (inl (omega arith)) h.ring at;
        some_sectors = rw same h.some_sectors;
        wide = h.wide;
        small = h.small;
        fits = rw kept h.fits;
      }

-- On a byte array, for an open database that `IsRing` describes: its sectors lie inside the
-- medium, have at least 16 bytes, end more than a sector and 32 bytes below 2^32 and are not
-- combined, and each is not in use or holds at least one complete node, with keys of at most 63
-- bytes, one node behind the other and then at least 48 bytes, all erased. Where it has no valid
-- node with the key, no collection is asked for and the first sector in the state using, from the
-- oldest on, is not being collected and has room for the node and the reserve, `set` with a key
-- of at most 63 bytes succeeds. The sectors then hold the same nodes, and the new one behind
-- those of that sector; `get_vec` returns the value for the key, and for every other key what it
-- returned before.
pub get_vec-set :
    {S : Type 0} (st : Storage S) (arr : IsByteArray st) (key value : List ℕ) (db : Kvdb S)
    (sectors : List (List Node)) (place end : ℕ)
    → IsRing st arr db sectors
    → db.init_ok ≡ true
    → db.gc_request ≡ false
    → Place
        (arr.byte db.storage)
        db.sec_size
        db.max_size
        (size (new_node key value))
        sectors
        db.oldest_addr
        place
        end
    → length key ≤ 63
    → lookup key (concat sectors) ≡ none
    → let (result, db') = set st key value db in
      (result ≡ ok tt)
      × IsRing st arr db'
          (grow db.sec_size db.max_size (new_node key value) place db.oldest_addr sectors)
      × (get_vec st key db' ≡ (some value, db'))
      × ((other : List ℕ)
          → eq_bytes key other ≡ false
          → (get_vec st other db').0 ≡ (get_vec st other db).0)
unfolding set
get_vec-set st arr key value db [] place end h opened quiet at short absent =
    absurd (omega (arith, h.some_sectors))
get_vec-set {S = S} st arr key value db (nodes ∷ sectors) place end h opened quiet at short absent =
    let ring = ring_lem st arr key value db nodes sectors place end h quiet at short absent in
    let db' : Kvdb S = record db { storage = (valid st arr end key value db).1 } in
    let done : set st key value db ≡ (ok tt, db') =
      opened_lem db.init_ok _ _ db opened
      ∙ set_lem st arr key value db nodes sectors place end h quiet at short absent in
    let new : Node = new_node key value in
    rw done (
      refl,
      ring,
      get_vec-lookup st arr key db' _ ring opened
          ∙ rw
              (lookup-grow_eq key new (arr.byte db.storage) db.sec_size db.max_size (size new) place
                end db.oldest_addr (nodes ∷ sectors) refl (eq_bytes_refl key) at absent)
              refl,
      λ other ne.
          rw
            (
              get_vec-lookup st arr other db' _ ring opened,
              get_vec-lookup st arr other db _ h opened,
            )
            (lookup-grow_ne other new db.sec_size db.max_size place db.oldest_addr (nodes ∷ sectors)
              ne),
    )
