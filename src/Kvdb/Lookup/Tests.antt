-- ===== src/Kvdb/Lookup/Tests.antt =====
-- A ring of two sectors with one node, and what the theorems on `get_vec`, `set` and
-- `iter_collect` say of it.
use flash_db_rust.Base.{
  ℕ, ◌≤◌, ◌<◌, ◌≡◌, refl, true, false, some, List, [], ◌∷◌, ◌++◌, ◌||◌, ok, arith, length,
  replicate, drop, eq_bytes, all_below, all_below_sound, ltb, ◌==◌, inl, get_or,
}
use flash_db_rust.Crc32.{calc_crc32}
use flash_db_rust.Status.{get_status}
use flash_db_rust.Storage.Bytes.{slice}
use flash_db_rust.Storage.Ram.{RamStorage, ram, from_bytes}
use flash_db_rust.Storage.Ram.Laws.{ram_array, capacity-ram_array}
use flash_db_rust.Kvdb.Types.{Kvdb}
use flash_db_rust.Kvdb.Sector.{decode_sector}
use flash_db_rust.Kvdb.Create.{kv_header, kv_crc}
use flash_db_rust.Kvdb.Api.{set, get_vec}
use flash_db_rust.Kvdb.Lookup.{Node, lookup, Nodes}
use flash_db_rust.Kvdb.Lookup.Rule.{Holds, Ring}
use flash_db_rust.Kvdb.Lookup.Ring.{IsRing, get_vec-lookup}
use flash_db_rust.Kvdb.Iter.{iter_collect}
use flash_db_rust.Kvdb.Lookup.Live.{live}
use flash_db_rust.Kvdb.Lookup.Collect.{entries, iter_collect-live}
use flash_db_rust.Kvdb.Lookup.Agree.{assoc, get_vec-iter_collect}
use flash_db_rust.Kvdb.Lookup.Place.{Place}
use flash_db_rust.Kvdb.Lookup.Grow.{grow}
use flash_db_rust.Kvdb.Lookup.Set.{new_node, get_vec-set}

-- The header of a clean sector, with its status byte
abbrev header_bytes : ℕ → List ℕ
header_bytes status = status ∷ 0x7f ∷ 0xff ∷ 0xff ∷ 0x46 ∷ 0x44 ∷ 0x42 ∷ 0x30 ∷ replicate 8 0xff

abbrev k : List ℕ
k = b'k' ∷ []

abbrev one_node : Node
one_node = record { state = 2; key = k; value = 1 ∷ 2 ∷ 3 ∷ [] }

abbrev node_bytes : List ℕ
node_bytes =
    0x3f ∷ replicate 3 0xff ++ (drop 4 (kv_header 28 k (1 ∷ 2 ∷ 3 ∷ [])) ++ (k ++ 1 ∷ 2 ∷ 3 ∷ []))

abbrev image : List ℕ
image =
    header_bytes 0x3f
    ++ (node_bytes ++ (replicate 212 0xff ++ (header_bytes 0x7f ++ replicate 240 0xff)))

abbrev db : Kvdb RamStorage
db = record {
  storage = from_bytes image;
  sec_size = 256;
  max_size = 512;
  oldest_addr = 0;
  init_ok = true;
  not_formatable = false;
  gc_request = false;
  in_recovery_check = false;
  last_is_complete_del = false;
  default_kvs = [];
}

abbrev sectors : List (List Node)
sectors = (one_node ∷ []) ∷ [] ∷ []

image_size : length image ≡ 512
unfolding kv_header
image_size = refl

tail_of : (x b : ℕ) → (ltb x 44 || b == 0xff) ≡ true → 44 ≤ x → b ≡ 0xff
tail_of x b test p = ground arith

erased_tail : (x : ℕ) → 44 ≤ x → x < 256 → ram_array.byte db.storage x ≡ 0xff
unfolding ram_array kv_header kv_crc calc_crc32 all_below
erased_tail x p q =
    tail_of x (get_or image x 0)
      (all_below_sound 256 (λ x. ltb x 44 || get_or image x 0 == 0xff) x refl q) p

stored : Nodes (ram_array.byte db.storage) 16 (one_node ∷ []) 44
unfolding ram_array kv_header kv_crc calc_crc32 Nodes slice get_status
stored = (refl, omega arith, record { header = refl; name = refl; content = refl }, refl)

db-IsRing : IsRing ram ram_array db sectors
unfolding Ring Holds ram_array slice decode_sector get_status kv_header
db-IsRing = record {
  geometry = refl;
  ring = (
    (refl, refl, (44, stored, omega arith, erased_tail)),
    omega arith,
    ((refl, refl), omega arith, tt),
  );
  some_sectors = omega arith;
  wide = omega arith;
  small = omega arith;
  fits = rw (capacity-ram_array, image_size) (omega arith);
}

get_vec-lookup_example : get_vec ram k db ≡ (some (1 ∷ 2 ∷ 3 ∷ []), db)
unfolding lookup eq_bytes
get_vec-lookup_example = get_vec-lookup ram ram_array k db sectors db-IsRing refl

iter_collect-live_example :
    let (kvs, db') = iter_collect ram db in
    (db' ≡ db) × (entries (ram_array.byte db.storage) kvs ≡ (k, 1 ∷ 2 ∷ 3 ∷ []) ∷ [])
unfolding live
iter_collect-live_example = iter_collect-live ram ram_array db sectors db-IsRing

get_vec-iter_collect_example :
    (get_vec ram k db).0 ≡ assoc k (entries (ram_array.byte db.storage) (iter_collect ram db).0)
get_vec-iter_collect_example = get_vec-iter_collect ram ram_array k db sectors db-IsRing refl

db-Place : Place (ram_array.byte db.storage) 256 512 26 sectors 0 0 44
unfolding Place ram_array slice decode_sector get_status kv_header
db-Place = inl (
  refl,
  record {
    good = refl;
    store = refl;
    dirty = refl;
    stored = stored;
    erased = erased_tail;
    room = omega arith;
  },
)

-- The first key keeps its value.
get_vec-set_example :
    let (result, db') = set ram (b'a' ∷ []) (7 ∷ []) db in
    (result ≡ ok tt)
    × IsRing ram ram_array db' (grow 256 512 (new_node (b'a' ∷ []) (7 ∷ [])) 0 0 sectors)
    × (get_vec ram (b'a' ∷ []) db' ≡ (some (7 ∷ []), db'))
    × ((other : List ℕ)
        → eq_bytes (b'a' ∷ []) other ≡ false
        → (get_vec ram other db').0 ≡ (get_vec ram other db).0)
get_vec-set_example =
    get_vec-set ram ram_array (b'a' ∷ []) (7 ∷ []) db sectors 0 44 db-IsRing refl refl db-Place
      (omega arith) (unfold lookup eq_bytes in refl)
