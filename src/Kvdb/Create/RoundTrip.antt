-- ===== src/Kvdb/Create/RoundTrip.antt =====
-- A node that `write_node` wrote is read back by `read_kv`, and is found by its key.
use flash_db_rust.Base.{
  ℕ, ◌+◌, ◌^◌, ◌-◌, ◌≤◌, ◌<◌, ◌≡◌, refl, ◌∙◌, ap, subst, true, List, [], ◌∷◌, ◌++◌, ok, arith,
  length, drop, take, set, eq_bytes,
}
use flash_db_rust.Status.{get_status}
use flash_db_rust.Flash.Laws.{get_status-status_byte}
use flash_db_rust.Storage.{Storage}
use flash_db_rust.Storage.Bytes.{slice}
use flash_db_rust.Storage.Laws.{IsByteArray}
use flash_db_rust.Kvdb.Types.{Kv, Kvdb}
use flash_db_rust.Kvdb.Record.{read_kv}
use flash_db_rust.Kvdb.Find.{matches}
use flash_db_rust.Kvdb.Create.{write_node}
use flash_db_rust.Kvdb.Create.Node.{read_node, read_kv-IsNode}
use flash_db_rust.Kvdb.Create.Write.{
  valid, capacity-valid, status-valid, valid-IsNode, write_node_lem,
}

-- The name that is read, cut behind the key, starts with the key.
eq_bytes_read :
    (key rest : List ℕ) → eq_bytes (take (length key) (set (key ++ rest) (length key) 0)) key ≡ true
unfolding eq_bytes
eq_bytes_read [] rest = refl
eq_bytes_read (b ∷ key) rest = ground (arith, eq_bytes_read key rest)

pub matches-read_node :
    (kv : Kv) (key value : List ℕ) → matches key (read_node kv 2 key value) ≡ true
unfolding matches read_node
matches-read_node kv key value = ground (arith, eq_bytes_read key (drop (length key) kv.name))

-- On a byte array, where a key of at most 63 bytes and a value fit at the address and into the database,
-- `write_node` succeeds; `read_kv` then returns the valid node with the key, the lengths and the
-- address of the value, that node matches the key, and the value stands at that address.
pub read_kv-write_node :
    {S : Type 0} (st : Storage S) (arr : IsByteArray st) (kv : Kv) (key value : List ℕ)
    (db : Kvdb S)
    → length key ≤ 63
    → length kv.name ≡ 64
    → kv.addr_start + 24 + length key + length value < 2 ^ 32
    → kv.addr_start + 24 + length key + length value ≤ arr.capacity db.storage
    → 24 + length key + length value ≤ db.max_size
    → db.max_size < 2 ^ 32 - 1
    → let (result, db') = write_node st kv.addr_start key value db in
      let got = read_node kv 2 key value in
      (result ≡ ok tt)
      × (read_kv st kv db' ≡ ((ok tt, got), db'))
      × (matches key got ≡ true)
      × (slice (arr.byte db'.storage) (kv.addr_start + 24 + length key) (length value) ≡ value)
read_kv-write_node st arr kv key value db short room small fits max below =
    let read_db = record db { storage = (valid st arr kv.addr_start key value db).1 } in
    let node = valid-IsNode st arr kv.addr_start key value db small fits in
    let kept = capacity-valid st arr kv.addr_start key value db small fits in
    let state =
      ap (λ b. get_status (b ∷ []) 6) (status-valid st arr kv.addr_start key value db small fits)
      ∙ get_status-status_byte 6 2 (omega arith) (omega arith) (omega arith) in
    let read =
      read_kv-IsNode st arr kv key value read_db short room small (rw kept fits) max below node in
    rw (write_node_lem st arr kv.addr_start key value db small fits) (
      refl,
      subst (λ i. read_kv st kv read_db ≡ ((ok tt, read_node kv i key value), read_db)) state read,
      matches-read_node kv key value,
      node.content,
    )
