-- ===== src/Kvdb/Create/Node.antt =====
-- A complete node on a byte array, and what `read_kv` makes of it.
use flash_db_rust.Base.{
  leb, ◌==◌, false, ℕ, ◌+◌, ◌-◌, ◌%◌, ◌^◌, ◌≤◌, ◌<◌, ◌≡◌, refl, ◌∙◌, sym, min, true, List, [], ◌∷◌,
  ◌++◌, ok, arith, length, get_or, set, take, drop, replicate, length-take, u32, le_bytes_inverse,
}
use flash_db_rust.Crc32.{calc_crc32}
use flash_db_rust.Crc32.Reference.{calc_crc32-append, calc_crc32-lt}
use flash_db_rust.Def.KvStatus
use flash_db_rust.Status.{get_status}
use flash_db_rust.Storage.{Storage}
use flash_db_rust.Storage.Bytes.{slice, slice-append}
use flash_db_rust.Storage.Laws.{IsByteArray}
use flash_db_rust.Kvdb.Types.{Kv, Kvdb, rd_u32}
use flash_db_rust.Kvdb.Record.{
  impossible_len, read_name, accept_kv, judge_kv, verify_kv, check_kv, read_kv,
}
use flash_db_rust.Kvdb.Record.Crc.{crc_loop-slice}
use flash_db_rust.Kvdb.Create.{node_len, kv_crc, kv_header}

-- The bytes of a node at `addr`, whatever its state.
pub record IsNode (f : ℕ → ℕ) (addr : ℕ) (key value : List ℕ) : Type 0 where
  pub header :
      slice f (addr + 4) 20
      ≡ drop 4 (kv_header (node_len (u32 (length key)) (u32 (length value))) key value)
  pub name : slice f (addr + 24) (length key) ≡ key
  pub content : slice f (addr + 24 + length key) (length value) ≡ value

-- The node as it is read.
unfoldable pub read_node : Kv → ℕ → List ℕ → List ℕ → Kv
read_node kv status key value = record kv {
  status = KvStatus.from_index status;
  crc_is_ok = true;
  name_len = length key;
  len = 24 + length key + length value;
  value_len = length value;
  name = set (key ++ drop (length key) kv.name) (length key) 0;
  addr_value = kv.addr_start + 24 + length key;
}

kv_crc-lt : (key value : List ℕ) → kv_crc key value < 2 ^ 32
unfolding kv_crc
kv_crc-lt key value =
    calc_crc32-lt _ value
      (calc_crc32-lt _ key (calc_crc32-lt _ _ (calc_crc32-lt 0 _ (omega arith))))

-- A header with any four first bytes, as `read_kv` sees it.
header_words :
    (a b c d : ℕ) (key value : List ℕ)
    → length key ≤ 63
    → 24 + length key + length value < 2 ^ 32
    → let hdr =
        a
        ∷ b
        ∷ c
        ∷ d
        ∷ drop 4 (kv_header (node_len (u32 (length key)) (u32 (length value))) key value) in
      (rd_u32 hdr 8 ≡ 24 + length key + length value)
      × (rd_u32 hdr 12 ≡ kv_crc key value)
      × (get_or hdr 16 0 ≡ length key)
      × (rd_u32 hdr 20 ≡ length value)
      × (calc_crc32
            (calc_crc32
              (calc_crc32 (calc_crc32 0 (take 4 (drop 16 hdr))) (take 4 (drop 20 hdr)))
              key)
            value
          ≡ kv_crc key value)
unfolding kv_header
header_words a b c d key value short small = (
  le_bytes_inverse (node_len (u32 (length key)) (u32 (length value))) (omega arith) ∙ omega arith,
  le_bytes_inverse (kv_crc key value) (kv_crc-lt key value),
  omega arith,
  le_bytes_inverse (u32 (length value)) (omega arith) ∙ omega arith,
  unfold kv_crc in refl,
)

module _ {S : Type 0} (st : Storage S) (arr : IsByteArray st) (kv : Kv) (key value : List ℕ)
    (db : Kvdb S) where
  open arr use {capacity, byte, read_in}

  module _ (short : length key ≤ 63) (room : length kv.name ≡ 64)
      (small : kv.addr_start + 24 + length key + length value < 2 ^ 32)
      (fits : kv.addr_start + 24 + length key + length value ≤ capacity db.storage)
      (node : IsNode (byte db.storage) kv.addr_start key value) where
    read_name_lem : read_name st kv (length key) db ≡ (key ++ drop (length key) kv.name, db)
    unfolding read_name
    read_name_lem =
        let size : length (take (length key) kv.name) ≡ length key =
          omega (arith, length-take (length key) kv.name) in
        let wrap : (kv.addr_start + 24) % 2 ^ 32 ≡ kv.addr_start + 24 = omega arith in
        let got =
          read_in db.storage (kv.addr_start + 24) (take (length key) kv.name)
            (rw size (omega arith)) in
        rw (wrap, got, size, node.name)

    module _ (hdr : List ℕ) (name_field : get_or hdr 16 0 ≡ length key)
        (value_field : rd_u32 hdr 20 ≡ length value) where
      accept_kv_lem : accept_kv st kv hdr db ≡ (
        (
          ok tt,
          record kv {
            crc_is_ok = true;
            addr_value = kv.addr_start + 24 + length key;
            value_len = length value;
            name_len = length key;
            name = set (key ++ drop (length key) kv.name) (length key) 0;
          },
        ),
        db,
      )
      unfolding accept_kv
      accept_kv_lem =
          let whole : min (length key) 64 ≡ length key = omega arith in
          let inside : leb 64 (length key) ≡ false = ground arith in
          let wrap : ((kv.addr_start + 24) % 2 ^ 32 + length key) % 2 ^ 32
              ≡ kv.addr_start + 24 + length key =
            omega arith in
          rw (name_field, value_field, whole, inside, wrap, read_name_lem)

      verify_kv_lem :
          kv.len ≡ 24 + length key + length value
          → calc_crc32
              (calc_crc32
                (calc_crc32 (calc_crc32 0 (take 4 (drop 16 hdr))) (take 4 (drop 20 hdr)))
                key)
              value
            ≡ rd_u32 hdr 12
          → verify_kv st kv hdr db ≡ (
            (
              ok tt,
              record kv {
                crc_is_ok = true;
                addr_value = kv.addr_start + 24 + length key;
                value_len = length value;
                name_len = length key;
                name = set (key ++ drop (length key) kv.name) (length key) 0;
              },
            ),
            db,
          )
      unfolding verify_kv
      verify_kv_lem len_field crc_field =
          let n : kv.len - 24 ≡ length key + length value = omega arith in
          let wrap : (kv.addr_start + 24) % 2 ^ 32 ≡ kv.addr_start + 24 = omega arith in
          let head = calc_crc32 (calc_crc32 0 (take 4 (drop 16 hdr))) (take 4 (drop 20 hdr)) in
          let loop =
            crc_loop-slice st arr db (length key + length value) (kv.addr_start + 24)
              (length key + length value) (replicate 32 0) 0 head refl (omega arith) (omega arith)
              (omega arith) (omega arith) in
          let begin : kv.addr_start + 24 + 0 ≡ kv.addr_start + 24 = omega arith in
          let all : length key + length value - 0 ≡ length key + length value = omega arith in
          let bytes : slice (byte db.storage) (kv.addr_start + 24) (length key + length value)
              ≡ key ++ value =
            sym (slice-append (byte db.storage) (kv.addr_start + 24) (length key) (length value))
            ∙ rw (node.name, node.content) in
          let crc : calc_crc32 head (key ++ value) ≡ rd_u32 hdr 12 =
            calc_crc32-append head key value ∙ crc_field in
          let same : (rd_u32 hdr 12 == rd_u32 hdr 12) ≡ true = ground arith in
          rw (n, wrap, loop, begin, all, bytes, crc) (unfold judge_kv in rw same accept_kv_lem)

module _ {S : Type 0} (st : Storage S) (arr : IsByteArray st) where
  open arr use {capacity, byte, read_in}

  node_header :
      (f : ℕ → ℕ) (addr : ℕ) (key value : List ℕ)
      → IsNode f addr key value
      → slice f addr 24
        ≡ f addr
          ∷ f (addr + 1)
          ∷ f (addr + 1 + 1)
          ∷ f (addr + 1 + 1 + 1)
          ∷ drop 4 (kv_header (node_len (u32 (length key)) (u32 (length value))) key value)
  node_header f addr key value node =
      sym (slice-append f addr 4 20) ∙ rw (node.header) (unfold slice in refl)

  -- On a byte array, `read_kv` accepts a complete node that lies inside the medium and is no longer
  -- than the database, if its key has at most 63 bytes: it returns the key, the lengths, the address of the
  -- value and the state that the first byte stands for, and changes nothing.
  pub read_kv-IsNode :
      (kv : Kv) (key value : List ℕ) (db : Kvdb S)
      → length key ≤ 63
      → length kv.name ≡ 64
      → kv.addr_start + 24 + length key + length value < 2 ^ 32
      → kv.addr_start + 24 + length key + length value ≤ capacity db.storage
      → 24 + length key + length value ≤ db.max_size
      → db.max_size < 2 ^ 32 - 1
      → IsNode (byte db.storage) kv.addr_start key value
      → read_kv st kv db
        ≡ ((ok tt, read_node kv (get_status (byte db.storage kv.addr_start ∷ []) 6) key value), db)
  unfolding read_kv check_kv read_node
  read_kv-IsNode kv key value db short room small fits max below node =
      let got = read_in db.storage kv.addr_start (replicate 24 0) (omega arith) in
      let head = node_header (byte db.storage) kv.addr_start key value node in
      let (len_is, crc_is, name_is, value_is, sum_is) =
        header_words (byte db.storage kv.addr_start) (byte db.storage (kv.addr_start + 1))
          (byte db.storage (kv.addr_start + 1 + 1)) (byte db.storage (kv.addr_start + 1 + 1 + 1))
          key value short (omega arith) in
      let possible : impossible_len db.max_size (24 + length key + length value) ≡ false =
        ground arith in
      rw (got, head, len_is, possible)
        (verify_kv_lem st arr _ key value db short room small fits node _ name_is value_is refl
          (sum_is ∙ sym crc_is))
