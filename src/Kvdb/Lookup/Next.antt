-- ===== src/Kvdb/Lookup/Next.antt =====
-- kvdb.rs: the search for the next node, on a sector whose nodes follow each other.
use flash_db_rust.Base.{
  ℕ, zero, suc, ◌+◌, ◌-◌, ◌%◌, ◌^◌, ◌≤◌, ◌<◌, ◌≡◌, refl, ◌∙◌, sym, ap, true, false, none, some,
  List, [], ◌∷◌, arith, length, get_or, replicate, branch, branch_either, ltb, leb, ◌==◌,
  wrapping_sub, ◌⊎◌, inl, inr, ◌&&◌, drop, u32,
}
use flash_db_rust.Def.{failed_addr}
use flash_db_rust.Def.StoreStatus
use flash_db_rust.Def.StoreStatus.{SectorStoreStatus}
use flash_db_rust.Storage.{Storage}
use flash_db_rust.Storage.Bytes.{slice, get_or-slice, length-slice}
use flash_db_rust.Storage.Laws.{IsByteArray}
use flash_db_rust.Kvdb.Types.{Kv, KvSecInfo, Kvdb, kv_magic_word, rd_u32}
use flash_db_rust.Kvdb.Next.{
  magic_scan, after_window, find_loop, find_next_kv_addr, get_next_kv_addr,
}
use flash_db_rust.Kvdb.Create.{node_len, kv_header}
use flash_db_rust.Kvdb.Create.Node.{IsNode}

-- A word of a window, from the medium
rd_u32-slice :
    (f : ℕ → ℕ) (a n i : ℕ)
    → i + 3 < n
    → rd_u32 (slice f a n) i
      ≡ rd_u32 (f (a + i) ∷ f (a + (i + 1)) ∷ f (a + (i + 2)) ∷ f (a + (i + 3)) ∷ []) 0
rd_u32-slice f a n i h =
    rw
      (
        get_or-slice f a n i (omega arith),
        get_or-slice f a n (i + 1) (omega arith),
        get_or-slice f a n (i + 2) (omega arith),
        get_or-slice f a n (i + 3) (omega arith),
      )
      refl

-- The magic word of a node
node_magic :
    (f : ℕ → ℕ) (addr : ℕ) (key value : List ℕ)
    → IsNode f addr key value
    → rd_u32 (slice f addr 32) 4 ≡ kv_magic_word
unfolding kv_header
node_magic f addr key value node =
    let hdr = drop 4 (kv_header (node_len (u32 (length key)) (u32 (length value))) key value) in
    let at : (i : ℕ) → i < 20 → f (addr + (4 + i)) ≡ get_or hdr i 0 = λ i h.
      ap f (omega arith)
      ∙ sym (get_or-slice f (addr + 4) 20 i h)
      ∙ ap (λ (l : List ℕ). get_or l i 0) node.header in
    rd_u32-slice f addr 32 4 (omega arith)
    ∙ rw (at 0 (omega arith), at 1 (omega arith), at 2 (omega arith), at 3 (omega arith)) refl

-- The first four places lie before the magic word of the node.
magic_scan_skip :
    (rounds : ℕ) (buf : List ℕ) (addr end i : ℕ)
    → i < 4
    → 4 ≤ addr
    → addr + 32 < end
    → end < 2 ^ 32
    → magic_scan (suc rounds) buf addr addr end i ≡ magic_scan rounds buf addr addr end (i + 1)
unfolding magic_scan
magic_scan_skip rounds buf addr end i h low inside small = ground arith

magic_scan_hit :
    (rounds : ℕ) (buf : List ℕ) (addr end : ℕ)
    → rd_u32 buf 4 ≡ kv_magic_word
    → addr + 32 < end
    → end < 2 ^ 32
    → magic_scan (suc rounds) buf addr addr end 4 ≡ some addr
unfolding magic_scan
magic_scan_hit rounds buf addr end magic inside small = rw magic (ground arith)

-- The scan of a window that starts at a node finds it.
magic_scan_node :
    (buf : List ℕ) (addr end : ℕ)
    → rd_u32 buf 4 ≡ kv_magic_word
    → 4 ≤ addr
    → addr + 32 < end
    → end < 2 ^ 32
    → magic_scan 28 buf addr addr end 0 ≡ some addr
magic_scan_node buf addr end magic low inside small =
    magic_scan_skip 27 buf addr end 0 (omega arith) low inside small
    ∙ magic_scan_skip 26 buf addr end 1 (omega arith) low inside small
    ∙ magic_scan_skip 25 buf addr end 2 (omega arith) low inside small
    ∙ magic_scan_skip 24 buf addr end 3 (omega arith) low inside small
    ∙ magic_scan_hit 23 buf addr end magic inside small

-- The scan of an erased window finds nothing.
magic_scan_erased :
    (f : ℕ → ℕ) (start bak end rounds i : ℕ)
    → i + rounds ≤ 28
    → ((x : ℕ) → start ≤ x → x < start + 32 → f x ≡ 0xff)
    → magic_scan rounds (slice f start 32) start bak end i ≡ none
unfolding magic_scan
magic_scan_erased f start bak end zero i h erased = refl
magic_scan_erased f start bak end (suc rounds) i h erased =
    let rest = magic_scan_erased f start bak end rounds (i + 1) (omega arith) erased in
    let a = erased (start + i) (omega arith) (omega arith) in
    let b = erased (start + (i + 1)) (omega arith) (omega arith) in
    let c = erased (start + (i + 2)) (omega arith) (omega arith) in
    let d = erased (start + (i + 3)) (omega arith) (omega arith) in
    let word : rd_u32 (slice f start 32) i ≡ 0xffff_ffff =
      rd_u32-slice f start 32 i (omega arith) ∙ rw (a, b, c, d) refl in
    rw (word, rest) (ground arith)

module _ {S : Type 0} (st : Storage S) (arr : IsByteArray st) (db : Kvdb S) where
  open arr use {capacity, byte, read_in}

  -- From the end of the last node, over an erased tail
  find_loop_erased :
      (fuel : ℕ) (buf : List ℕ) (start bak end : ℕ)
      → length buf ≡ 32
      → end ≤ capacity db.storage
      → end + 32 < 2 ^ 32
      → ((x : ℕ) → start ≤ x → x < end → byte db.storage x ≡ 0xff)
      → find_loop st fuel buf start bak end db ≡ (failed_addr, db)
  unfolding find_loop after_window
  find_loop_erased zero buf start bak end len fits small erased = refl
  find_loop_erased (suc fuel) buf start bak end len fits small erased =
      branch_either (λ (t : ℕ × Kvdb S). t ≡ (failed_addr, db)) _ _
        (λ go.
          let inside : start + 32 < end = ground arith in
          let wrap : (start + 28) % 2 ^ 32 ≡ start + 28 = omega arith in
          let got = read_in db.storage start buf (rw len (omega arith)) in
          let none_here =
            magic_scan_erased (byte db.storage) start bak end 28 0 (omega arith)
              (λ x p q. erased x p (omega arith)) in
          rw (got, len, none_here, wrap)
            (find_loop_erased fuel (slice (byte db.storage) start 32) (start + 28) bak end
              (length-slice (byte db.storage) start 32) fits small
              (λ x p q. erased x (omega arith) q)))
        λ _. refl

  find_next_node :
      (key value : List ℕ) (addr end : ℕ)
      → IsNode (byte db.storage) addr key value
      → 4 ≤ addr
      → addr + 32 < end
      → end + 32 < 2 ^ 32
      → end ≤ capacity db.storage
      → find_next_kv_addr st addr end db ≡ (addr, db)
  unfolding find_next_kv_addr find_loop branch after_window
  find_next_node key value addr end node low inside small fits =
      let rounds : end - addr ≡ suc (end - addr - 1) = omega arith in
      let here : addr + 32 ≤ capacity db.storage = omega arith in
      let got = read_in db.storage addr (replicate 32 0) here in
      let wrap : (addr + 32) % 2 ^ 32 ≡ addr + 32 = omega arith in
      let go : (ltb addr end && ltb (addr + 32) end) ≡ true = ground arith in
      let found =
        magic_scan_node (slice (byte db.storage) addr 32) addr end
          (node_magic (byte db.storage) addr key value node) low inside (omega arith) in
      rw (rounds, find_loop, wrap, go, got, found) refl

  module _ (sector : KvSecInfo) (kv : Kv)
      (used : StoreStatus.eq sector.store SectorStoreStatus.empty ≡ false)
      (good : kv.crc_is_ok ≡ true) (long : 24 ≤ kv.len)
      (before : kv.addr_start + kv.len + 16 ≤ sector.addr + db.sec_size)
      (small : sector.addr + db.sec_size + 32 < 2 ^ 32)
      (fits : sector.addr + db.sec_size ≤ capacity db.storage) where
    -- The search behind a good node that lies in its sector
    next_lem :
        (found : ℕ)
        → found ≤ failed_addr
        → (found ≡ failed_addr) ⊎ (found < sector.addr + db.sec_size)
        → find_next_kv_addr st (kv.addr_start + kv.len) (sector.addr + db.sec_size - 16) db
          ≡ (found, db)
        → get_next_kv_addr st sector kv db ≡ (found, db)
    unfolding get_next_kv_addr
    next_lem found low where_ e =
        let end : (sector.addr + db.sec_size) % 2 ^ 32 ≡ sector.addr + db.sec_size = omega arith in
        let start : (kv.addr_start + kv.len) % 2 ^ 32 ≡ kv.addr_start + kv.len = omega arith in
        let last : wrapping_sub (sector.addr + db.sec_size) 16 ≡ sector.addr + db.sec_size - 16 =
          omega arith in
        let a : (kv.addr_start == failed_addr) ≡ false = ground arith in
        let b : leb kv.addr_start (sector.addr + db.sec_size) ≡ true = ground arith in
        rw (used, end, a, b, good, start, last, e) (ground arith)

    -- Behind a node follows the next one.
    pub get_next_kv_addr-node :
        (key value : List ℕ)
        → IsNode (byte db.storage) (kv.addr_start + kv.len) key value
        → kv.addr_start + kv.len + 48 < sector.addr + db.sec_size
        → get_next_kv_addr st sector kv db ≡ (kv.addr_start + kv.len, db)
    get_next_kv_addr-node key value node inside =
        next_lem _ (omega arith) (inr (omega arith)) (
          find_next_node key value _ _ node (omega arith) (omega arith) (omega arith) (omega arith))

    -- Behind the last node the sector is erased.
    pub get_next_kv_addr-last :
        ((x : ℕ)
          → kv.addr_start + kv.len ≤ x
          → x < sector.addr + db.sec_size
          → byte db.storage x ≡ 0xff)
        → get_next_kv_addr st sector kv db ≡ (failed_addr, db)
    unfolding find_next_kv_addr
    get_next_kv_addr-last erased = next_lem _ (omega arith) (inl refl) (
        find_loop_erased _ (replicate 32 0) _ _ _ refl (omega arith) (omega arith)
          (λ x p q. erased x p (omega arith)))
