-- ===== src/Kvdb/Lookup/Measure.antt =====
-- kvdb.rs: the room that the traversal of a sector finds behind its nodes.
use flash_db_rust.Base.{
  ℕ, zero, suc, ◌+◌, ◌-◌, ◌%◌, ◌^◌, ◌≤◌, ◌<◌, ◌≡◌, refl, sym, true, false, List, [], ◌∷◌, arith,
  length, inl, inr, ok, ==-cases, pos, ◌-ℤ◌, ◌==◌, wrapping_sub,
}
use flash_db_rust.Def.{failed_addr}
use flash_db_rust.Def.StoreStatus
use flash_db_rust.Def.StoreStatus.{SectorStoreStatus}
use flash_db_rust.Storage.{Storage}
use flash_db_rust.Storage.Laws.{IsByteArray}
use flash_db_rust.Flash.{continue_ff_addr}
use flash_db_rust.Flash.Erased.{continue_ff_addr-IsErasedTail}
use flash_db_rust.Kvdb.Types.{Kv, KvSecInfo, Kvdb, blank_kv}
use flash_db_rust.Kvdb.Sector.{measure_kvs, settle_empty, traverse_sector}
use flash_db_rust.Kvdb.Create.Node.{read_node}
use flash_db_rust.Kvdb.Lookup.{Node, size, Nodes, Nodes-bounds, Nodes-length}
use flash_db_rust.Kvdb.Lookup.Sector.{got, length-read_node, read_lem, next_node, next_last}

pub pos-sub : (a b : ℕ) → b ≤ a → (pos a -ℤ pos b) ≡ pos (a - b)
unfolding ◌-ℤ◌
pos-sub a b h = ground arith

module _ {S : Type 0} (st : Storage S) (arr : IsByteArray st) (db : Kvdb S) (sector : KvSecInfo)
    (end : ℕ) (using : StoreStatus.eq sector.store SectorStoreStatus.using ≡ true)
    (used : StoreStatus.eq sector.store SectorStoreStatus.empty ≡ false)
    (tail : end + 48 ≤ sector.addr + db.sec_size)
    (erased : (x : ℕ) → end ≤ x → x < sector.addr + db.sec_size → arr.byte db.storage x ≡ 0xff)
    (small : sector.addr + db.sec_size + 32 < 2 ^ 32)
    (fits : sector.addr + db.sec_size ≤ arr.capacity db.storage)
    (whole : sector.addr + db.sec_size ≤ db.max_size) (below : db.max_size < 2 ^ 32 - 1) where
  open arr use {capacity, byte}

  -- The descriptor while nodes up to `a` were measured
  abbrev pub measured : ℕ → ℕ → KvSecInfo
  measured a r = record sector { empty_kv = a; remain = pos r }

  measure_kvs_lem :
      (fuel : ℕ) (n : Node) (nodes : List Node) (kv : Kv) (r : ℕ)
      → length nodes < fuel
      → length kv.name ≡ 64
      → Nodes (byte db.storage) kv.addr_start (n ∷ nodes) end
      → end - kv.addr_start ≤ r
      → measure_kvs st fuel kv (measured kv.addr_start r) db
        ≡ ((ok tt, measured end (r - (end - kv.addr_start))), db)
  unfolding measure_kvs Nodes read_node
  measure_kvs_lem zero n nodes kv r enough room h left = absurd (omega arith)
  measure_kvs_lem (suc fuel) n [] kv r enough room h left =
      let e : kv.addr_start + size n ≡ end = sym h.3 in
      let read =
        read_lem st arr [] db sector end used tail erased small fits whole below n [] kv room h in
      let last =
        next_last st arr [] db (measured (kv.addr_start + size n) (r - size n)) end used tail erased
          small fits whole below n kv h in
      let wrap : (kv.addr_start + size n) % 2 ^ 32 ≡ kv.addr_start + size n = omega arith in
      let rest : r - (end - kv.addr_start) ≡ r - size n = omega arith in
      rw (rest, read, wrap, pos-sub r (size n) (omega arith), last) (rw e refl)
  measure_kvs_lem (suc fuel) n (m ∷ nodes) kv r enough room h left =
      let (state, short, node, more) = h in
      let low = Nodes-bounds (byte db.storage) (kv.addr_start + size n) (m ∷ nodes) end more in
      let read =
        read_lem st arr [] db sector end used tail erased small fits whole below n (m ∷ nodes) kv
          room h in
      let next =
        next_node st arr [] db (measured (kv.addr_start + size n) (r - size n)) end used tail erased
          small fits whole below n m nodes kv h in
      let wrap : (kv.addr_start + size n) % 2 ^ 32 ≡ kv.addr_start + size n = omega arith in
      let go : (kv.addr_start + size n == failed_addr) ≡ false = ground arith in
      let kv' : Kv =
        record (got st arr [] db sector end used tail erased small fits whole below n kv) {
          addr_start = kv.addr_start + size n;
        } in
      let walked =
        measure_kvs_lem fuel m nodes kv' (r - size n) (omega arith)
          (length-read_node kv n room short) more (omega arith) in
      let rest : r - (end - kv.addr_start) ≡ r - size n - (end - (kv.addr_start + size n)) =
        omega arith in
      rw (rest, read, wrap, pos-sub r (size n) (omega arith), next, go) walked

  -- The tail behind the nodes is erased, so the room begins there.
  settle_lem : (r : ℕ) → settle_empty st (measured end r) db ≡ (measured end r, db)
  unfolding settle_empty
  settle_lem r =
      let stop : (sector.addr + db.sec_size) % 2 ^ 32 ≡ sector.addr + db.sec_size = omega arith in
      let (found, same) =
        continue_ff_addr-IsErasedTail st arr db.storage end (sector.addr + db.sec_size)
          (omega arith) small fits in
      let here : (continue_ff_addr st end (sector.addr + db.sec_size) db.storage).0 ≡ end =
        elim found.least [
          | inl e ↦ e
          | inr ne ↦
              let tail_at : ℕ =
                (continue_ff_addr st end (sector.addr + db.sec_size) db.storage).0 in
              let low : end ≤ tail_at = found.lower in
              let high : tail_at ≤ sector.addr + db.sec_size = found.upper in
              elim (==-cases tail_at end) [
                | inl e ↦ e
                | inr apart ↦ absurd (ne (erased (tail_at - 1) (omega arith) (omega arith)))
              ]
        ] in
      let yes' : (end == end) ≡ true = ground arith in rw (stop, same, here, yes') refl

  pub traverse_lem :
      (n : Node) (nodes : List Node)
      → Nodes (byte db.storage) (sector.addr + 16) (n ∷ nodes) end
      → traverse_sector st sector db ≡ ((ok tt, measured end (sector.addr + db.sec_size - end)), db)
  unfolding traverse_sector
  traverse_lem n nodes h =
      let many = Nodes-length (byte db.storage) (sector.addr + 16) (n ∷ nodes) end h in
      let start : (sector.addr + 16) % 2 ^ 32 ≡ sector.addr + 16 = omega arith in
      let left : wrapping_sub db.sec_size 16 ≡ db.sec_size - 16 = omega arith in
      let walked =
        measure_kvs_lem (db.sec_size + 1) n nodes
          (record blank_kv { addr_start = sector.addr + 16 }) (db.sec_size - 16) (omega arith) refl
          h (omega arith) in
      let rest : sector.addr + db.sec_size - end ≡ db.sec_size - 16 - (end - (sector.addr + 16)) =
        omega arith in
      rw (used, using, start, left, walked, settle_lem _, rest) refl
