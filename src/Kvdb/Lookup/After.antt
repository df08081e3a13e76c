-- ===== src/Kvdb/Lookup/After.antt =====
-- kvdb.rs: a call of `iterate` behind the node that was found last.
use flash_db_rust.Base.{
  ℕ, suc, ◌+◌, ◌*◌, ◌^◌, ◌≤◌, ◌<◌, ◌≡◌, sym, false, List, [], ◌∷◌, ◌++◌, arith, length, ◌==◌,
}
use flash_db_rust.Def.{failed_addr}
use flash_db_rust.Storage.{Storage}
use flash_db_rust.Storage.Laws.{IsByteArray}
use flash_db_rust.Kvdb.Types.{Kv, KvSecInfo, KvIterator, Kvdb, blank_sector}
use flash_db_rust.Kvdb.Create.Node.{read_node}
use flash_db_rust.Kvdb.Iter.{start_addr, iterate_loop, live_in_sector}
use flash_db_rust.Kvdb.Lookup.{Node, Nodes, Nodes-bounds, size}
use flash_db_rust.Kvdb.Lookup.Rule.{concat, header, header-addr}
use flash_db_rust.Kvdb.Lookup.Sector.{next_node, next_last, length-read_node}
use flash_db_rust.Kvdb.Lookup.Ring.{used-empty}
use flash_db_rust.Kvdb.Next.{get_next_kv_addr}
use flash_db_rust.Kvdb.Lookup.Live.{live}
use flash_db_rust.Kvdb.Lookup.Iter.{Within, Gives, read_over, finish_lem, walk_lem, rounds_lem}

module _ {S : Type 0} (st : Storage S) (arr : IsByteArray st) (db : Kvdb S)
    (small : db.max_size + db.sec_size + 32 < 2 ^ 32) (fits : db.max_size ≤ arr.capacity db.storage)
    (wide : 16 ≤ db.sec_size) where
  start_lem :
      (it : KvIterator) (sector : KvSecInfo) (kv : Kv) (n : Node) (next : ℕ)
      → 0 < kv.addr_start
      → get_next_kv_addr st sector (read_node kv n.state n.key n.value) db ≡ (next, db)
      → start_addr st (record it { curr_kv = read_node kv n.state n.key n.value }) sector db
        ≡ (next, db)
  unfolding start_addr read_node
  start_lem it sector kv n next above e =
      let some : (kv.addr_start == 0) ≡ false = ground arith in rw some e

  module _ (it : KvIterator) (end : ℕ) (sectors : List (List Node))
      (within : Within
        (arr.byte db.storage)
        db.sec_size
        db.max_size
        it.sector_addr
        end
        sectors) where
    at : (header (arr.byte db.storage) it.sector_addr).1.addr ≡ it.sector_addr
    at = header-addr (arr.byte db.storage) it.sector_addr

    start_none :
        (kv : Kv) (n : Node)
        → 0 < kv.addr_start
        → Nodes (arr.byte db.storage) kv.addr_start (n ∷ []) end
        → start_addr st
            (record it { curr_kv = read_node kv n.state n.key n.value })
            (header (arr.byte db.storage) it.sector_addr).1
            db
          ≡ (failed_addr, db)
    start_none kv n above stored =
        let bound = within.tail in
        let inside = within.inside in
        start_lem it (header (arr.byte db.storage) it.sector_addr).1 kv n failed_addr above (
          next_last st arr [] db (header (arr.byte db.storage) it.sector_addr).1 end
            (used-empty (header (arr.byte db.storage) it.sector_addr) within.used)
            (rw at within.tail) (λ x p q. within.erased x p (rw (sym at) q)) (rw at (omega arith))
            (rw at (omega arith)) (rw at inside) (omega arith) n kv stored)

    start_more :
        (kv : Kv) (n m : Node) (nodes : List Node)
        → 0 < kv.addr_start
        → Nodes (arr.byte db.storage) kv.addr_start (n ∷ m ∷ nodes) end
        → start_addr st
            (record it { curr_kv = read_node kv n.state n.key n.value })
            (header (arr.byte db.storage) it.sector_addr).1
            db
          ≡ (kv.addr_start + size n, db)
    start_more kv n m nodes above stored =
        let bound = within.tail in
        let inside = within.inside in
        start_lem it (header (arr.byte db.storage) it.sector_addr).1 kv n (kv.addr_start + size n)
          above
          (next_node st arr [] db (header (arr.byte db.storage) it.sector_addr).1 end
            (used-empty (header (arr.byte db.storage) it.sector_addr) within.used)
            (rw at within.tail) (λ x p q. within.erased x p (rw (sym at) q)) (rw at (omega arith))
            (rw at (omega arith)) (rw at inside) (omega arith) n m nodes kv stored)

  -- A round from the node that was found last
  pub after_lem :
      (fuel end : ℕ) (it : KvIterator) (kv : Kv) (n : Node) (rest : List Node)
      (sectors : List (List Node))
      → length sectors ≤ fuel
      → length kv.name ≡ 64
      → it.sector_addr + 16 ≤ kv.addr_start
      → Nodes (arr.byte db.storage) kv.addr_start (n ∷ rest) end
      → Within (arr.byte db.storage) db.sec_size db.max_size it.sector_addr end sectors
      → it.traversed_len + db.sec_size + length sectors * db.sec_size ≡ db.max_size
      → Gives (arr.byte db.storage) db (live rest ++ live (concat sectors)) (
          iterate_loop st
            (suc fuel)
            (record it { curr_kv = read_node kv n.state n.key n.value })
            blank_sector
            db)
  unfolding iterate_loop live_in_sector Nodes live
  after_lem fuel end it kv n [] sectors enough room above stored within total =
      let f = arr.byte db.storage in
      let inside = within.inside in
      rw
        (
          read_over st arr db small fits wide it.sector_addr blank_sector (omega arith),
          within.used,
          start_none it end sectors within kv n (omega arith) stored,
        )
        (finish_lem st arr db small fits wide fuel
          (record it { curr_kv = read_node kv n.state n.key n.value }) (header f it.sector_addr).1
          sectors enough (length-read_node kv n room stored.1) total (at it end sectors within)
          within.alone inside within.after
          (λ it' nodes' more e s.
            rounds_lem st arr db small fits wide fuel it' nodes' more (header f it.sector_addr).1 e
              s))
  after_lem fuel end it kv n (m ∷ nodes) sectors enough room above stored within total =
      let f = arr.byte db.storage in
      let inside = within.inside in
      let bound = within.tail in
      let behind = Nodes-bounds f (kv.addr_start + size n) (m ∷ nodes) end stored.3 in
      let some : (kv.addr_start + size n == failed_addr) ≡ false = ground arith in
      rw
        (
          read_over st arr db small fits wide it.sector_addr blank_sector (omega arith),
          within.used,
          start_more it end sectors within kv n m nodes (omega arith) stored,
          some,
        )
        (walk_lem st arr db small fits wide fuel (kv.addr_start + size n) end
          (record it { curr_kv = read_node kv n.state n.key n.value }) m nodes sectors enough
          (length-read_node kv n room stored.1) total (omega arith) stored.3 within
          (λ it' nodes' more e s.
            rounds_lem st arr db small fits wide fuel it' nodes' more (header f it.sector_addr).1 e
              s))
