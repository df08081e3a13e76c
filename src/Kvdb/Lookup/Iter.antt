-- ===== src/Kvdb/Lookup/Iter.antt =====
-- kvdb.rs: the iterator lists the valid nodes of the ring.
use flash_db_rust.Base.{
  ℕ, zero, suc, ◌+◌, ◌*◌, ◌%◌, ◌^◌, ◌≤◌, ◌<◌, ◌≡◌, refl, sym, Bool, true, false, List, [], ◌∷◌,
  ◌++◌, arith, length, replicate, if◌then◌else◌, pure, ◌>>=◌, Cmd, ◌==◌, wrapping_add,
}
use flash_db_rust.Def.{failed_addr}
use flash_db_rust.Storage.{Storage}
use flash_db_rust.Storage.Laws.{IsByteArray}
use flash_db_rust.Storage.Bytes.{slice}
use flash_db_rust.Kvdb.Types.{Kv, KvSecInfo, KvIterator, Kvdb, blank_sector, sector_not_combined}
use flash_db_rust.Kvdb.Sector.{read_sector_info, decode_sector}
use flash_db_rust.Kvdb.Walk.{walk_kvs}
use flash_db_rust.Kvdb.Iter.{next_sector, start_addr, live_in_sector, iterate_loop}
use flash_db_rust.Kvdb.Lookup.{Node, Nodes, Nodes-length}
use flash_db_rust.Kvdb.Lookup.Rule.{
  Holds, Ring, concat, header, header-addr, is_used, following, next_lem, last_lem,
}
use flash_db_rust.Kvdb.Lookup.Ring.{after_header_lem, used-empty}
use flash_db_rust.Kvdb.Lookup.Live.{live, live-append, Reached, Walked, live_loop_lem}

-- The sector at `addr`, in use, whose nodes end at `end`, and the sectors after it
pub record Within (f : ℕ → ℕ) (sec max addr end : ℕ) (sectors : List (List Node)) : Type 0 where
  pub used : is_used (header f addr) ≡ true
  pub alone : (header f addr).1.combined ≡ sector_not_combined
  pub tail : end + 48 ≤ addr + sec
  pub erased : (x : ℕ) → end ≤ x → x < addr + sec → f x ≡ 0xff
  pub inside : addr + sec ≤ max
  pub after : Ring f sec max (following sec max addr) sectors

-- The iterator at the start of a sector, with `sectors` behind it
pub record Starts (f : ℕ → ℕ) (sec max : ℕ) (it : KvIterator) (nodes : List Node)
    (sectors : List (List Node)) : Type 0 where
  pub start : it.curr_kv.addr_start ≡ 0
  pub room : length it.curr_kv.name ≡ 64
  pub total : it.traversed_len + sec + length sectors * sec ≡ max
  pub ring : Ring f sec max it.sector_addr (nodes ∷ sectors)

-- What an iterator finds, for the valid nodes that are ahead of it, and what is ahead then.
unfoldable pub Yields : (ℕ → ℕ) → ℕ → ℕ → List Node → Bool × KvIterator → Type 0
Yields f sec max [] (found, it) = found ≡ false
Yields f sec max (n ∷ nodes) (found, it) =
    (found ≡ true)
    × ((end : ℕ) × (more : List Node) × (sectors : List (List Node)) × Reached f
          (it.sector_addr + 16) end n more it.curr_kv
        × Within f sec max it.sector_addr end sectors
        × (it.traversed_len + sec + length sectors * sec ≡ max)
        × (more ++ live (concat sectors) ≡ nodes))

-- What a command that changes nothing finds
abbrev pub Gives :
    {S : Type 0} → (ℕ → ℕ) → Kvdb S → List Node → (Bool × KvIterator) × Kvdb S → Type 0
Gives f db nodes (out, db') = (db' ≡ db) × Yields f db.sec_size db.max_size nodes out

module _ {S : Type 0} (st : Storage S) (arr : IsByteArray st) (db : Kvdb S)
    (small : db.max_size + db.sec_size + 32 < 2 ^ 32) (fits : db.max_size ≤ arr.capacity db.storage)
    (wide : 16 ≤ db.sec_size) where
  -- The end of a round of `iterate`
  abbrev pub finish : ℕ → KvSecInfo → Bool × KvIterator → Cmd (Kvdb S) (Bool × KvIterator)
  finish fuel sector (found, it) = if found then pure (true, it) else (do
    (more, it) ← next_sector st it sector
    if more then iterate_loop st fuel it sector else pure (false, it))

  -- What the next rounds of `iterate` find
  abbrev Goes : ℕ → KvSecInfo → Type 0
  Goes fuel sector =
      (it : KvIterator) (nodes : List Node) (sectors : List (List Node))
      → length sectors < fuel
      → Starts (arr.byte db.storage) db.sec_size db.max_size it nodes sectors
      → Gives (arr.byte db.storage) db (live (nodes ++ concat sectors))
          (iterate_loop st fuel it sector db)

  pub finish_lem :
      (fuel : ℕ) (it : KvIterator) (sector : KvSecInfo) (sectors : List (List Node))
      → length sectors ≤ fuel
      → length it.curr_kv.name ≡ 64
      → it.traversed_len + db.sec_size + length sectors * db.sec_size ≡ db.max_size
      → sector.addr ≡ it.sector_addr
      → sector.combined ≡ sector_not_combined
      → it.sector_addr + db.sec_size ≤ db.max_size
      → Ring
          (arr.byte db.storage)
          db.sec_size
          db.max_size
          (following db.sec_size db.max_size it.sector_addr)
          sectors
      → Goes fuel sector
      → Gives (arr.byte db.storage) db (live (concat sectors)) (finish fuel sector (false, it) db)
  unfolding next_sector Yields live
  finish_lem fuel it sector [] enough room total at alone inside ring go =
      let sum : (it.traversed_len + db.sec_size) % 2 ^ 32 ≡ it.traversed_len + db.sec_size =
        omega arith in
      let end =
        last_lem (arr.byte db.storage) db.sec_size db.max_size small wide
          (it.traversed_len + db.sec_size) sector alone (omega arith) in
      rw (sum, end) (refl, refl)
  finish_lem fuel it sector (nodes ∷ sectors) enough room total at alone inside ring go =
      let sum : (it.traversed_len + db.sec_size) % 2 ^ 32 ≡ it.traversed_len + db.sec_size =
        omega arith in
      let rounds : suc (length sectors) * db.sec_size ≡ db.sec_size + length sectors * db.sec_size =
        omega arith in
      let next =
        next_lem (arr.byte db.storage) db.sec_size db.max_size small wide it.sector_addr
          (it.traversed_len + db.sec_size) sector at alone inside (omega arith) in
      let more : (following db.sec_size db.max_size it.sector_addr == failed_addr) ≡ false =
        ground arith in
      rw (sum, next, more)
        (go _ nodes sectors (omega arith)
          (record { start = refl; room = room; total = omega arith; ring = ring }))

  -- What `live_in_sector` makes of the end of its walk
  abbrev walked_to : KvIterator → Bool → Kv → Bool × KvIterator
  walked_to it stop kv =
      if stop
      then (
        true,
        record it {
          curr_kv = kv;
          iterated_cnt = wrapping_add it.iterated_cnt 1;
          iterated_obj_bytes = it.iterated_obj_bytes + kv.len;
          iterated_value_bytes = it.iterated_value_bytes + kv.value_len;
        },
      )
      else (false, record it { curr_kv = kv })

  walked_lem :
      (fuel end : ℕ) (it : KvIterator) (nodes : List Node) (sectors : List (List Node))
      (stop : Bool) (kv : Kv)
      → Walked (arr.byte db.storage) (it.sector_addr + 16) end nodes stop kv
      → length sectors ≤ fuel
      → length kv.name ≡ 64
      → it.traversed_len + db.sec_size + length sectors * db.sec_size ≡ db.max_size
      → Within (arr.byte db.storage) db.sec_size db.max_size it.sector_addr end sectors
      → Goes fuel (header (arr.byte db.storage) it.sector_addr).1
      → Gives
          (arr.byte db.storage)
          db
          (nodes ++ live (concat sectors))
          (finish fuel (header (arr.byte db.storage) it.sector_addr).1 (walked_to it stop kv) db)
  unfolding Walked Yields
  walked_lem fuel end it [] sectors stop kv walked enough room total within go = rw walked (
      finish_lem fuel (record it { curr_kv = kv }) (header (arr.byte db.storage) it.sector_addr).1
        sectors enough room total (header-addr (arr.byte db.storage) it.sector_addr) within.alone
        within.inside within.after go)
  walked_lem fuel end it (n ∷ nodes) sectors stop kv (hit, reached) enough room total within go =
      rw hit (refl, (refl, (end, nodes, sectors, reached, within, total, refl)))

  -- A round that walks on from the node `n`
  pub walk_lem :
      (fuel addr end : ℕ) (it : KvIterator) (n : Node) (nodes : List Node)
      (sectors : List (List Node))
      → length sectors ≤ fuel
      → length it.curr_kv.name ≡ 64
      → it.traversed_len + db.sec_size + length sectors * db.sec_size ≡ db.max_size
      → it.sector_addr + 16 ≤ addr
      → Nodes (arr.byte db.storage) addr (n ∷ nodes) end
      → Within (arr.byte db.storage) db.sec_size db.max_size it.sector_addr end sectors
      → Goes fuel (header (arr.byte db.storage) it.sector_addr).1
      → Gives (arr.byte db.storage) db (live (n ∷ nodes) ++ live (concat sectors)) (
          (live_in_sector st it (header (arr.byte db.storage) it.sector_addr).1 addr
              >>= finish fuel (header (arr.byte db.storage) it.sector_addr).1)
            db)
  unfolding live_in_sector walk_kvs
  walk_lem fuel addr end it n nodes sectors enough room total above stored within go =
      let f = arr.byte db.storage in
      let at = header-addr f it.sector_addr in
      let many = Nodes-length f addr (n ∷ nodes) end stored in
      let kv : Kv = record (it.curr_kv) { addr_start = addr } in
      let bound = within.tail in
      let inside = within.inside in
      let (same, room', walked) =
        live_loop_lem st arr db (header f it.sector_addr).1 (it.sector_addr + 16) end
          (used-empty (header f it.sector_addr) within.used) (rw at within.tail)
          (λ x p q. within.erased x p (rw (sym at) q)) (rw at (omega arith)) (rw at (omega arith))
          (rw at inside) (omega arith) (db.sec_size + 1) n nodes kv (omega arith) room above
          stored in
      rw same
        (walked_lem fuel end it (live (n ∷ nodes)) sectors _ _ walked enough room' total within go)

  -- The descriptor that is read over keeps nothing of the sector before.
  decode_over :
      (addr : ℕ) (hdr : List ℕ) (sector : KvSecInfo)
      → decode_sector addr hdr sector ≡ decode_sector addr hdr blank_sector
  unfolding decode_sector
  decode_over addr hdr sector = ground arith

  pub read_over :
      (addr : ℕ) (sector : KvSecInfo)
      → addr + 16 ≤ arr.capacity db.storage
      → read_sector_info st addr sector false db ≡ (header (arr.byte db.storage) addr, db)
  unfolding read_sector_info
  read_over addr sector h =
      rw
        (
          arr.read_in db.storage addr (replicate 16 0) h,
          decode_over addr (slice (arr.byte db.storage) addr 16) sector,
        )
        (after_header_lem st arr [] db (header (arr.byte db.storage) addr).0
          (header (arr.byte db.storage) addr).1)

  -- The rounds from the start of a sector on
  pub rounds_lem :
      (fuel : ℕ) (it : KvIterator) (nodes : List Node) (sectors : List (List Node))
      (sector : KvSecInfo)
      → length sectors < fuel
      → Starts (arr.byte db.storage) db.sec_size db.max_size it nodes sectors
      → Gives
          (arr.byte db.storage)
          db
          (live (nodes ++ concat sectors))
          (iterate_loop st fuel it sector db)
  unfolding iterate_loop Ring Holds start_addr live_in_sector
  rounds_lem zero it nodes sectors sector enough h = absurd (omega arith)
  rounds_lem (suc fuel) it [] sectors sector enough h =
      let ((alone, idle), inside, after) = h.ring in
      rw (read_over it.sector_addr sector (omega arith), idle)
        (finish_lem fuel it (header (arr.byte db.storage) it.sector_addr).1 sectors (omega arith)
          h.room h.total (header-addr (arr.byte db.storage) it.sector_addr) alone inside after
          (λ it' nodes' more e s.
            rounds_lem fuel it' nodes' more (header (arr.byte db.storage) it.sector_addr).1 e s))
  rounds_lem (suc fuel) it (n ∷ nodes) sectors sector enough h =
      let ((alone, busy, (end, stored, tail, erased)), inside, after) = h.ring in
      let at = header-addr (arr.byte db.storage) it.sector_addr in
      let first : (it.sector_addr + 16) % 2 ^ 32 ≡ it.sector_addr + 16 = omega arith in
      let some : (it.sector_addr + 16 == failed_addr) ≡ false = ground arith in
      let within : Within (arr.byte db.storage) db.sec_size db.max_size it.sector_addr end sectors =
        record {
          used = busy;
          alone = alone;
          tail = tail;
          erased = erased;
          inside = inside;
          after = after;
        } in
      rw
        (
          read_over it.sector_addr sector (omega arith),
          busy,
          h.start,
          at,
          first,
          some,
          live-append (n ∷ nodes) (concat sectors),
        )
        (walk_lem fuel (it.sector_addr + 16) end it n nodes sectors (omega arith) h.room h.total
          (omega arith) stored within
          (λ it' nodes' more e s.
            rounds_lem fuel it' nodes' more (header (arr.byte db.storage) it.sector_addr).1 e s))
