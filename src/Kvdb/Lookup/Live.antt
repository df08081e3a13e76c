-- ===== src/Kvdb/Lookup/Live.antt =====
-- kvdb.rs: the inner loop of `iterate`, which goes on to the next valid node of a sector.
use flash_db_rust.Base.{
  branch, ℕ, zero, suc, ◌+◌, ◌-◌, ◌^◌, ◌≤◌, ◌<◌, ◌≡◌, refl, Bool, true, false, List, [], ◌∷◌, ◌++◌,
  ◌&&◌, pure, arith, length, ◌==◌, Bool-cases, inl, inr, if◌then◌else◌,
}
use flash_db_rust.Def.{failed_addr}
use flash_db_rust.Def.KvStatus
use flash_db_rust.Def.KvStatus.{KvStatus}
use flash_db_rust.Def.StoreStatus
use flash_db_rust.Def.StoreStatus.{SectorStoreStatus}
use flash_db_rust.Storage.{Storage}
use flash_db_rust.Storage.Laws.{IsByteArray}
use flash_db_rust.Kvdb.Types.{Kv, KvSecInfo, Kvdb}
use flash_db_rust.Kvdb.Walk.{kv_loop}
use flash_db_rust.Kvdb.Create.Node.{read_node}
use flash_db_rust.Kvdb.Lookup.{Node, size, Nodes, Nodes-bounds}
use flash_db_rust.Kvdb.Lookup.Sector.{read_lem, next_node, next_last, length-read_node, write_iff}

-- The valid nodes
unfoldable pub live : List Node → List Node
live [] = []
live (n ∷ nodes) = if n.state == 2 then n ∷ live nodes else live nodes

pub live-append : (xs ys : List Node) → live (xs ++ ys) ≡ live xs ++ live ys
unfolding live
live-append [] ys = refl
live-append (n ∷ xs) ys = ground (arith, live-append xs ys)

pub live_hit :
    (n : Node) (nodes : List Node) → (n.state == 2) ≡ true → live (n ∷ nodes) ≡ n ∷ live nodes
unfolding live
live_hit n nodes e = rw e refl

pub live_miss :
    (n : Node) (nodes : List Node) → (n.state == 2) ≡ false → live (n ∷ nodes) ≡ live nodes
unfolding live
live_miss n nodes e = rw e refl

-- The test of the loop, on a node as it is read
is_live :
    (kv : Kv) (n : Node)
    → let got = read_node kv n.state n.key n.value in
      (KvStatus.eq got.status KvStatus.write && got.crc_is_ok) ≡ (n.state == 2)
unfolding read_node
is_live kv n = rw (write_iff n.state) (ground arith)

-- The node `n` as it was read from `low` on, in a sector whose nodes end at `end`, with the valid
-- ones behind it
abbrev pub Reached : (ℕ → ℕ) → ℕ → ℕ → Node → List Node → Kv → Type 0
Reached f low end n nodes kv =
    ((kv' : Kv) × (rest : List Node) × (kv ≡ read_node kv' n.state n.key n.value)
      × (length kv'.name ≡ 64)
      × (low ≤ kv'.addr_start)
      × Nodes f kv'.addr_start (n ∷ rest) end
      × (live rest ≡ nodes))

-- Where a walk stops, for the valid nodes on its way.
unfoldable pub Walked : (ℕ → ℕ) → ℕ → ℕ → List Node → Bool → Kv → Type 0
Walked f low end [] stop kv = stop ≡ false
Walked f low end (n ∷ nodes) stop kv = (stop ≡ true) × Reached f low end n nodes kv

module _ {S : Type 0} (st : Storage S) (arr : IsByteArray st) (db : Kvdb S) (sector : KvSecInfo)
    (low end : ℕ) (used : StoreStatus.eq sector.store SectorStoreStatus.empty ≡ false)
    (tail : end + 48 ≤ sector.addr + db.sec_size)
    (erased : (x : ℕ) → end ≤ x → x < sector.addr + db.sec_size → arr.byte db.storage x ≡ 0xff)
    (small : sector.addr + db.sec_size + 32 < 2 ^ 32)
    (fits : sector.addr + db.sec_size ≤ arr.capacity db.storage)
    (whole : sector.addr + db.sec_size ≤ db.max_size) (below : db.max_size < 2 ^ 32 - 1) where
  -- A round at a node that is valid
  live_loop_hit :
      (fuel : ℕ) (n : Node) (nodes : List Node) (kv : Kv)
      → length kv.name ≡ 64
      → low ≤ kv.addr_start
      → Nodes (arr.byte db.storage) kv.addr_start (n ∷ nodes) end
      → (n.state == 2) ≡ true
      → let ((stop, last, _), db') =
          kv_loop st
            (λ _ kv (_ : Unit {0}). pure (KvStatus.eq kv.status KvStatus.write && kv.crc_is_ok, tt))
            (suc fuel)
            sector
            kv
            tt
            db in
        (db' ≡ db)
        × (length last.name ≡ 64)
        × Walked (arr.byte db.storage) low end (live (n ∷ nodes)) stop last
  unfolding kv_loop Walked branch Nodes
  live_loop_hit fuel n nodes kv room above h e =
      let read =
        read_lem st arr [] db sector end used tail erased small fits whole below n nodes kv room
          h in
      rw (read, is_live kv n, e, live_hit n nodes e)
        (refl, length-read_node kv n room h.1, (refl, (kv, nodes, refl, room, above, h, refl)))

  -- The walk from a node on
  pub live_loop_lem :
      (fuel : ℕ) (n : Node) (nodes : List Node) (kv : Kv)
      → length nodes < fuel
      → length kv.name ≡ 64
      → low ≤ kv.addr_start
      → Nodes (arr.byte db.storage) kv.addr_start (n ∷ nodes) end
      → let ((stop, last, _), db') =
          kv_loop st
            (λ _ kv (_ : Unit {0}). pure (KvStatus.eq kv.status KvStatus.write && kv.crc_is_ok, tt))
            fuel
            sector
            kv
            tt
            db in
        (db' ≡ db)
        × (length last.name ≡ 64)
        × Walked (arr.byte db.storage) low end (live (n ∷ nodes)) stop last
  unfolding kv_loop Walked branch Nodes
  live_loop_lem zero n nodes kv enough room above h = absurd (omega arith)
  live_loop_lem (suc fuel) n [] kv enough room above h =
      let read =
        read_lem st arr [] db sector end used tail erased small fits whole below n [] kv room h in
      let room' = length-read_node kv n room h.1 in
      let last = next_last st arr [] db sector end used tail erased small fits whole below n kv h in
      elim (Bool-cases (n.state == 2)) [
        | inl e ↦ live_loop_hit fuel n [] kv room above h e
        | inr e ↦
            rw (read, is_live kv n, e, last, live_miss n [] e) (refl, room', unfold live in refl)
      ]
  live_loop_lem (suc fuel) n (m ∷ nodes) kv enough room above h =
      let read =
        read_lem st arr [] db sector end used tail erased small fits whole below n (m ∷ nodes) kv
          room h in
      let room' = length-read_node kv n room h.1 in
      let more =
        next_node st arr [] db sector end used tail erased small fits whole below n m nodes kv h in
      let behind = h.3 in
      let after =
        Nodes-bounds (arr.byte db.storage) (kv.addr_start + size n) (m ∷ nodes) end behind in
      elim (Bool-cases (n.state == 2)) [
        | inl e ↦ live_loop_hit fuel n (m ∷ nodes) kv room above h e
        | inr e ↦
            let inside : (kv.addr_start + size n == failed_addr) ≡ false = ground arith in
            rw (read, is_live kv n, e, more, inside, live_miss n (m ∷ nodes) e)
              (live_loop_lem fuel m nodes
                (record (read_node kv n.state n.key n.value) {
                  addr_start = kv.addr_start + size n;
                })
                (omega arith) room' (omega arith) behind)
      ]
