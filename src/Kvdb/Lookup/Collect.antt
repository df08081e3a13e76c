-- ===== src/Kvdb/Lookup/Collect.antt =====
-- kvdb.rs: `iter_collect` lists the valid nodes of the ring.
use native.Mathlib.Nat.{le-div_iff_mul-le}
use flash_db_rust.Base.{
  append_nil, ℕ, zero, suc, ◌+◌, ◌*◌, ◌/◌, ◌^◌, ◌≤◌, ◌<◌, ◌≡◌, refl, ◌∙◌, sym, subst, ap, Bool,
  true, false, List, [], ◌∷◌, ◌++◌, arith, length, take, drop, length-append,
}
use flash_db_rust.Storage.{Storage}
use flash_db_rust.Storage.Laws.{IsByteArray}
use flash_db_rust.Storage.Bytes.{slice}
use flash_db_rust.Kvdb.Types.{Kv, KvIterator, Kvdb, blank_sector}
use flash_db_rust.Kvdb.Create.Node.{read_node}
use flash_db_rust.Kvdb.Iter.{iterator, iterate_loop, iterate, collect_loop, iter_collect}
use flash_db_rust.Kvdb.Lookup.{Node, Nodes, Nodes-length}
use flash_db_rust.Kvdb.Lookup.Rule.{Ring, Holds, concat, following}
use flash_db_rust.Kvdb.Lookup.Sector.{take_name}
use flash_db_rust.Kvdb.Lookup.Ring.{IsRing}
use flash_db_rust.Kvdb.Lookup.Live.{live}
use flash_db_rust.Kvdb.Lookup.Iter.{Yields, Gives, rounds_lem}
use flash_db_rust.Kvdb.Lookup.After.{after_lem}

-- The name and the value that a node stands for, in a medium
abbrev pub entry : (ℕ → ℕ) → Kv → List ℕ × List ℕ
entry f kv = (take kv.name_len kv.name, slice f kv.addr_value kv.value_len)

abbrev pub entries : (ℕ → ℕ) → List Kv → List (List ℕ × List ℕ)
entries f [] = []
entries f (kv ∷ kvs) = entry f kv ∷ entries f kvs

-- The keys with their values
abbrev pub pairs : List Node → List (List ℕ × List ℕ)
pairs [] = []
pairs (n ∷ nodes) = (n.key, n.value) ∷ pairs nodes

entries-append :
    (f : ℕ → ℕ) (out : List Kv) (kv : Kv) (x : List ℕ × List ℕ) (xs : List (List ℕ × List ℕ))
    → entry f kv ≡ x
    → entries f (out ++ kv ∷ []) ++ xs ≡ entries f out ++ x ∷ xs
entries-append f [] kv x xs e = ap (◌∷ xs) e
entries-append f (y ∷ out) kv x xs e = ap (◌∷◌ (entry f y)) (entries-append f out kv x xs e)

live-length : (nodes : List Node) → length (live nodes) ≤ length nodes
unfolding live
live-length [] = omega arith
live-length (n ∷ nodes) = ground (arith, live-length nodes)

length-concat :
    (f : ℕ → ℕ) (sec max addr : ℕ) (sectors : List (List Node))
    → Ring f sec max addr sectors
    → length (concat sectors) ≤ length sectors * sec
unfolding Ring Holds
length-concat f sec max addr [] ring = omega arith
length-concat f sec max addr ([] ∷ sectors) (holds, inside, rest) =
    let more = length-concat f sec max (following sec max addr) sectors rest in omega arith
length-concat f sec max addr ((n ∷ nodes) ∷ sectors)
      ((alone, busy, (end, stored, tail, erased)), inside, rest) =
    let more = length-concat f sec max (following sec max addr) sectors rest in
    let many = Nodes-length f (addr + 16) (n ∷ nodes) end stored in
    let both = length-append (n ∷ nodes) (concat sectors) in omega arith

module _ {S : Type 0} (st : Storage S) (arr : IsByteArray st) (db : Kvdb S)
    (small : db.max_size + db.sec_size + 32 < 2 ^ 32) (fits : db.max_size ≤ arr.capacity db.storage)
    (wide : 16 ≤ db.sec_size) where
  -- What a found node is
  pair_lem :
      (kv : Kv) (n : Node) (rest : List Node) (end : ℕ)
      → Nodes (arr.byte db.storage) kv.addr_start (n ∷ rest) end
      → entry (arr.byte db.storage) (read_node kv n.state n.key n.value) ≡ (n.key, n.value)
  unfolding Nodes read_node
  pair_lem kv n rest end (state, short, node, more) =
      rw (take_name n.key (drop (length n.key) kv.name), node.content) refl

  -- The rounds that `iterate` is given are enough.
  rounds : (k : ℕ) → k * db.sec_size ≤ db.max_size → k ≤ db.max_size / db.sec_size + 1
  rounds k h =
      let q : k ≤ db.max_size / db.sec_size =
        (le-div_iff_mul-le {k = db.sec_size} (omega arith)).1 h in
      omega arith

  iterate_lem :
      (it : KvIterator) (n : Node) (nodes : List Node) (found : Bool)
      → Yields (arr.byte db.storage) db.sec_size db.max_size (n ∷ nodes) (found, it)
      → (entry (arr.byte db.storage) it.curr_kv ≡ (n.key, n.value))
        × Gives (arr.byte db.storage) db nodes (iterate st it db)
  unfolding Yields iterate
  iterate_lem it n nodes found
        (hit, (end, more, sectors, (kv, rest, e, room, above, stored, ahead), within, total, sum)) =
      let fuel : db.max_size / db.sec_size + 2 ≡ suc (db.max_size / db.sec_size + 1) =
        omega arith in
      let next =
        after_lem st arr db small fits wide (db.max_size / db.sec_size + 1) end it kv n rest sectors
          (rounds (length sectors) (omega arith)) room above stored within total in
      (
        subst (λ got. entry (arr.byte db.storage) got ≡ (n.key, n.value)) (sym e)
            (pair_lem kv n rest end stored),
        rw fuel (
            subst
              (λ got. Gives (arr.byte db.storage) db nodes (
                iterate_loop st (suc (db.max_size / db.sec_size + 1)) (record it { curr_kv = got })
                  blank_sector db))
              (sym e)
              (subst
                (λ ns. Gives (arr.byte db.storage) db ns (
                  iterate_loop st (suc (db.max_size / db.sec_size + 1))
                    (record it { curr_kv = read_node kv n.state n.key n.value }) blank_sector db))
                (ap (◌++ live (concat sectors)) ahead ∙ sum) next)),
      )

  collect_lem :
      (fuel : ℕ) (it : KvIterator) (out : List Kv) (nodes : List Node)
      → length nodes < fuel
      → Gives (arr.byte db.storage) db nodes (iterate st it db)
      → let (kvs, db') = collect_loop st fuel it out db in
        (db' ≡ db)
        × (entries (arr.byte db.storage) kvs ≡ entries (arr.byte db.storage) out ++ pairs nodes)
  unfolding collect_loop
  collect_lem zero it out nodes enough h = absurd (omega arith)
  collect_lem (suc fuel) it out [] enough (same, none) =
      let none : (iterate st it db).0.0 ≡ false = unfold Yields in none in
      rw (none, same) (refl, sym (append_nil (entries (arr.byte db.storage) out)))
  collect_lem (suc fuel) it out (n ∷ nodes) enough (same, some) =
      let hit : (iterate st it db).0.0 ≡ true = unfold Yields in some.0 in
      let (shown, next) = iterate_lem (iterate st it db).0.1 n nodes (iterate st it db).0.0 some in
      let (same', listed) =
        collect_lem fuel (iterate st it db).0.1 (out ++ (iterate st it db).0.1.curr_kv ∷ []) nodes
          (omega arith) next in
      rw (hit, same)
        (
          same',
          listed
              ∙ entries-append (arr.byte db.storage) out (iterate st it db).0.1.curr_kv
                  (n.key, n.value) (pairs nodes) shown,
        )

  -- `iterate` at the start of the ring
  first_lem :
      (nodes : List Node) (sectors : List (List Node))
      → db.sec_size + length sectors * db.sec_size ≡ db.max_size
      → Ring (arr.byte db.storage) db.sec_size db.max_size db.oldest_addr (nodes ∷ sectors)
      → Gives
          (arr.byte db.storage)
          db
          (live (nodes ++ concat sectors))
          (iterate st (iterator st db) db)
  unfolding iterate iterator
  first_lem nodes sectors total ring =
      let enough = rounds (length sectors) (omega arith) in
      rounds_lem st arr db small fits wide (db.max_size / db.sec_size + 2) _ nodes sectors
        blank_sector (omega arith)
        (record { start = refl; room = refl; total = omega arith; ring = ring })

-- On a byte array, for a database that `IsRing` describes: its sectors lie inside the medium,
-- have at least 16 bytes, end more than a sector and 32 bytes below 2^32 and are not combined,
-- and each is not in use or holds at least one complete node, with keys of at most 63 bytes, one
-- node behind the other and then at least 48 bytes, all erased. `iter_collect` then changes
-- nothing, and the names and values of the nodes that it returns are the keys and values of the
-- valid nodes, in the order of the ring from the oldest sector on.
pub iter_collect-live :
    {S : Type 0} (st : Storage S) (arr : IsByteArray st) (db : Kvdb S) (sectors : List (List Node))
    → IsRing st arr db sectors
    → let (kvs, db') = iter_collect st db in
      (db' ≡ db) × (entries (arr.byte db.storage) kvs ≡ pairs (live (concat sectors)))
unfolding iter_collect
iter_collect-live st arr db [] h = absurd (omega (arith, h.some_sectors))
iter_collect-live st arr db (nodes ∷ sectors) h =
    let total : db.sec_size + length sectors * db.sec_size ≡ db.max_size =
      omega (arith, h.geometry) in
    let few =
      length-concat (arr.byte db.storage) db.sec_size db.max_size db.oldest_addr (nodes ∷ sectors)
        h.ring in
    let fewer = live-length (concat (nodes ∷ sectors)) in
    collect_lem st arr db h.small h.fits h.wide (db.max_size + 1) (iterator st db) []
      (live (concat (nodes ∷ sectors))) (omega arith)
      (first_lem st arr db h.small h.fits h.wide nodes sectors total h.ring)
