-- ===== src/Kvdb/Lookup/Sector.antt =====
-- kvdb.rs: the walk over the nodes of a sector finds the first valid node with the key.
use flash_db_rust.Base.{
  branch, ℕ, zero, suc, ◌+◌, ◌-◌, ◌^◌, ◌≤◌, ◌<◌, ◌≡◌, refl, ◌∙◌, ap, Bool, true, false, Option,
  none, some, List, [], ◌∷◌, ◌++◌, ◌&&◌, pure, arith, length, drop, take, set, eq_bytes, ◌==◌,
  subst, ok, length-append, length-drop, Bool-cases, inl, inr,
}
use flash_db_rust.Def.{failed_addr}
use flash_db_rust.Def.KvStatus
use flash_db_rust.Def.KvStatus.{KvStatus}
use flash_db_rust.Def.StoreStatus
use flash_db_rust.Def.StoreStatus.{SectorStoreStatus}
use flash_db_rust.Storage.{Storage}
use flash_db_rust.Storage.Bytes.{slice}
use flash_db_rust.Storage.Laws.{IsByteArray}
use flash_db_rust.Kvdb.Types.{Kv, KvSecInfo, Kvdb}
use flash_db_rust.Kvdb.Record.{read_kv}
use flash_db_rust.Kvdb.Walk.{kv_loop}
use flash_db_rust.Kvdb.Find.{matches}
use flash_db_rust.Kvdb.Create.Node.{read_node, read_kv-IsNode}
use flash_db_rust.Kvdb.Next.{get_next_kv_addr}
use flash_db_rust.Kvdb.Lookup.{Node, size, lookup, Nodes, Nodes-bounds}
use flash_db_rust.Kvdb.Lookup.Next.{get_next_kv_addr-node, get_next_kv_addr-last}

pub take_name : (key rest : List ℕ) → take (length key) (set (key ++ rest) (length key) 0) ≡ key
take_name [] rest = refl
take_name (b ∷ key) rest = ap (◌∷◌ b) (take_name key rest)

length-set : (xs : List ℕ) (i v : ℕ) → length (set xs i v) ≡ length xs
length-set [] i v = refl
length-set (x ∷ xs) zero v = refl
length-set (x ∷ xs) (suc i) v = ap suc (length-set xs i v)

eq_bytes-length : (xs ys : List ℕ) → ((length xs == length ys) && eq_bytes xs ys) ≡ eq_bytes xs ys
unfolding eq_bytes
eq_bytes-length [] [] = ground arith
eq_bytes-length [] (y ∷ ys) = ground arith
eq_bytes-length (x ∷ xs) [] = ground arith
eq_bytes-length (x ∷ xs) (y ∷ ys) = ground (arith, eq_bytes-length xs ys)

pub write_iff : (state : ℕ) → KvStatus.eq (KvStatus.from_index state) KvStatus.write ≡ (state == 2)
write_iff zero = refl
write_iff (suc zero) = refl
write_iff (suc (suc zero)) = refl
write_iff (suc (suc (suc zero))) = refl
write_iff (suc (suc (suc (suc zero)))) = refl
write_iff (suc (suc (suc (suc (suc i))))) = ground arith

-- A node as it is read matches the key where the node is valid and has the key.
matches_lem :
    (kv : Kv) (key : List ℕ) (n : Node)
    → matches key (read_node kv n.state n.key n.value) ≡ ((n.state == 2) && eq_bytes n.key key)
unfolding matches read_node
matches_lem kv key n =
    rw (take_name n.key (drop (length n.key) kv.name), write_iff n.state, eq_bytes-length n.key key)
      refl

-- The name that is read keeps the size of its array.
pub length-read_node :
    (kv : Kv) (n : Node)
    → length kv.name ≡ 64
    → length n.key ≤ 63
    → length (read_node kv n.state n.key n.value).name ≡ 64
unfolding read_node
length-read_node kv n room short =
    length-set (n.key ++ drop (length n.key) kv.name) (length n.key) 0
    ∙ omega (
      arith,
      length-append n.key (drop (length n.key) kv.name),
      length-drop (length n.key) kv.name,
    )

-- What a search returns for the value it looks for.
unfoldable pub Answer : (ℕ → ℕ) → ℕ → Option (List ℕ) → Bool → Kv → Type 0
Answer f capacity none stop kv = stop ≡ false
Answer f capacity (some v) stop kv =
    (stop ≡ true)
    × (kv.value_len ≡ length v)
    × (slice f kv.addr_value (length v) ≡ v)
    × (kv.addr_value + length v ≤ capacity)

module _ (f : ℕ → ℕ) (capacity : ℕ) (rest : Option (List ℕ)) where
  -- The answer of a search in two parts, where the first part decides
  pub Answer-hit :
      (o out : Option (List ℕ)) (stop : Bool) (kv : Kv)
      → Answer f capacity o stop kv
      → stop ≡ true
      → elim o [ some v ↦ some v | none ↦ rest ] ≡ out
      → Answer f capacity out stop kv
  unfolding Answer
  Answer-hit none out stop kv answer e same = absurd (ground arith)
  Answer-hit (some v) out stop kv answer e same =
      subst (λ o. Answer f capacity o stop kv) same answer

  -- and where it does not
  pub Answer-miss :
      (o out : Option (List ℕ)) (stop : Bool) (kv : Kv)
      → Answer f capacity o stop kv
      → stop ≡ false
      → elim o [ some v ↦ some v | none ↦ rest ] ≡ out
      → rest ≡ out
  unfolding Answer
  Answer-miss none out stop kv answer e same = same
  Answer-miss (some v) out stop kv (hit, len, content, bound) e same = absurd (ground arith)

module _ {S : Type 0} (st : Storage S) (arr : IsByteArray st) (key : List ℕ) (db : Kvdb S) where
  open arr use {capacity, byte}

  -- A search that changed nothing
  abbrev pub Searched : Option (List ℕ) → Bool → Kv → Kvdb S → Type 0
  Searched out stop kv db' =
      (db' ≡ db)
      × (length kv.name ≡ 64)
      × Answer (byte db.storage) (capacity db.storage) out stop kv

  abbrev pub probe : Bool × Kv → Bool
  probe (stop, kv) = matches key kv

  module _ (sector : KvSecInfo) (end : ℕ)
      (used : StoreStatus.eq sector.store SectorStoreStatus.empty ≡ false)
      (tail : end + 48 ≤ sector.addr + db.sec_size)
      (erased : (x : ℕ) → end ≤ x → x < sector.addr + db.sec_size → byte db.storage x ≡ 0xff)
      (small : sector.addr + db.sec_size + 32 < 2 ^ 32)
      (fits : sector.addr + db.sec_size ≤ capacity db.storage)
      (whole : sector.addr + db.sec_size ≤ db.max_size) (below : db.max_size < 2 ^ 32 - 1) where
    -- A node as it is read
    abbrev pub got : Node → Kv → Kv
    got n kv = read_node kv n.state n.key n.value

    pub read_lem :
        (n : Node) (nodes : List Node) (kv : Kv)
        → length kv.name ≡ 64
        → Nodes (byte db.storage) kv.addr_start (n ∷ nodes) end
        → read_kv st kv db ≡ ((ok tt, got n kv), db)
    unfolding Nodes
    read_lem n nodes kv room (state, short, node, rest) =
        let after = Nodes-bounds (byte db.storage) (kv.addr_start + size n) nodes end rest in
        subst (λ i. read_kv st kv db ≡ ((ok tt, read_node kv i n.key n.value), db)) state
          (read_kv-IsNode st arr kv n.key n.value db short room (omega arith) (omega arith)
            (omega arith) below node)

    pub next_node :
        (n m : Node) (nodes : List Node) (kv : Kv)
        → Nodes (byte db.storage) kv.addr_start (n ∷ m ∷ nodes) end
        → get_next_kv_addr st sector (got n kv) db ≡ (kv.addr_start + size n, db)
    unfolding Nodes read_node
    next_node n m nodes kv (state, short, node, (state', short', node', rest)) =
        let after =
          Nodes-bounds (byte db.storage) (kv.addr_start + size n + size m) nodes end rest in
        get_next_kv_addr-node st arr db sector (got n kv) used refl (omega arith) (omega arith)
          small fits m.key m.value node' (omega arith)

    pub next_last :
        (n : Node) (kv : Kv)
        → Nodes (byte db.storage) kv.addr_start (n ∷ []) end
        → get_next_kv_addr st sector (got n kv) db ≡ (failed_addr, db)
    unfolding Nodes read_node
    next_last n kv (state, short, node, e) =
        get_next_kv_addr-last st arr db sector (got n kv) used refl (omega arith) (omega arith)
          small fits (λ x p q. erased x (omega arith) q)

    -- A round at the node that is looked for
    kv_loop_hit :
        (fuel : ℕ) (n : Node) (nodes : List Node) (kv : Kv)
        → length kv.name ≡ 64
        → Nodes (byte db.storage) kv.addr_start (n ∷ nodes) end
        → ((n.state == 2) && eq_bytes n.key key) ≡ true
        → let ((stop, last, _), db') =
            kv_loop st
              (λ _ kv (_ : Unit {0}). pure (matches key kv, tt))
              (suc fuel)
              sector
              kv
              tt
              db in
          Searched (lookup key (n ∷ nodes)) stop last db'
    unfolding kv_loop lookup Answer Nodes branch
    kv_loop_hit fuel n nodes kv room h e =
        let (state, short, node, rest) = h in
        let after = Nodes-bounds (byte db.storage) (kv.addr_start + size n) nodes end rest in
        rw (read_lem n nodes kv room h, matches_lem kv key n, e)
          (
            refl,
            length-read_node kv n room short,
            unfold read_node in (refl, refl, node.content, omega arith),
          )

    -- The walk from a node on, with a round for each node that is left
    pub kv_loop_lem :
        (fuel : ℕ) (n : Node) (nodes : List Node) (kv : Kv)
        → length nodes < fuel
        → length kv.name ≡ 64
        → Nodes (byte db.storage) kv.addr_start (n ∷ nodes) end
        → let ((stop, last, _), db') =
            kv_loop st (λ _ kv (_ : Unit {0}). pure (matches key kv, tt)) fuel sector kv tt db in
          Searched (lookup key (n ∷ nodes)) stop last db'
    unfolding kv_loop lookup Answer Nodes branch
    kv_loop_lem zero n nodes kv enough room h = absurd (omega arith)
    kv_loop_lem (suc fuel) n [] kv enough room h =
        elim (Bool-cases ((n.state == 2) && eq_bytes n.key key)) [
          | inl e ↦ kv_loop_hit fuel n [] kv room h e
          | inr e ↦
              rw (read_lem n [] kv room h, matches_lem kv key n, e, next_last n kv h)
                (refl, length-read_node kv n room h.1, refl)
        ]
    kv_loop_lem (suc fuel) n (m ∷ nodes) kv enough room h =
        elim (Bool-cases ((n.state == 2) && eq_bytes n.key key)) [
          | inl e ↦ kv_loop_hit fuel n (m ∷ nodes) kv room h e
          | inr e ↦
              let after =
                Nodes-bounds (byte db.storage) (kv.addr_start + size n) (m ∷ nodes) end h.3 in
              let inside : (kv.addr_start + size n == failed_addr) ≡ false = ground arith in
              let rest =
                kv_loop_lem fuel m nodes (record (got n kv) { addr_start = kv.addr_start + size n })
                  (omega arith) (length-read_node kv n room h.1) h.3 in
              rw
                (
                  read_lem n (m ∷ nodes) kv room h,
                  matches_lem kv key n,
                  e,
                  next_node n m nodes kv h,
                  inside,
                )
                rest
        ]
