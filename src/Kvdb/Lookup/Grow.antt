-- ===== src/Kvdb/Lookup/Grow.antt =====
-- kvdb.rs: the ring after a node was written where the allocation found room.
use flash_db_rust.Base.{
  ℕ, ◌+◌, ◌*◌, ◌≤◌, ◌<◌, ◌≡◌, refl, ◌∙◌, sym, ap, ◌⊎◌, inl, inr, true, false, List, [], ◌∷◌, ◌++◌,
  arith, length, subst, ◌==◌, if◌then◌else◌, Result,
}
use flash_db_rust.Status.{get_status}
use flash_db_rust.Kvdb.Types.{KvSecInfo}
use flash_db_rust.Kvdb.Create.Node.{IsNode}
use flash_db_rust.Kvdb.Lookup.{Node, size, Nodes, Nodes-bounds}
use flash_db_rust.Kvdb.Lookup.Rule.{Holds, Ring, is_used, following}
use flash_db_rust.Kvdb.Lookup.Place.{Place, Room}
use flash_db_rust.Kvdb.Lookup.Circle.{
  Nodes_congr, header_congr, Holds-congr, Ring-congr, On, following-On, sectors-Apart,
}

-- One more node in the sector at `place`
unfoldable pub grow : ℕ → ℕ → Node → ℕ → ℕ → List (List Node) → List (List Node)
grow sec max n place addr [] = []
grow sec max n place addr (nodes ∷ sectors) =
    let rest = grow sec max n place (following sec max addr) sectors in
    if addr == place then (nodes ++ n ∷ []) ∷ sectors else nodes ∷ rest

pub length-grow :
    (sec max : ℕ) (n : Node) (place addr : ℕ) (sectors : List (List Node))
    → length (grow sec max n place addr sectors) ≡ length sectors
unfolding grow
length-grow sec max n place addr [] = refl
length-grow sec max n place addr (nodes ∷ sectors) =
    ground (arith, length-grow sec max n place (following sec max addr) sectors)

Nodes-snoc :
    (f : ℕ → ℕ) (addr : ℕ) (nodes : List Node) (end : ℕ) (n : Node)
    → Nodes f addr nodes end
    → get_status (f end ∷ []) 6 ≡ n.state
    → length n.key ≤ 63
    → IsNode f end n.key n.value
    → Nodes f addr (nodes ++ n ∷ []) (end + size n)
unfolding Nodes
Nodes-snoc f addr [] end n e state short node = rw (← e) (state, short, node, refl)
Nodes-snoc f addr (m ∷ nodes) end n (s, k, node', rest) state short node =
    (s, k, node', Nodes-snoc f (addr + size m) nodes end n rest state short node)

module _ (f : ℕ → ℕ) (start sec max place end : ℕ) (n : Node) (low : start < max)
    (wide : 16 ≤ sec) where
  -- The place lies further on, on the circle.
  place_later :
      (t addr : ℕ) (sectors : List (List Node))
      → t + length sectors * sec ≤ max
      → On start max t addr
      → Ring f sec max addr sectors
      → Place f sec max (size n) sectors addr place end
      → (u : ℕ) × (t ≤ u)
        × (u + sec ≤ max)
        × (place + sec ≤ max)
        × On start max u place
        × (place + 16 ≤ end)
        × (end + size n ≤ place + sec)
  unfolding Ring Place
  place_later t addr [] total on ring at = absurd at
  place_later t addr ([] ∷ sectors) total on (holds, inside, rest) (other, later) =
      let rounds : length ([] ∷ sectors) * sec ≡ sec + length sectors * sec = omega arith in
      let (u, p, q, r, on', b, b') =
        place_later (t + sec) (following sec max addr) sectors (omega arith)
          (following-On start sec max t addr low (omega arith) (omega arith) inside on) rest
          later in
      (u, omega arith, q, r, on', b, b')
  place_later t addr ((m ∷ nodes) ∷ sectors) total on (holds, inside, rest) (inr (other, later)) =
      let rounds : length ((m ∷ nodes) ∷ sectors) * sec ≡ sec + length sectors * sec =
        omega arith in
      let (u, p, q, r, on', b, b') =
        place_later (t + sec) (following sec max addr) sectors (omega arith)
          (following-On start sec max t addr low (omega arith) (omega arith) inside on) rest
          later in
      (u, omega arith, q, r, on', b, b')
  place_later t addr ((m ∷ nodes) ∷ sectors) total on (holds, inside, rest) (inl (here, room)) =
      let rounds : length ((m ∷ nodes) ∷ sectors) * sec ≡ sec + length sectors * sec =
        omega arith in
      let b = Nodes-bounds f (addr + 16) (m ∷ nodes) end room.stored in
      let fit = room.room in
      (
        t,
        omega arith,
        omega arith,
        omega arith,
        subst (On start max t) here on,
        omega arith,
        omega arith,
      )

  module _ (g : ℕ → ℕ) (outside : (x : ℕ) → (x < end) ⊎ (end + size n ≤ x) → f x ≡ g x)
      (state : get_status (g end ∷ []) 6 ≡ n.state) (short : length n.key ≤ 63)
      (node : IsNode g end n.key n.value) where
    -- The sector that grows
    place-Holds :
        (m : Node) (nodes : List Node)
        → Holds f sec place (m ∷ nodes)
        → Room f sec (size n) place m nodes end
        → Holds g sec place ((m ∷ nodes) ++ n ∷ [])
    unfolding Holds
    place-Holds m nodes (combined, busy, other) r =
        let low = Nodes-bounds f (place + 16) (m ∷ nodes) end r.stored in
        let e = sym (header_congr f g place (λ x p q. outside x (omega arith))) in
        (
          ap (λ (t : Result (Unit {0}) × KvSecInfo). t.1.combined) e ∙ combined,
          ap is_used e ∙ busy,
          (
            end + size n,
            Nodes-snoc g (place + 16) (m ∷ nodes) end n
                (Nodes_congr f g (place + 16) (m ∷ nodes) end (λ x p q. outside x (omega arith))
                  r.stored)
                state short node,
            omega (arith, r.room),
            λ x p q. sym (outside x (omega arith)) ∙ r.erased x (omega arith) q,
          ),
        )

    -- A sector before the place
    grow-before :
        (t addr : ℕ) (nodes : List Node) (sectors : List (List Node))
        → t + sec + length sectors * sec ≤ max
        → On start max t addr
        → Holds f sec addr nodes
        → addr + sec ≤ max
        → Ring f sec max (following sec max addr) sectors
        → Place f sec max (size n) sectors (following sec max addr) place end
        → Ring g sec max
            (following sec max addr)
            (grow sec max n place (following sec max addr) sectors)
        → Ring g sec max addr (grow sec max n place addr (nodes ∷ sectors))
    unfolding Ring grow
    grow-before t addr nodes sectors total on holds inside rest later grown =
        let (u, p, q, r, on', b, b') =
          place_later (t + sec) (following sec max addr) sectors total
            (following-On start sec max t addr low (omega arith) (omega arith) inside on) rest
            later in
        let apart : (addr + sec ≤ place) ⊎ (place + sec ≤ addr) = omega arith in
        let ne : (addr == place) ≡ false = ground arith in
        rw ne (
          Holds-congr f g sec addr nodes wide (λ x p q. outside x (omega arith)) holds,
          inside,
          grown,
        )

    pub grow-Ring :
        (t addr : ℕ) (sectors : List (List Node))
        → t + length sectors * sec ≤ max
        → On start max t addr
        → Ring f sec max addr sectors
        → Place f sec max (size n) sectors addr place end
        → Ring g sec max addr (grow sec max n place addr sectors)
    unfolding Ring Place
    grow-Ring t addr [] total on ring at = absurd at
    grow-Ring t addr ([] ∷ sectors) total on (holds, inside, rest) (other, later) =
        let rounds : length ([] ∷ sectors) * sec ≡ sec + length sectors * sec = omega arith in
        grow-before t addr [] sectors (omega arith) on holds inside rest later (
          grow-Ring (t + sec) (following sec max addr) sectors (omega arith)
            (following-On start sec max t addr low (omega arith) (omega arith) inside on) rest
            later)
    grow-Ring t addr ((m ∷ nodes) ∷ sectors) total on (holds, inside, rest) (inr (other, later)) =
        let rounds : length ((m ∷ nodes) ∷ sectors) * sec ≡ sec + length sectors * sec =
          omega arith in
        grow-before t addr (m ∷ nodes) sectors (omega arith) on holds inside rest later (
          grow-Ring (t + sec) (following sec max addr) sectors (omega arith)
            (following-On start sec max t addr low (omega arith) (omega arith) inside on) rest
            later)
    grow-Ring t addr ((m ∷ nodes) ∷ sectors) total on (holds, inside, rest) (inl (here, room)) =
        let rounds : length ((m ∷ nodes) ∷ sectors) * sec ≡ sec + length sectors * sec =
          omega arith in
        let b = Nodes-bounds f (addr + 16) (m ∷ nodes) end room.stored in
        let fit = room.room in
        let yes' : (addr == place) ≡ true = ground arith in
        let holds' = subst (λ a. Holds f sec a (m ∷ nodes)) here holds in
        let room' = subst (λ a. Room f sec (size n) a m nodes end) here room in
        let grown = place-Holds m nodes holds' room' in
        let apart =
          sectors-Apart f start sec max place t (t + sec) (following sec max addr) sectors low
            (omega arith) (omega arith) (omega arith) (omega arith) (subst (On start max t) here on)
            (following-On start sec max t addr low (omega arith) (omega arith) inside on) rest in
        unfold grow in
        rw yes' (
          subst (λ a. Holds g sec a ((m ∷ nodes) ++ n ∷ [])) (sym here) grown,
          inside,
          Ring-congr f g sec max place (following sec max addr) sectors wide
              (λ x o. outside x (omega arith)) apart rest,
        )
