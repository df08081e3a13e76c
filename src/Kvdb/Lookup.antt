-- ===== src/Kvdb/Lookup.antt =====
-- kvdb.rs: the key-value pairs that a sector holds, as a list of its nodes.
pub mod Next
pub mod Sector
pub mod Rule
pub mod Ring
pub mod Measure
pub mod Place
pub mod Allocate
pub mod Grow
pub mod Grown
pub mod Circle
pub mod Set
pub mod Live
pub mod Iter
pub mod After
pub mod Collect
pub mod Agree
pub mod Tests
use flash_db_rust.Base.{
  ℕ, ◌+◌, ◌*◌, ◌≤◌, ◌<◌, ◌≡◌, refl, Bool, true, false, Option, none, some, List, [], ◌∷◌, ◌++◌,
  ◌&&◌, arith, length, eq_bytes, ◌==◌, if◌then◌else◌,
}
use flash_db_rust.Def.KvStatus
use flash_db_rust.Status.{get_status}
use flash_db_rust.Kvdb.Create.Node.{IsNode}

-- A node: the number of its state, its key and its value.
pub record Node : Type 0 where
  pub state : ℕ
  pub key : List ℕ
  pub value : List ℕ

abbrev pub size : Node → ℕ
size n = 24 + length n.key + length n.value

-- The value of a key: that of the first valid node with the key.
unfoldable pub lookup : List ℕ → List Node → Option (List ℕ)
lookup key [] = none
lookup key (n ∷ nodes) =
    if n.state == 2 && eq_bytes n.key key then some n.value else lookup key nodes

pub lookup-append :
    (key : List ℕ) (xs ys : List Node)
    → lookup key (xs ++ ys) ≡ elim (lookup key xs) [ some v ↦ some v | none ↦ lookup key ys ]
unfolding lookup
lookup-append key [] ys = refl
lookup-append key (n ∷ xs) ys = ground (arith, lookup-append key xs ys)

-- Nodes that follow each other from `addr` to `end`.
unfoldable pub Nodes : (ℕ → ℕ) → ℕ → List Node → ℕ → Type 0
Nodes f addr [] end = end ≡ addr
Nodes f addr (n ∷ nodes) end =
    (get_status (f addr ∷ []) 6 ≡ n.state)
    × (length n.key ≤ 63)
    × IsNode f addr n.key n.value
    × Nodes f (addr + size n) nodes end

pub Nodes-bounds :
    (f : ℕ → ℕ) (addr : ℕ) (nodes : List Node) (end : ℕ) → Nodes f addr nodes end → addr ≤ end
unfolding Nodes
Nodes-bounds f addr [] end h = omega arith
Nodes-bounds f addr (n ∷ nodes) end (s, k, node, rest) =
    let b = Nodes-bounds f (addr + size n) nodes end rest in omega arith

pub Nodes-length :
    (f : ℕ → ℕ) (addr : ℕ) (nodes : List Node) (end : ℕ)
    → Nodes f addr nodes end
    → addr + 24 * length nodes ≤ end
unfolding Nodes
Nodes-length f addr [] end h = omega arith
Nodes-length f addr (n ∷ nodes) end (s, k, node, rest) =
    let b = Nodes-length f (addr + size n) nodes end rest in omega arith
