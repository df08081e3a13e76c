-- ===== src/Kvdb/Lookup/Circle.antt =====
-- kvdb.rs: the sectors of a ring lie apart, so a change of one leaves the others as they are.
use flash_db_rust.Base.{
  ℕ, ◌+◌, ◌*◌, ◌≤◌, ◌<◌, ◌≡◌, ◌∙◌, sym, ap, ◌⊎◌, List, [], ◌∷◌, arith, length, Result,
}
use flash_db_rust.Status.{get_status}
use flash_db_rust.Storage.Bytes.{slice_congr}
use flash_db_rust.Kvdb.Types.{KvSecInfo, blank_sector}
use flash_db_rust.Kvdb.Sector.{decode_sector}
use flash_db_rust.Kvdb.Create.Node.{IsNode}
use flash_db_rust.Kvdb.Lookup.{Node, size, Nodes, Nodes-bounds}
use flash_db_rust.Kvdb.Lookup.Rule.{Holds, Ring, header, is_used, following}

-- Sectors that lie apart from the one at `place`
unfoldable pub Apart : ℕ → ℕ → ℕ → ℕ → List (List Node) → Type 0
Apart sec max place addr [] = Unit
Apart sec max place addr (nodes ∷ sectors) =
    ((addr + sec ≤ place) ⊎ (place + sec ≤ addr))
    × Apart sec max place (following sec max addr) sectors

module _ (f g : ℕ → ℕ) where
  IsNode-congr :
      (addr : ℕ) (key value : List ℕ)
      → ((x : ℕ) → addr ≤ x → x < addr + 24 + length key + length value → f x ≡ g x)
      → IsNode f addr key value
      → IsNode g addr key value
  IsNode-congr addr key value same node = record {
    header =
        slice_congr g f (addr + 4) 20 (λ x p q. sym (same x (omega arith) (omega arith)))
        ∙ node.header;
    name =
        slice_congr g f (addr + 24) (length key) (λ x p q. sym (same x (omega arith) (omega arith)))
        ∙ node.name;
    content =
        slice_congr g f (addr + 24 + length key) (length value)
          (λ x p q. sym (same x (omega arith) (omega arith)))
        ∙ node.content;
  }

  -- A medium that agrees on the nodes holds them.
  pub Nodes_congr :
      (addr : ℕ) (nodes : List Node) (end : ℕ)
      → ((x : ℕ) → addr ≤ x → x < end → f x ≡ g x)
      → Nodes f addr nodes end
      → Nodes g addr nodes end
  unfolding Nodes
  Nodes_congr addr [] end same h = h
  Nodes_congr addr (n ∷ nodes) end same (state, short, node, rest) =
      let b = Nodes-bounds f (addr + size n) nodes end rest in
      (
        ap (λ v. get_status (v ∷ []) 6) (sym (same addr (omega arith) (omega arith))) ∙ state,
        short,
        IsNode-congr addr n.key n.value (λ x p q. same x p (omega arith)) node,
        Nodes_congr (addr + size n) nodes end (λ x p q. same x (omega arith) q) rest,
      )

  pub header_congr :
      (addr : ℕ) → ((x : ℕ) → addr ≤ x → x < addr + 16 → f x ≡ g x) → header f addr ≡ header g addr
  header_congr addr same =
      ap (λ hdr. decode_sector addr hdr blank_sector) (slice_congr f g addr 16 same)

  pub Holds-congr :
      (sec addr : ℕ) (nodes : List Node)
      → 16 ≤ sec
      → ((x : ℕ) → addr ≤ x → x < addr + sec → f x ≡ g x)
      → Holds f sec addr nodes
      → Holds g sec addr nodes
  unfolding Holds
  Holds-congr sec addr [] wide same (combined, idle) =
      let e = sym (header_congr addr (λ x p q. same x p (omega arith))) in
      (ap (λ (t : Result (Unit {0}) × KvSecInfo). t.1.combined) e ∙ combined, ap is_used e ∙ idle)
  Holds-congr sec addr (n ∷ nodes) wide same (combined, busy, (end, stored, tail, erased)) =
      let e = sym (header_congr addr (λ x p q. same x p (omega arith))) in
      (
        ap (λ (t : Result (Unit {0}) × KvSecInfo). t.1.combined) e ∙ combined,
        ap is_used e ∙ busy,
        (
          end,
          Nodes_congr (addr + 16) (n ∷ nodes) end (λ x p q. same x (omega arith) (omega arith))
              stored,
          tail,
          λ x p q.
              sym (same x (omega (arith, Nodes-bounds f (addr + 16) (n ∷ nodes) end stored)) q)
              ∙ erased x p q,
        ),
      )

  pub Ring-congr :
      (sec max place addr : ℕ) (sectors : List (List Node))
      → 16 ≤ sec
      → ((x : ℕ) → (x < place) ⊎ (place + sec ≤ x) → f x ≡ g x)
      → Apart sec max place addr sectors
      → Ring f sec max addr sectors
      → Ring g sec max addr sectors
  unfolding Ring Apart
  Ring-congr sec max place addr [] wide same apart h = h
  Ring-congr sec max place addr (nodes ∷ sectors) wide same (here, apart) (holds, inside, rest) = (
    Holds-congr sec addr nodes wide (λ x p q. same x (omega arith)) holds,
    inside,
    Ring-congr sec max place (following sec max addr) sectors wide same apart rest,
  )

-- The address that is `t` bytes behind `start` on the circle
abbrev pub On : ℕ → ℕ → ℕ → ℕ → Type 0
On start max t addr = (addr ≡ start + t) ⊎ (addr + max ≡ start + t)

pub following-On :
    (start sec max t addr : ℕ)
    → start < max
    → 0 < sec
    → t + sec ≤ max
    → addr + sec ≤ max
    → On start max t addr
    → On start max (t + sec) (following sec max addr)
following-On start sec max t addr low pos inside fits h = ground arith

pub sectors-Apart :
    (f : ℕ → ℕ) (start sec max place t u addr : ℕ) (sectors : List (List Node))
    → start < max
    → 0 < sec
    → place + sec ≤ max
    → t + sec ≤ u
    → u + length sectors * sec ≤ max
    → On start max t place
    → On start max u addr
    → Ring f sec max addr sectors
    → Apart sec max place addr sectors
unfolding Apart Ring
sectors-Apart f start sec max place t u addr [] low pos fits later total p q ring = tt
sectors-Apart f start sec max place t u addr (nodes ∷ sectors) low pos fits later total p q
      (holds, inside, rest) =
    let rounds : length (nodes ∷ sectors) * sec ≡ sec + length sectors * sec = omega arith in
    (
      omega arith,
      sectors-Apart f start sec max place t (u + sec) (following sec max addr) sectors low pos fits
          (omega arith) (omega arith) p
          (following-On start sec max u addr low pos (omega arith) inside q) rest,
    )
