-- ===== src/Kvdb/Lookup/Grown.antt =====
-- The value of a key among the nodes of a ring that one node more has been written to.
use flash_db_rust.Base.{
  ℕ, ◌≡◌, refl, ◌∙◌, ◌⊎◌, inl, inr, true, false, Bool, none, some, List, [], ◌∷◌, ◌++◌, arith,
  append_assoc, eq_bytes, ◌==◌, if◌then◌else◌,
}
use flash_db_rust.Kvdb.Lookup.{Node, size, lookup}
use flash_db_rust.Kvdb.Lookup.Rule.{concat, following}
use flash_db_rust.Kvdb.Lookup.Place.{Place}
use flash_db_rust.Kvdb.Lookup.Grow.{grow}

if_cases :
    {A : Type 0} (P : A → Type 0) (b : Bool) (x y : A)
    → (b ≡ true → P x)
    → (b ≡ false → P y)
    → P (if b then x else y)
if_cases P true x y h k = h refl
if_cases P false x y h k = k refl

-- One more node in the middle
module _ (key : List ℕ) (n : Node) where
  lookup-middle_ne :
      (xs ys : List Node)
      → eq_bytes n.key key ≡ false
      → lookup key (xs ++ n ∷ ys) ≡ lookup key (xs ++ ys)
  unfolding lookup
  lookup-middle_ne [] ys ne = ground arith
  lookup-middle_ne (m ∷ xs) ys ne = ground (arith, lookup-middle_ne xs ys ne)

  lookup-middle_eq :
      (xs ys : List Node)
      → n.state ≡ 2
      → eq_bytes n.key key ≡ true
      → lookup key (xs ++ ys) ≡ none
      → lookup key (xs ++ n ∷ ys) ≡ some n.value
  unfolding lookup
  lookup-middle_eq [] ys valid e gone = ground arith
  lookup-middle_eq (m ∷ xs) ys valid e gone = ground (arith, lookup-middle_eq xs ys valid e)

  lookup_congr :
      (xs ys zs : List Node)
      → lookup key ys ≡ lookup key zs
      → lookup key (xs ++ ys) ≡ lookup key (xs ++ zs)
  unfolding lookup
  lookup_congr [] ys zs e = e
  lookup_congr (m ∷ xs) ys zs e = ground (arith, lookup_congr xs ys zs e)

  lookup_prefix_none :
      (xs ys zs : List Node)
      → lookup key (xs ++ ys) ≡ none
      → (lookup key ys ≡ none) × (lookup key (xs ++ zs) ≡ lookup key zs)
  unfolding lookup
  lookup_prefix_none [] ys zs gone = (gone, refl)
  lookup_prefix_none (m ∷ xs) ys zs gone = ground (arith, lookup_prefix_none xs ys zs)

-- What is looked up afterwards: for the other keys what was there, and the new value for its key.
pub lookup-grow_ne :
    (key : List ℕ) (n : Node) (sec max place addr : ℕ) (sectors : List (List Node))
    → eq_bytes n.key key ≡ false
    → lookup key (concat (grow sec max n place addr sectors)) ≡ lookup key (concat sectors)
unfolding grow
lookup-grow_ne key n sec max place addr [] ne = refl
lookup-grow_ne key n sec max place addr (nodes ∷ sectors) ne =
    let rest = lookup-grow_ne key n sec max place (following sec max addr) sectors ne in
    if_cases
      (λ (s : List (List Node)). lookup key (concat s) ≡ lookup key (nodes ++ concat sectors))
      (addr == place) ((nodes ++ n ∷ []) ∷ sectors)
      (nodes ∷ grow sec max n place (following sec max addr) sectors)
      (λ e. rw append_assoc (lookup-middle_ne key n nodes (concat sectors) ne))
      λ e. lookup_congr key n nodes _ _ rest

Place-tail :
    (f : ℕ → ℕ) (sec max size place end addr : ℕ) (nodes : List Node) (sectors : List (List Node))
    → Place f sec max size (nodes ∷ sectors) addr place end
    → (addr ≡ place) ⊎ Place f sec max size sectors (following sec max addr) place end
unfolding Place
Place-tail f sec max size place end addr [] sectors (other, later) = inr later
Place-tail f sec max size place end addr (m ∷ nodes) sectors (inl (here, r)) = inl here
Place-tail f sec max size place end addr (m ∷ nodes) sectors (inr (other, later)) = inr later

pub lookup-grow_eq :
    (key : List ℕ) (n : Node) (f : ℕ → ℕ) (sec max len place end addr : ℕ)
    (sectors : List (List Node))
    → n.state ≡ 2
    → eq_bytes n.key key ≡ true
    → Place f sec max len sectors addr place end
    → lookup key (concat sectors) ≡ none
    → lookup key (concat (grow sec max n place addr sectors)) ≡ some n.value
unfolding grow
lookup-grow_eq key n f sec max len place end addr [] valid e at gone = unfold Place in absurd at
lookup-grow_eq key n f sec max len place end addr (nodes ∷ sectors) valid e at gone =
    let later = grow sec max n place (following sec max addr) sectors in
    let (gone', skip) = lookup_prefix_none key n nodes (concat sectors) (concat later) gone in
    if_cases (λ (s : List (List Node)). lookup key (concat s) ≡ some n.value) (addr == place)
      ((nodes ++ n ∷ []) ∷ sectors) (nodes ∷ later)
      (λ here. rw append_assoc (lookup-middle_eq key n nodes (concat sectors) valid e gone))
      λ not_here. elim (Place-tail f sec max len place end addr nodes sectors at) [
        | inl here ↦ absurd (ground arith)
        | inr rest ↦
            skip
            ∙ lookup-grow_eq key n f sec max len place end (following sec max addr) sectors valid e
                rest gone'
      ]
