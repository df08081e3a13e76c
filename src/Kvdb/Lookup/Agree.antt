-- ===== src/Kvdb/Lookup/Agree.antt =====
-- kvdb.rs: `get_vec` and `iter_collect` show the same pairs.
use flash_db_rust.Base.{
  ℕ, ◌≡◌, refl, ◌∙◌, sym, ap, true, Option, none, some, List, [], ◌∷◌, eq_bytes, ◌==◌,
  if◌then◌else◌, Bool-cases, inl, inr,
}
use flash_db_rust.Storage.{Storage}
use flash_db_rust.Storage.Laws.{IsByteArray}
use flash_db_rust.Kvdb.Types.{Kvdb}
use flash_db_rust.Kvdb.Api.{get_vec}
use flash_db_rust.Kvdb.Iter.{iter_collect}
use flash_db_rust.Kvdb.Lookup.{Node, lookup}
use flash_db_rust.Kvdb.Lookup.Rule.{concat}
use flash_db_rust.Kvdb.Lookup.Ring.{IsRing, get_vec-lookup}
use flash_db_rust.Kvdb.Lookup.Live.{live}
use flash_db_rust.Kvdb.Lookup.Collect.{entries, pairs, iter_collect-live}

-- The value of the first pair with the key
unfoldable pub assoc : List ℕ → List (List ℕ × List ℕ) → Option (List ℕ)
assoc key [] = none
assoc key ((name, value) ∷ rest) = if eq_bytes name key then some value else assoc key rest

lookup-live : (key : List ℕ) (nodes : List Node) → lookup key nodes ≡ assoc key (pairs (live nodes))
unfolding lookup assoc live
lookup-live key [] = refl
lookup-live key (n ∷ nodes) = elim (Bool-cases (n.state == 2)) [
  | inl e ↦ rw (e, lookup-live key nodes) refl
  | inr e ↦ rw e (lookup-live key nodes)
]

-- On a byte array, for an open database that `IsRing` describes: its sectors lie inside the
-- medium, have at least 16 bytes, end more than a sector and 32 bytes below 2^32 and are not
-- combined, and each is not in use or holds at least one complete node, with keys of at most 63
-- bytes, one node behind the other and then at least 48 bytes, all erased. `get_vec` then returns
-- the value of the first node with the key in the list that `iter_collect` returns, or nothing
-- where no node of the list has it.
pub get_vec-iter_collect :
    {S : Type 0} (st : Storage S) (arr : IsByteArray st) (key : List ℕ) (db : Kvdb S)
    (sectors : List (List Node))
    → IsRing st arr db sectors
    → db.init_ok ≡ true
    → (get_vec st key db).0 ≡ assoc key (entries (arr.byte db.storage) (iter_collect st db).0)
get_vec-iter_collect st arr key db sectors h opened =
    ap (λ t. t.0) (get_vec-lookup st arr key db sectors h opened)
    ∙ lookup-live key (concat sectors)
    ∙ ap (assoc key) (sym (iter_collect-live st arr db sectors h).1)
