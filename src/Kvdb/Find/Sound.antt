-- ===== src/Kvdb/Find/Sound.antt =====
-- What `find_kv` finds is a valid node that holds the key.
use flash_db_rust.Base.{
  ℕ, ◌≡◌, refl, Bool, true, false, List, [], ◌∷◌, pure, length, take, eq_bytes, arith,
  branch_either,
}
use flash_db_rust.Def.KvStatus
use flash_db_rust.Def.KvStatus.{KvStatus}
use flash_db_rust.Storage.{Storage}
use flash_db_rust.Kvdb.Types.{Kv, Kvdb}
use flash_db_rust.Kvdb.Record.{read_kv}
use flash_db_rust.Kvdb.Walk.{Visit}
use flash_db_rust.Kvdb.Walk.Rules.{walk_sectors_inv, walk_kvs_stopped}
use flash_db_rust.Kvdb.Find.{matches, find_visit, find_kv}

never : {A : Type 0} → false ≡ true → A
never h = absurd (ground arith)

eq_bytes_sound : (xs ys : List ℕ) → eq_bytes xs ys ≡ true → xs ≡ ys
unfolding eq_bytes
eq_bytes_sound [] [] h = refl
eq_bytes_sound [] (y ∷ ys) h = absurd (ground arith)
eq_bytes_sound (x ∷ xs) [] h = absurd (ground arith)
eq_bytes_sound (x ∷ xs) (y ∷ ys) h =
    let e : x ≡ y = ground arith in let rest = eq_bytes_sound xs ys (ground arith) in cc

matches-parts :
    (key : List ℕ) (got : Kv)
    → matches key got ≡ true
    → (got.crc_is_ok ≡ true)
      × (KvStatus.eq got.status KvStatus.write ≡ true)
      × (got.name_len ≡ length key)
      × (take got.name_len got.name ≡ key)
unfolding matches
matches-parts key got h = (
  ground arith,
  ground arith,
  ground arith,
  eq_bytes_sound (take got.name_len got.name) key (ground arith),
)

module _ {S : Type 0} (st : Storage S) (key : List ℕ) (Q : Kv → Type 0)
    (read : (kv : Kv) (db : Kvdb S)
      → matches key (read_kv st kv db).0.1 ≡ true
      → Q (read_kv st kv db).0.1) where
  find_visit_found :
      (addr : ℕ) (acc : Bool × Kv) (db : Kvdb S)
      → let (found, kv) = (find_visit st key addr acc db).0.acc in found ≡ true → Q kv
  unfolding find_visit
  find_visit_found addr acc db =
      branch_either (λ (t : Visit (Bool × Kv) × Kvdb S). t.0.acc.0 ≡ true → Q t.0.acc.1) _ _
        (λ _.
          walk_kvs_stopped st (λ _ kv (_ : Unit {0}). pure (matches key kv, tt)) (λ kv _. Q kv)
            (λ kv _ db'. read kv db') _ _ _ _)
        λ _ h. never h

  pub find_kv_found :
      (kv : Kv) (db : Kvdb S) → let (found, got) = (find_kv st key kv db).0 in found ≡ true → Q got
  unfolding find_kv
  find_kv_found kv db =
      walk_sectors_inv (find_visit st key) (λ t. t.0 ≡ true → Q t.1)
        (λ addr acc db' _. find_visit_found addr acc db') db.oldest_addr (false, kv) db (λ h. cc)

-- A node that is found has a good checksum and the state that makes it valid, and its name is the
-- key.
pub find_kv-matches :
    {S : Type 0} (st : Storage S) (key : List ℕ) (kv : Kv) (db : Kvdb S)
    → (find_kv st key kv db).0.0 ≡ true
    → let got = (find_kv st key kv db).0.1 in
      (got.crc_is_ok ≡ true)
      × (KvStatus.eq got.status KvStatus.write ≡ true)
      × (got.name_len ≡ length key)
      × (take got.name_len got.name ≡ key)
find_kv-matches st key kv db h =
    matches-parts key _ (find_kv_found st key (λ kv. matches key kv ≡ true) (λ kv db h. h) kv db h)
