-- ===== src/Kvdb/Find/LongKeys.antt =====
-- A key that fills the name array is cut when its node is read, and so is never found.
use flash_db_rust.Base.{
  ℕ, zero, suc, ◌<◌, ◌≡◌, ◌≢◌, refl, false, List, [], ◌∷◌, Result, arith, length, get_or, set, take,
  eq_bytes, Bool-cases, inl, inr, ◌==◌, sym, ◌∙◌, if_either,
}
use flash_db_rust.Storage.{Storage}
use flash_db_rust.Kvdb.Types.{Kv, Kvdb}
use flash_db_rust.Kvdb.Record.{
  read_name, reject_header, reject_crc, accept_kv, judge_kv, verify_kv, check_kv, read_kv,
}
use flash_db_rust.Kvdb.Find.{matches, find_kv}
use flash_db_rust.Kvdb.Find.Sound.{find_kv_found}

-- A byte that differs inside the prefix makes the prefix differ.
eq_bytes-ne :
    (n i : ℕ) (xs ys : List ℕ)
    → i < n
    → i < length ys
    → get_or xs i 0 ≢ get_or ys i 0
    → eq_bytes (take n xs) ys ≡ false
unfolding eq_bytes
eq_bytes-ne zero i xs ys p q ne = absurd (omega arith)
eq_bytes-ne (suc n) i xs [] p q ne = absurd (omega arith)
eq_bytes-ne (suc n) i [] (y ∷ ys) p q ne = refl
eq_bytes-ne (suc n) zero (x ∷ xs) (y ∷ ys) p q ne = ground arith
eq_bytes-ne (suc n) (suc i) (x ∷ xs) (y ∷ ys) p q ne =
    ground (arith, eq_bytes-ne n i xs ys (omega arith) (omega arith) ne)

get_or-set : (xs : List ℕ) (i : ℕ) → get_or (set xs i 0) i 0 ≡ 0
get_or-set [] i = refl
get_or-set (x ∷ xs) zero = refl
get_or-set (x ∷ xs) (suc i) = get_or-set xs i

module _ {S : Type 0} (st : Storage S) (key : List ℕ) (full : length key ≡ 64)
    (last : get_or key 63 0 ≢ 0) where
  reject_header-matches : (kv : Kv) (db : Kvdb S) → matches key (reject_header st kv db).0.1 ≡ false
  unfolding reject_header matches
  reject_header-matches kv db = refl

  reject_crc-matches :
      (kv : Kv) (hdr : List ℕ) (db : Kvdb S) → matches key (reject_crc st kv hdr db).0.1 ≡ false
  unfolding reject_crc matches
  reject_crc-matches kv hdr db = refl

  accept_kv-matches :
      (kv : Kv) (hdr : List ℕ) (db : Kvdb S) → matches key (accept_kv st kv hdr db).0.1 ≡ false
  unfolding accept_kv matches
  accept_kv-matches kv hdr db = elim (Bool-cases (get_or hdr 16 0 == 64)) [
    | inl e ↦
        let size : get_or hdr 16 0 ≡ 64 = ground arith in
        let name : List ℕ = (read_name st kv 64 db).0 in
        let differs =
          eq_bytes-ne 64 63 (set name 63 0) key (omega arith) (omega arith)
            (λ h. last (sym (sym (get_or-set name 63) ∙ h))) in
        rw (size, differs) (ground arith)
    | inr ne ↦ ground arith
  ]

  verify_kv-matches :
      (kv : Kv) (hdr : List ℕ) (db : Kvdb S) → matches key (verify_kv st kv hdr db).0.1 ≡ false
  unfolding verify_kv judge_kv
  verify_kv-matches kv hdr db =
      if_either (λ (t : (Result (Unit {0}) × Kv) × Kvdb S). matches key t.0.1 ≡ false) _
        (reject_crc st kv hdr) (accept_kv st kv hdr) _ (λ _. reject_crc-matches kv hdr _)
        λ _. accept_kv-matches kv hdr _

  read_kv-matches : (kv : Kv) (db : Kvdb S) → matches key (read_kv st kv db).0.1 ≡ false
  unfolding read_kv check_kv
  read_kv-matches kv db =
      if_either (λ (t : (Result (Unit {0}) × Kv) × Kvdb S). matches key t.0.1 ≡ false) _
        (reject_header st _) (verify_kv st _ _) _ (λ _. reject_header-matches _ _)
        λ _. verify_kv-matches _ _ _

-- Whatever the database holds, a key of 64 bytes whose last byte is not zero is not found.
pub find_kv-full_key :
    {S : Type 0} (st : Storage S) (key : List ℕ)
    → length key ≡ 64
    → get_or key 63 0 ≢ 0
    → (kv : Kv) (db : Kvdb S) → (find_kv st key kv db).0.0 ≡ false
find_kv-full_key st key full last kv db = elim (Bool-cases (find_kv st key kv db).0.0) [
  | inr missed ↦ missed
  | inl found ↦ absurd (
      find_kv_found st key (λ _. ⊥)
        (λ kv db h. let n = read_kv-matches st key full last kv db in ground arith) kv db found)
]
