-- ===== src/Storage/Files/Names.antt =====
-- storage.rs: the names of the sector files, `<name>.fdb.<index>`, as lists of characters.
use flash_db_rust.Base.{
  ℕ, zero, suc, ◌+◌, ◌-◌, ◌*◌, ◌/◌, ◌%◌, ◌<◌, ◌≢◌, ◌≡◌, refl, ap, ◌∙◌, sym, List, [], ◌∷◌, ◌++◌,
  arith, take, length-append, ltb, if◌then◌else◌,
}
use flash_db_rust.Storage.Files.System.{HasNoSlash, IsPlain}

abbrev pub db_name_max : ℕ
db_name_max = 8

-- `{index}` in a format string: the decimal digits, as characters
unfoldable pub decimal : ℕ → ℕ → List ℕ
decimal zero n = []
decimal (suc fuel) n =
    let front = decimal fuel (n / 10) in
    let digit = 48 + n % 10 in if ltb n 10 then digit ∷ [] else front ++ digit ∷ []

-- `format!("{truncated}.fdb.{index}")`
unfoldable pub file_name : List ℕ → ℕ → List ℕ
unfolding decimal
file_name name index =
    take db_name_max name ++ (46 ∷ 102 ∷ 100 ∷ 98 ∷ 46 ∷ decimal (suc index) index)

-- The number that digits are read as.
value : ℕ → List ℕ → ℕ
value n [] = n
value n (c ∷ digits) = value (10 * n + (c - 48)) digits

value-append : (n : ℕ) (xs ys : List ℕ) → value n (xs ++ ys) ≡ value (value n xs) ys
unfolding value
value-append n [] ys = refl
value-append n (c ∷ xs) ys = value-append (10 * n + (c - 48)) xs ys

value-decimal : (fuel n : ℕ) → n < fuel → value 0 (decimal fuel n) ≡ n
unfolding value decimal
value-decimal zero n h = absurd (omega arith)
value-decimal (suc fuel) n h = ground (
  arith,
  value-decimal fuel (n / 10),
  value-append 0 (decimal fuel (n / 10)) ((48 + n % 10) ∷ []),
)

pub append_cancel : (xs ys zs : List ℕ) → xs ++ ys ≡ xs ++ zs → ys ≡ zs
append_cancel [] ys zs e = e
append_cancel (x ∷ xs) ys zs e = append_cancel xs ys zs (cc e)

take-HasNoSlash : (n : ℕ) (name : List ℕ) → HasNoSlash name → HasNoSlash (take n name)
unfolding HasNoSlash
take-HasNoSlash zero name h = tt
take-HasNoSlash (suc n) [] h = tt
take-HasNoSlash (suc n) (c ∷ name) (h, rest) = (h, take-HasNoSlash n name rest)

append-HasNoSlash : (xs ys : List ℕ) → HasNoSlash xs → HasNoSlash ys → HasNoSlash (xs ++ ys)
unfolding HasNoSlash
append-HasNoSlash [] ys h k = k
append-HasNoSlash (c ∷ xs) ys (h, rest) k = (h, append-HasNoSlash xs ys rest k)

decimal-HasNoSlash : (fuel n : ℕ) → HasNoSlash (decimal fuel n)
unfolding HasNoSlash decimal
decimal-HasNoSlash zero n = tt
decimal-HasNoSlash (suc fuel) n =
    let digit : (48 + n % 10) ≢ 47 = omega arith in
    ground (
      arith,
      append-HasNoSlash (decimal fuel (n / 10)) ((48 + n % 10) ∷ [])
          (decimal-HasNoSlash fuel (n / 10)) (digit, tt),
    )

pub file_name-IsPlain :
    (name : List ℕ) (index : ℕ) → HasNoSlash name → IsPlain (file_name name index)
unfolding file_name HasNoSlash
file_name-IsPlain name index h = (
  omega (
    arith,
    length-append (take db_name_max name) (46 ∷ 102 ∷ 100 ∷ 98 ∷ 46 ∷ decimal (suc index) index),
  ),
  append-HasNoSlash (take db_name_max name) _ (take-HasNoSlash db_name_max name h) (
    omega arith,
    (
      omega arith,
      (omega arith, (omega arith, (omega arith, decimal-HasNoSlash (suc index) index))),
    ),
  ),
)

-- Sectors that differ have files whose names differ.
pub file_name_inj : (name : List ℕ) (i j : ℕ) → file_name name i ≡ file_name name j → i ≡ j
unfolding file_name
file_name_inj name i j e =
    let digits : decimal (suc i) i ≡ decimal (suc j) j =
      append_cancel (46 ∷ 102 ∷ 100 ∷ 98 ∷ 46 ∷ []) _ _
        (append_cancel (take db_name_max name) _ _ e) in
    sym (value-decimal (suc i) i (omega arith))
    ∙ ap (value 0) digits
    ∙ value-decimal (suc j) j (omega arith)
