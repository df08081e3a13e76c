-- ===== src/Status/Laws.antt =====
-- Encoding and decoding of status tables, and the order in which flash may program them.
use flash_db_rust.Base.{
  ℕ, zero, suc, ◌+◌, ◌≤◌, ◌<◌, ◌≡◌, refl, Bool, true, List, [], ◌∷◌, bit_and, get_or, ltb, ◌||◌,
  ◌==◌, if◌then◌else◌, ◌-◌, ◌*◌, ◌/◌, drop, some, none, arith, all_below, all_below_sound,
}
use flash_db_rust.Status.{set_status, get_status}

-- The first byte of the table for state `i` of `n`; the tables of this crate have no other.
unfoldable pub status_byte : ℕ → ℕ → ℕ
unfolding set_status
status_byte n i = get_or (set_status [] n i).1 0 0

decodes : List ℕ → ℕ → ℕ → Bool
unfolding set_status get_status
decodes table n i = ltb n i || get_status (set_status table (n + 1) i).1 (n + 1) == i

decode_nil : all_below 8 (λ n. all_below 8 (decodes [] n)) ≡ true
unfolding all_below decodes
decode_nil = refl

decode_cons : (b : ℕ) (rest : List ℕ) → all_below 8 (λ n. all_below 8 (decodes (b ∷ rest) n)) ≡ true
unfolding all_below decodes
decode_cons b rest = refl

decode_all : (table : List ℕ) → all_below 8 (λ n. all_below 8 (decodes table n)) ≡ true
decode_all [] = decode_nil
decode_all (b ∷ rest) = decode_cons b rest

-- Whatever the table held, each of at most eight states is read back after it was set.
pub get_status-set_status :
    (table : List ℕ) (n i : ℕ) → n ≤ 8 → i < n → get_status (set_status table n i).1 n ≡ i
get_status-set_status table zero i p q = absurd (omega arith)
get_status-set_status table (suc n) i p q =
    let row = all_below_sound 8 _ n (decode_all table) (omega arith) in
    let entry : decodes table n i ≡ true = all_below_sound 8 _ i row (omega arith) in
    let e : n + 1 ≡ suc n = omega arith in rw (← e) (unfold decodes in ground arith)

narrows : ℕ → ℕ → ℕ → Bool
unfolding status_byte
narrows n i j =
    ltb j i || bit_and (status_byte (n + 1) i) (status_byte (n + 1) j) == status_byte (n + 1) j

narrow_table : all_below 8 (λ n. all_below 8 (λ i. all_below 8 (narrows n i))) ≡ true
unfolding all_below narrows
narrow_table = refl

-- A later state has no bit that an earlier one has lost, so flash can program it without erasing.
pub status_byte-subset :
    (n i j : ℕ)
    → n ≤ 8
    → i ≤ j
    → j < n
    → bit_and (status_byte n i) (status_byte n j) ≡ status_byte n j
status_byte-subset zero i j p q r = absurd (omega arith)
status_byte-subset (suc n) i j p q r =
    let plane = all_below_sound 8 _ n narrow_table (omega arith) in
    let row = all_below_sound 8 _ i plane (omega arith) in
    let entry : narrows n i j ≡ true = all_below_sound 8 _ j row (omega arith) in
    let e : n + 1 ≡ suc n = omega arith in rw (← e) (unfold narrows in ground arith)

-- What setting a state leaves in a table, for the tables of one byte.
pub set_status_small :
    (table : List ℕ) (n i : ℕ)
    → 1 ≤ n
    → n ≤ 8
    → i < n
    → set_status table n i ≡ (if ltb 0 i then some 0 else none, status_byte n i ∷ drop 1 table)
unfolding status_byte
set_status_small table n i p q r =
    let size : (n * 1 + 7) / 8 ≡ 1 = omega arith in
    let byte_index : (i - 1) / 8 ≡ 0 = omega arith in rw (size, byte_index) (ground arith)
