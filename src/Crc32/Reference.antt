-- ===== src/Crc32/Reference.antt =====
-- CRC-32 bit by bit, as the polynomial defines it, against the table of crc32.rs.
pub mod Detect
use native.Mathlib.Nat.{pow-suc}
use flash_db_rust.Base.{
  ℕ, zero, suc, ◌*◌, ◌/◌, ◌%◌, ◌^◌, ◌<◌, List, [], ◌∷◌, ◌++◌, bit_and, bit_xor, ◌≡◌, refl, ap, true,
  ◌∙◌, arith, get_or, ltb, ◌==◌, if◌then◌else◌, all_below, all_below_sound, ==_iff, ltb→lt,
}
use flash_db_rust.Base.Bits.{
  xor_half, xor_parity, xor_swap, xor_fields, xor_shift_byte, xor_cancel, xor-lt, and_low_byte,
}
use flash_db_rust.Crc32.{crc32_table, crc_step, crc_loop, calc_crc32}

-- One bit of the reflected division by the polynomial 0xEDB88320.
shift_bit : ℕ → ℕ
shift_bit x = if x % 2 == 1 then bit_xor (x / 2) 0xedb8_8320 else x / 2

shift_bits : ℕ → ℕ → ℕ
unfolding shift_bit
shift_bits zero x = x
shift_bits (suc k) x = shift_bits k (shift_bit x)

-- The register after the bytes of `buf`, one bit at a time.
pub bitwise_loop : ℕ → List ℕ → ℕ
unfolding shift_bits
bitwise_loop crc [] = crc
bitwise_loop crc (b ∷ buf) = bitwise_loop (shift_bits 8 (bit_xor crc b)) buf

pub bitwise_crc32 : ℕ → List ℕ → ℕ
unfolding bitwise_loop
bitwise_crc32 crc buf = bit_xor (bitwise_loop (bit_xor crc 0xffff_ffff) buf) 0xffff_ffff

-- An even summand goes through a bit step unchanged but for the shift.
shift_bit-xor : (x c : ℕ) → shift_bit (bit_xor x (2 * c)) ≡ bit_xor (shift_bit x) c
unfolding shift_bit
shift_bit-xor x c =
    let even : 2 * c / 2 ≡ c = omega arith in
    let half : bit_xor x (2 * c) / 2 ≡ bit_xor (x / 2) c =
      xor_half x (2 * c) ∙ ap (bit_xor (x / 2)) even in
    ground (arith, half, xor_parity x (2 * c), xor_swap (x / 2) c 0xedb8_8320)

shift_bits-xor : (k x c : ℕ) → shift_bits k (bit_xor x (2 ^ k * c)) ≡ bit_xor (shift_bits k x) c
unfolding shift_bits
shift_bits-xor zero x c = ap (bit_xor x) (omega arith)
shift_bits-xor (suc k) x c =
    let pow : 2 ^ suc k * c ≡ 2 * (2 ^ k * c) = rw pow-suc (grind arith) in
    rw (pow, shift_bit-xor) (shift_bits-xor k (shift_bit x) c)

-- Entry `i` of the table is eight bit steps from `i`.
table_entries : all_below 256 (λ i. get_or crc32_table i 0 == shift_bits 8 i) ≡ true
unfolding all_below shift_bits
table_entries = refl

table_entry : (i : ℕ) → i < 256 → get_or crc32_table i 0 ≡ shift_bits 8 i
table_entry i h = (==_iff _ _).0 (all_below_sound 256 _ i table_entries h)

-- One step of the table loop is eight bit steps.
byte_step : (crc b : ℕ) → b < 256 → crc_step crc b ≡ shift_bits 8 (bit_xor crc b)
byte_step crc b h =
    let y : ℕ = bit_xor crc b in
    let split : bit_xor (y % 256) (2 ^ 8 * (y / 256)) ≡ y =
      xor_fields 8 (y % 256) (y / 256) (omega arith) ∙ omega arith in
    cc (
      and_low_byte y,
      table_entry (y % 256) (omega arith),
      xor_shift_byte crc b h,
      shift_bits-xor 8 (y % 256) (y / 256),
      split,
    )

abbrev pub IsBytes : List ℕ → Type 0
IsBytes [] = Unit
IsBytes (b ∷ bs) = (b < 256) × IsBytes bs

crc_loop-bitwise : (crc : ℕ) (buf : List ℕ) → IsBytes buf → crc_loop crc buf ≡ bitwise_loop crc buf
unfolding crc_loop bitwise_loop
crc_loop-bitwise crc [] h = refl
crc_loop-bitwise crc (b ∷ buf) h =
    rw (byte_step crc b h.0) (crc_loop-bitwise (shift_bits 8 (bit_xor crc b)) buf h.1)

-- On every byte string and start value the table-driven CRC is the bit-by-bit CRC of the
-- reflected polynomial 0xEDB88320.
pub calc_crc32-bitwise :
    (crc : ℕ) (buf : List ℕ) → IsBytes buf → calc_crc32 crc buf ≡ bitwise_crc32 crc buf
unfolding calc_crc32 bitwise_crc32
calc_crc32-bitwise crc buf h = rw (crc_loop-bitwise (bit_xor crc 0xffff_ffff) buf h)

crc_loop-append :
    (crc : ℕ) (xs ys : List ℕ) → crc_loop crc (xs ++ ys) ≡ crc_loop (crc_loop crc xs) ys
unfolding crc_loop
crc_loop-append crc [] ys = refl
crc_loop-append crc (x ∷ xs) ys = crc_loop-append (crc_step crc x) xs ys

-- The CRC of a string may be computed piece by piece, passing on the value so far.
pub calc_crc32-append :
    (crc : ℕ) (xs ys : List ℕ) → calc_crc32 crc (xs ++ ys) ≡ calc_crc32 (calc_crc32 crc xs) ys
unfolding calc_crc32
calc_crc32-append crc xs ys = rw (xor_cancel, crc_loop-append)

table_words : all_below 256 (λ i. ltb (get_or crc32_table i 0) (2 ^ 32)) ≡ true
unfolding all_below
table_words = refl

crc_loop-lt : (crc : ℕ) (buf : List ℕ) → crc < 2 ^ 32 → crc_loop crc buf < 2 ^ 32
unfolding crc_loop
crc_loop-lt crc [] h = h
crc_loop-lt crc (b ∷ buf) h = crc_loop-lt (crc_step crc b) buf (xor-lt 32 _ _ entry (omega arith))
  where
    entry : get_or crc32_table (bit_and (bit_xor crc b) 0xff) 0 < 2 ^ 32
    entry = rw and_low_byte (
        ltb→lt _ _ (
          all_below_sound 256 (λ i. ltb (get_or crc32_table i 0) (2 ^ 32)) (bit_xor crc b % 256)
            table_words (omega arith)))

-- The result is a `u32` if the start value is one.
pub calc_crc32-lt : (crc : ℕ) (buf : List ℕ) → crc < 2 ^ 32 → calc_crc32 crc buf < 2 ^ 32
unfolding calc_crc32
calc_crc32-lt crc buf h =
    xor-lt 32 _ _ (crc_loop-lt _ buf (xor-lt 32 crc 0xffff_ffff h (omega arith))) (omega arith)
