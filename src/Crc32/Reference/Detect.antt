-- ===== src/Crc32/Reference/Detect.antt =====
-- crc32.rs: a change of one byte changes the checksum.
use flash_db_rust.Base.{
  ℕ, zero, suc, ◌*◌, ◌/◌, ◌^◌, ◌≤◌, ◌<◌, List, [], ◌∷◌, ◌++◌, bit_xor, ◌≡◌, ◌≢◌, ap, sym, ◌∙◌,
  arith,
}
use flash_db_rust.Base.Bits.{xor_fields, xor_cancel, xor_comm, xor_assoc, xor-lt}
use flash_db_rust.Crc32.{calc_crc32}
use flash_db_rust.Crc32.Reference.{
  shift_bit, shift_bits, bitwise_loop, bitwise_crc32, IsBytes, calc_crc32-bitwise,
}

xor_inj : (x y m : ℕ) → bit_xor x m ≡ bit_xor y m → x ≡ y
xor_inj x y m e = sym (xor_cancel x m) ∙ ap (λ z. bit_xor z m) e ∙ xor_cancel y m

-- The polynomial sets the highest of 32 bits.
high_bit : (u : ℕ) → u < 2 ^ 31 → 2 ^ 31 ≤ bit_xor u 0xedb8_8320
high_bit u h =
    let top : bit_xor 0x6db8_8320 (2 ^ 31 * 1) ≡ 0xedb8_8320 =
      xor_fields 31 0x6db8_8320 1 (omega arith) in
    let low = xor-lt 31 u 0x6db8_8320 h (omega arith) in
    omega (
      arith,
      ap (bit_xor u) top,
      xor_assoc u 0x6db8_8320 (2 ^ 31 * 1),
      xor_fields 31 (bit_xor u 0x6db8_8320) 1 low,
    )

-- Each step of the division keeps registers apart,
shift_bit_inj : (x y : ℕ) → x < 2 ^ 32 → y < 2 ^ 32 → shift_bit x ≡ shift_bit y → x ≡ y
unfolding shift_bit
shift_bit_inj x y p q e =
    let high_x = high_bit (x / 2) (omega arith) in
    let high_y = high_bit (y / 2) (omega arith) in
    ground (arith, high_x, high_y, xor_inj (x / 2) (y / 2) 0xedb8_8320)

shift_bit-lt : (x : ℕ) → x < 2 ^ 32 → shift_bit x < 2 ^ 32
unfolding shift_bit
shift_bit-lt x p =
    let odd = xor-lt 32 (x / 2) 0xedb8_8320 (omega arith) (omega arith) in ground (arith, odd)

shift_bits_inj : (k x y : ℕ) → x < 2 ^ 32 → y < 2 ^ 32 → shift_bits k x ≡ shift_bits k y → x ≡ y
unfolding shift_bits
shift_bits_inj zero x y p q e = e
shift_bits_inj (suc k) x y p q e =
    shift_bit_inj x y p q
      (shift_bits_inj k (shift_bit x) (shift_bit y) (shift_bit-lt x p) (shift_bit-lt y q) e)

shift_bits-lt : (k x : ℕ) → x < 2 ^ 32 → shift_bits k x < 2 ^ 32
unfolding shift_bits
shift_bits-lt zero x p = p
shift_bits-lt (suc k) x p = shift_bits-lt k (shift_bit x) (shift_bit-lt x p)

-- so do the same bytes behind them.
bitwise_loop_inj :
    (x y : ℕ) (buf : List ℕ)
    → x < 2 ^ 32
    → y < 2 ^ 32
    → IsBytes buf
    → bitwise_loop x buf ≡ bitwise_loop y buf
    → x ≡ y
unfolding bitwise_loop
bitwise_loop_inj x y [] p q h e = e
bitwise_loop_inj x y (b ∷ buf) p q h e =
    let p' = xor-lt 32 x b p (omega arith) in
    let q' = xor-lt 32 y b q (omega arith) in
    xor_inj x y b (
      shift_bits_inj 8 _ _ p' q' (
        bitwise_loop_inj (shift_bits 8 (bit_xor x b)) (shift_bits 8 (bit_xor y b)) buf
          (shift_bits-lt 8 _ p') (shift_bits-lt 8 _ q') h.1 e))

changed_byte :
    (crc a b : ℕ) (xs ys : List ℕ)
    → crc < 2 ^ 32
    → IsBytes (xs ++ a ∷ ys)
    → IsBytes (xs ++ b ∷ ys)
    → bitwise_loop crc (xs ++ a ∷ ys) ≡ bitwise_loop crc (xs ++ b ∷ ys)
    → a ≡ b
unfolding bitwise_loop
changed_byte crc a b [] ys p h k e =
    let x = xor-lt 32 crc a p (omega arith) in
    let y = xor-lt 32 crc b p (omega arith) in
    let same =
      shift_bits_inj 8 (bit_xor crc a) (bit_xor crc b) x y
        (bitwise_loop_inj _ _ ys (shift_bits-lt 8 _ x) (shift_bits-lt 8 _ y) h.1 e) in
    xor_inj a b crc (xor_comm a crc ∙ same ∙ xor_comm crc b)
changed_byte crc a b (x ∷ xs) ys p h k e =
    changed_byte (shift_bits 8 (bit_xor crc x)) a b xs ys
      (shift_bits-lt 8 _ (xor-lt 32 crc x p (omega arith))) h.1 k.1 e

-- Two byte strings that differ in exactly one byte have different checksums, from every start
-- value below 2^32.
pub calc_crc32-ne :
    (crc a b : ℕ) (xs ys : List ℕ)
    → crc < 2 ^ 32
    → IsBytes (xs ++ a ∷ ys)
    → IsBytes (xs ++ b ∷ ys)
    → a ≢ b
    → calc_crc32 crc (xs ++ a ∷ ys) ≢ calc_crc32 crc (xs ++ b ∷ ys)
unfolding bitwise_crc32
calc_crc32-ne crc a b xs ys p h k apart e =
    let same =
      sym (calc_crc32-bitwise crc (xs ++ a ∷ ys) h) ∙ e ∙ calc_crc32-bitwise crc (xs ++ b ∷ ys) k in
    apart (
      changed_byte (bit_xor crc 0xffff_ffff) a b xs ys (xor-lt 32 crc 0xffff_ffff p (omega arith)) h
        k (xor_inj _ _ 0xffff_ffff same))
