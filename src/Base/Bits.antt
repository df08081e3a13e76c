-- ===== src/Base/Bits.antt =====
-- Laws of the bit operations at variables, from the law of their lowest digit.
use Prim.Native.Nat.{digits, bit_and-bitwise, bit_xor-bitwise, differ}
use native.Mathlib.Nat.{pow-suc}
use flash_db_rust.Base.{
  ℕ, zero, suc, ◌+◌, ◌*◌, ◌/◌, ◌%◌, ◌^◌, ◌≤◌, ◌<◌, min, bit_and, bit_xor, ◌≡◌, refl, ap, ◌∙◌, arith,
}

module _ (z : ℕ → ℕ) (f : ℕ → ℕ → ℕ) where
  digits_nil : (fuel b : ℕ) → digits z f fuel 0 b ≡ z b
  digits_nil zero b = refl
  digits_nil (suc fuel) b = refl

  -- `digits` does not depend on a count that is large enough.
  digits_enough :
      (x fuel fuel' y : ℕ) → x ≤ fuel → x ≤ fuel' → digits z f fuel x y ≡ digits z f fuel' x y
  digits_enough zero fuel fuel' y few many = rw (digits_nil fuel y, digits_nil fuel' y)
  digits_enough (suc x) (suc fuel) (suc fuel') y few many =
      rw (digits_enough (suc x / 2) fuel fuel' (y / 2) (omega arith) (omega arith))
  digits_enough (suc x) (suc fuel) zero y few many = absurd (omega arith)
  digits_enough (suc x) zero fuel' y few many = absurd (omega arith)

differ_digit : (x y : ℕ) → x < 2 → y < 2 → differ x y ≡ (x + y) % 2
differ_digit zero y p q = omega arith
differ_digit (suc zero) zero p q = refl
differ_digit (suc zero) (suc zero) p q = refl
differ_digit (suc zero) (suc (suc y)) p q = absurd (omega arith)
differ_digit (suc (suc x)) y p q = absurd (omega arith)

xor_unfold : (a b : ℕ) → bit_xor a b ≡ bit_xor (a / 2) (b / 2) * 2 + differ (a % 2) (b % 2)
xor_unfold zero b = omega (arith, bit_xor-bitwise 0 b, bit_xor-bitwise 0 (b / 2))
xor_unfold (suc a) b = omega (
  arith,
  bit_xor-bitwise (suc a) b,
  bit_xor-bitwise (suc a / 2) (b / 2),
  digits_enough (λ b. b) differ (suc a / 2) a (suc a / 2) (b / 2) (omega arith) (omega arith),
)

pub xor_step : (a b : ℕ) → bit_xor a b ≡ 2 * bit_xor (a / 2) (b / 2) + (a + b) % 2
xor_step a b =
    omega (arith, xor_unfold a b, differ_digit (a % 2) (b % 2) (omega arith) (omega arith))

pub xor_half : (a b : ℕ) → bit_xor a b / 2 ≡ bit_xor (a / 2) (b / 2)
xor_half a b = omega (arith, xor_step a b)

pub xor_parity : (a b : ℕ) → bit_xor a b % 2 ≡ (a + b) % 2
xor_parity a b = omega (arith, xor_step a b)

-- The laws below go from halves to numbers, by recursion on a bound.
comm_below : (n a b : ℕ) → a ≤ n → b ≤ n → bit_xor a b ≡ bit_xor b a
comm_below zero zero zero p q = refl
comm_below zero zero (suc b) p q = absurd (omega arith)
comm_below zero (suc a) b p q = absurd (omega arith)
comm_below (suc n) a b p q =
    omega
      (arith, xor_step a b, xor_step b a, comm_below n (a / 2) (b / 2) (omega arith) (omega arith))

pub xor_comm : (a b : ℕ) → bit_xor a b ≡ bit_xor b a
xor_comm a b = comm_below (a + b) a b (omega arith) (omega arith)

assoc_below :
    (n a b c : ℕ) → a ≤ n → b ≤ n → c ≤ n → bit_xor (bit_xor a b) c ≡ bit_xor a (bit_xor b c)
assoc_below zero zero zero zero p q r = refl
assoc_below zero (suc a) b c p q r = absurd (omega arith)
assoc_below zero zero (suc b) c p q r = absurd (omega arith)
assoc_below zero zero zero (suc c) p q r = absurd (omega arith)
assoc_below (suc n) a b c p q r =
    let ih = assoc_below n (a / 2) (b / 2) (c / 2) (omega arith) (omega arith) (omega arith) in
    ground (
      arith,
      xor_step (bit_xor a b) c,
      xor_step a (bit_xor b c),
      xor_half a b,
      xor_half b c,
      xor_parity a b,
      xor_parity b c,
    )

pub xor_assoc : (a b c : ℕ) → bit_xor (bit_xor a b) c ≡ bit_xor a (bit_xor b c)
xor_assoc a b c = assoc_below (a + b + c) a b c (omega arith) (omega arith) (omega arith)

self_below : (n a : ℕ) → a ≤ n → bit_xor a a ≡ 0
self_below zero zero p = refl
self_below zero (suc a) p = absurd (omega arith)
self_below (suc n) a p = omega (arith, xor_step a a, self_below n (a / 2) (omega arith))

pub zero-xor : (a : ℕ) → bit_xor 0 a ≡ a
zero-xor a = bit_xor-bitwise 0 a

-- A mask that is applied twice cancels.
pub xor_cancel : (a m : ℕ) → bit_xor (bit_xor a m) m ≡ a
xor_cancel a m = rw (xor_assoc, self_below m m (omega arith), xor_comm) (zero-xor a)

-- No digit appears above those of the arguments.
pub xor-lt : (k a b : ℕ) → a < 2 ^ k → b < 2 ^ k → bit_xor a b < 2 ^ k
xor-lt zero zero zero p q = omega arith
xor-lt zero zero (suc b) p q = absurd (omega arith)
xor-lt zero (suc a) b p q = absurd (omega arith)
xor-lt (suc k) a b p q = omega (
  arith,
  xor_step a b,
  pow-suc 2 k,
  xor-lt k (a / 2) (b / 2) (omega (arith, pow-suc 2 k)) (omega (arith, pow-suc 2 k)),
)

pub and_step : (a b : ℕ) → bit_and a b ≡ 2 * bit_and (a / 2) (b / 2) + min (a % 2) (b % 2)
and_step zero b = omega (arith, bit_and-bitwise 0 b, bit_and-bitwise 0 (b / 2))
and_step (suc a) b = omega (
  arith,
  bit_and-bitwise (suc a) b,
  bit_and-bitwise (suc a / 2) (b / 2),
  digits_enough (λ b. zero) min (suc a / 2) a (suc a / 2) (b / 2) (omega arith) (omega arith),
)

and_self_below : (n a : ℕ) → a ≤ n → bit_and a a ≡ a
and_self_below zero zero p = refl
and_self_below zero (suc a) p = absurd (omega arith)
and_self_below (suc n) a p = omega (arith, and_step a a, and_self_below n (a / 2) (omega arith))

pub and_self : (a : ℕ) → bit_and a a ≡ a
and_self a = and_self_below a a (omega arith)

and-zero_below : (n a : ℕ) → a ≤ n → bit_and a 0 ≡ 0
and-zero_below zero zero p = refl
and-zero_below zero (suc a) p = absurd (omega arith)
and-zero_below (suc n) a p = omega (arith, and_step a 0, and-zero_below n (a / 2) (omega arith))

and_odd : (a m : ℕ) → bit_and a (2 * m + 1) ≡ 2 * bit_and (a / 2) m + a % 2
and_odd a m =
    let half : (2 * m + 1) / 2 ≡ m = omega arith in
    let low : (2 * m + 1) % 2 ≡ 1 = omega arith in
    let step = and_step a (2 * m + 1) in rw (step, half, low) (omega arith)

-- A mask of the low byte is the remainder by 256.
pub and_low_byte : (a : ℕ) → bit_and a 0xff ≡ a % 256
and_low_byte a = omega (
  arith,
  and_odd a 127,
  and_odd (a / 2) 63,
  and_odd (a / 2 / 2) 31,
  and_odd (a / 2 / 2 / 2) 15,
  and_odd (a / 2 / 2 / 2 / 2) 7,
  and_odd (a / 2 / 2 / 2 / 2 / 2) 3,
  and_odd (a / 2 / 2 / 2 / 2 / 2 / 2) 1,
  and_odd (a / 2 / 2 / 2 / 2 / 2 / 2 / 2) 0,
  and-zero_below a (a / 2 / 2 / 2 / 2 / 2 / 2 / 2 / 2) (omega arith),
)

pub xor_swap : (a b c : ℕ) → bit_xor (bit_xor a b) c ≡ bit_xor (bit_xor a c) b
xor_swap a b c = cc (xor_assoc a b c, xor_assoc a c b, xor_comm b c)

-- Digits that do not overlap are joined by a sum.
pub xor_fields : (k r q : ℕ) → r < 2 ^ k → bit_xor r (2 ^ k * q) ≡ r + 2 ^ k * q
xor_fields zero r q h = let e : r ≡ 0 = omega arith in rw (e, zero-xor) (omega arith)
xor_fields (suc k) r q h =
    let pow : 2 ^ suc k * q ≡ 2 * (2 ^ k * q) = rw pow-suc (grind arith) in
    let half : 2 * (2 ^ k * q) / 2 ≡ 2 ^ k * q = omega arith in
    rw (pow, xor_step, half) (omega (arith, xor_fields k (r / 2) q (omega (arith, pow-suc 2 k))))

-- A shift by eight places goes through an exclusive or with a byte.
pub xor_shift_byte : (a b : ℕ) → b < 256 → bit_xor a b / 256 ≡ a / 256
xor_shift_byte a b h =
    let b8 : b / 2 / 2 / 2 / 2 / 2 / 2 / 2 / 2 ≡ 0 = omega arith in
    let last =
      xor_half (a / 2 / 2 / 2 / 2 / 2 / 2 / 2) (b / 2 / 2 / 2 / 2 / 2 / 2 / 2)
      ∙ ap (bit_xor (a / 2 / 2 / 2 / 2 / 2 / 2 / 2 / 2)) b8
      ∙ xor_comm _ 0
      ∙ zero-xor (a / 2 / 2 / 2 / 2 / 2 / 2 / 2 / 2) in
    omega (
      arith,
      xor_half a b,
      xor_half (a / 2) (b / 2),
      xor_half (a / 2 / 2) (b / 2 / 2),
      xor_half (a / 2 / 2 / 2) (b / 2 / 2 / 2),
      xor_half (a / 2 / 2 / 2 / 2) (b / 2 / 2 / 2 / 2),
      xor_half (a / 2 / 2 / 2 / 2 / 2) (b / 2 / 2 / 2 / 2 / 2),
      xor_half (a / 2 / 2 / 2 / 2 / 2 / 2) (b / 2 / 2 / 2 / 2 / 2 / 2),
      last,
    )
