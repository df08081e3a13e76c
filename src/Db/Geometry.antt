-- ===== src/Db/Geometry.antt =====
-- Which geometries `validate_geometry` accepts.
use native.Mathlib.Nat.{pow-suc, one-le-pow, mul-div_left, mul-mod_left}
use flash_db_rust.Base.{
  ℕ, zero, suc, ◌+◌, ◌-◌, ◌*◌, ◌/◌, ◌%◌, ◌^◌, ◌≤◌, ◌<◌, ◌≡◌, ◌↔◌, inl, inr, refl, arith, bit_and,
  ok, min, subst, Bool-cases, ◌==◌,
}
use flash_db_rust.Base.Bits.{and_step, and_self}
use flash_db_rust.Db.{validate_geometry}

-- `x & (x - 1)` of an even number is that of its half; of an odd one, the number without its
-- lowest digit.
and_pred_even : (z : ℕ) → 0 < z → bit_and (2 * z) (2 * z - 1) ≡ 2 * bit_and z (z - 1)
and_pred_even z h =
    let a : 2 * z / 2 ≡ z = omega arith in
    let b : (2 * z - 1) / 2 ≡ z - 1 = omega arith in
    let c : min (2 * z % 2) ((2 * z - 1) % 2) ≡ 0 = omega arith in
    rw (and_step, a, b, c) (omega arith)

and_pred_odd : (z : ℕ) → bit_and (2 * z + 1) (2 * z + 1 - 1) ≡ 2 * z
and_pred_odd z =
    let a : (2 * z + 1) / 2 ≡ z = omega arith in
    let b : (2 * z + 1 - 1) / 2 ≡ z = omega arith in
    let c : min ((2 * z + 1) % 2) ((2 * z + 1 - 1) % 2) ≡ 0 = omega arith in
    rw (and_step, a, b, c, and_self) (omega arith)

-- `x & (x - 1)` is zero exactly at the powers of two.
pow_of_and_below : (n x : ℕ) → x ≤ n → 0 < x → bit_and x (x - 1) ≡ 0 → (k : ℕ) × (x ≡ 2 ^ k)
pow_of_and_below zero x p q h = absurd (omega arith)
pow_of_and_below (suc n) x p q h = elim (Bool-cases (x % 2 == 0)) [
  | inl even ↦
      let e : x ≡ 2 * (x / 2) = ground arith in
      let half = and_pred_even (x / 2) (omega arith) in
      let h' : bit_and (2 * (x / 2)) (2 * (x / 2) - 1) ≡ 0 =
        subst (λ y. bit_and y (y - 1) ≡ 0) e h in
      let (k, r) = pow_of_and_below n (x / 2) (omega arith) (omega arith) (omega arith) in
      (suc k, omega (arith, pow-suc 2 k))
  | inr odd ↦
      let e : x ≡ 2 * (x / 2) + 1 = ground arith in
      let h' : bit_and (2 * (x / 2) + 1) (2 * (x / 2) + 1 - 1) ≡ 0 =
        subst (λ y. bit_and y (y - 1) ≡ 0) e h in
      (0, omega (arith, and_pred_odd (x / 2)))
]

and_pow : (k : ℕ) → bit_and (2 ^ k) (2 ^ k - 1) ≡ 0
and_pow zero = refl
and_pow (suc k) =
    let e : 2 ^ suc k ≡ 2 * 2 ^ k = omega (arith, pow-suc 2 k) in
    rw (e, and_pred_even (2 ^ k) (one-le-pow k 2 (omega arith)), and_pow k)

-- A geometry is accepted exactly if the sector size is a power of two and the database is a
-- whole number of sectors, at least two.
pub validate_geometry-ok_iff :
    (sec_size max_size : ℕ)
    → (validate_geometry sec_size max_size ≡ ok tt)
      ↔ ((k : ℕ) × (n : ℕ) × (sec_size ≡ 2 ^ k) × (max_size ≡ n * sec_size) × (2 ≤ n))
unfolding validate_geometry
validate_geometry-ok_iff sec_size max_size = (
  λ h.
      let power = pow_of_and_below sec_size sec_size (omega arith) (ground arith) (ground arith) in
      (power.0, max_size / sec_size, power.1, ground arith, ground arith),
  λ (k, n, p, m, two).
      let masked : bit_and sec_size (sec_size - 1) ≡ 0 = rw p (and_pow k) in
      let positive : 1 ≤ sec_size = rw p (one-le-pow k 2 (omega arith)) in
      let divides : max_size % sec_size ≡ 0 = rw m (mul-mod_left n sec_size) in
      let count : max_size / sec_size ≡ n = rw m (mul-div_left n positive) in ground arith,
)
