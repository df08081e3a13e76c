-- ===== src/Base/State.antt =====
-- Code that mutates: state passing, with Rust's `Result` as a value that the code inspects.
use mathlib.Core.Path.{◌≡◌, refl}
use mathlib.Core.Bool.{Bool, true, false}
use flash_db_rust.Base.Tests.{if◌then◌else◌}

-- error.rs: `FdbError`
pub data FdbError : Type 0 where
  erase_err read_err write_err part_not_found kv_name_err kv_name_exist saved_full init_failed :
      FdbError

pub data Result (A : Type 0) : Type 0 where
  ok : A → Result A
  err : FdbError → Result A

abbrev pub is_ok : {A : Type 0} → Result A → Bool
is_ok (ok a) = true
is_ok (err e) = false

-- A call on a mutable object: the result, and the object after it.
abbrev pub Cmd : Type 0 → Type 0 → Type 0
Cmd S A = S → A × S

module _ {S A : Type 0} where
  abbrev pub pure : A → Cmd S A
  pure a s = (a, s)

  abbrev pub gets : (S → A) → Cmd S A
  gets f s = (f s, s)

abbrev pub modify : {S : Type 0} → (S → S) → Cmd S (Unit {0})
modify f s = (tt, f s)

module _ {S A B : Type 0} where
  infixl 5 ◌>>=◌ ◌>>◌
  abbrev pub ◌>>=◌ : Cmd S A → (A → Cmd S B) → Cmd S B
  ◌>>=◌ m f s = let (a, s') = m s in f a s'

  abbrev pub ◌>>◌ : Cmd S A → Cmd S B → Cmd S B
  ◌>>◌ m n s = n (m s).1

  -- The operator `?`: an error ends the function that contains it. It is shut, as `branch` is.
  abbrev pub on_ok : Result A → (A → Cmd S (Result B)) → Cmd S (Result B)
  on_ok (ok a) f s = f a s
  on_ok (err e) f s = (err e, s)

  unfoldable pub try : Cmd S (Result A) → (A → Cmd S (Result B)) → Cmd S (Result B)
  try m f s = let (r, s') = m s in on_ok r f s'

module _ {S A : Type 0} where
  -- A test between two calls. It is shut, so that a lemma about it finds its parts.
  unfoldable pub branch : Bool → Cmd S A → Cmd S A → Cmd S A
  branch true m n = m
  branch false m n = n

  pub branch_either {ℓ} :
      (P : A × S → Type ℓ) {b : Bool} (m n : Cmd S A) {s : S}
      → (b ≡ true → P (m s))
      → (b ≡ false → P (n s))
      → P (branch b m n s)
  unfolding branch
  branch_either P {b = true} m n h k = h refl
  branch_either P {b = false} m n h k = k refl

-- A test between two calls depends on the second only where it fails.
pub branch_congr :
    {S A : Type 0} (b : Bool) (m n n' : Cmd S A) (s : S)
    → (b ≡ false → n s ≡ n' s)
    → branch b m n s ≡ branch b m n' s
unfolding branch
branch_congr true m n n' s h = refl
branch_congr false m n n' s h = h refl

-- What holds of both branches of a test between two calls.
pub if_either {ℓ} :
    {A B : Type 0} (P : B → Type ℓ) (b : Bool) (f g : A → B) (a : A)
    → (b ≡ true → P (f a))
    → (b ≡ false → P (g a))
    → P ((if b then f else g) a)
if_either P true f g a h k = h refl
if_either P false f g a h k = k refl
