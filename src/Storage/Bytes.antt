-- ===== src/Storage/Bytes.antt =====
-- A medium as a function from addresses to bytes: pieces of it, and writes into it.
use flash_db_rust.Base.{
  ℕ, zero, suc, ◌+◌, ◌-◌, ◌≤◌, ◌<◌, ◌≡◌, refl, ap, ◌⊎◌, List, [], ◌∷◌, ◌++◌, ◌&&◌, arith, length,
  get_or, get_or_ext, leb, ltb, if◌then◌else◌, replicate, length-replicate,
}

-- The `n` bytes from address `a`.
unfoldable pub slice : (ℕ → ℕ) → ℕ → ℕ → List ℕ
slice f a zero = []
slice f a (suc n) = f a ∷ slice f (a + 1) n

-- The medium after `buf` was written at `addr`.
unfoldable pub overlay : (ℕ → ℕ) → ℕ → List ℕ → ℕ → ℕ
overlay f addr buf a =
    if leb addr a && ltb a (addr + length buf) then get_or buf (a - addr) 0 else f a

pub length-slice : (f : ℕ → ℕ) (a n : ℕ) → length (slice f a n) ≡ n
unfolding slice
length-slice f a zero = refl
length-slice f a (suc n) = ap suc (length-slice f (a + 1) n)

pub get_or-slice : (f : ℕ → ℕ) (a n i : ℕ) → i < n → get_or (slice f a n) i 0 ≡ f (a + i)
unfolding slice
get_or-slice f a zero i h = absurd (omega arith)
get_or-slice f a (suc n) zero h = ap f (omega arith)
get_or-slice f a (suc n) (suc i) h =
    let e : a + 1 + i ≡ a + suc i = omega arith in
    rw (← e) (get_or-slice f (a + 1) n i (omega arith))

pub slice_congr :
    (f g : ℕ → ℕ) (a n : ℕ) → ((i : ℕ) → a ≤ i → i < a + n → f i ≡ g i) → slice f a n ≡ slice g a n
unfolding slice
slice_congr f g a zero h = refl
slice_congr f g a (suc n) h =
    let rest = slice_congr f g (a + 1) n (λ i p q. h i (omega arith) (omega arith)) in
    cc (h a (omega arith) (omega arith))

pub slice-append : (f : ℕ → ℕ) (a m n : ℕ) → slice f a m ++ slice f (a + m) n ≡ slice f a (m + n)
unfolding slice
slice-append f a zero n =
    let e : a + 0 ≡ a = omega arith in let e' : 0 + n ≡ n = omega arith in rw (e, e')
slice-append f a (suc m) n =
    let e : suc m + n ≡ suc (m + n) = omega arith in
    let e' : a + suc m ≡ a + 1 + m = omega arith in
    rw (e, e') (ap (◌∷◌ (f a)) (slice-append f (a + 1) m n))

-- What was written is read back.
pub slice-overlay_self :
    (f : ℕ → ℕ) (a : ℕ) (buf : List ℕ) → slice (overlay f a buf) a (length buf) ≡ buf
slice-overlay_self f a buf = get_or_ext 0 _ _ (length-slice (overlay f a buf) a (length buf)) λ i h.
    let h' : i < length buf = omega (arith, length-slice (overlay f a buf) a (length buf)) in
    let e : a + i - a ≡ i = omega arith in rw get_or-slice (unfold overlay in ground (arith, e))

-- A write elsewhere does not show.
pub slice-overlay_ne :
    (f : ℕ → ℕ) (a : ℕ) (buf : List ℕ) (b n : ℕ)
    → (b + n ≤ a) ⊎ (a + length buf ≤ b)
    → slice (overlay f a buf) b n ≡ slice f b n
slice-overlay_ne f a buf b n apart =
    slice_congr (overlay f a buf) f b n λ i p q. unfold overlay in ground arith

pub overlay_ne :
    (f : ℕ → ℕ) (a : ℕ) (buf : List ℕ) (x : ℕ)
    → (x < a) ⊎ (a + length buf ≤ x)
    → overlay f a buf x ≡ f x
unfolding overlay
overlay_ne f a buf x outside = ground arith

get_or-replicate : (n b i : ℕ) → i < n → get_or (replicate n b) i 0 ≡ b
get_or-replicate zero b i h = absurd (omega arith)
get_or-replicate (suc n) b zero h = refl
get_or-replicate (suc n) b (suc i) h = get_or-replicate n b i (omega arith)

-- Inside a range that one byte fills
pub overlay-replicate :
    (f : ℕ → ℕ) (a n b x : ℕ) → a ≤ x → x < a + n → overlay f a (replicate n b) x ≡ b
unfolding overlay
overlay-replicate f a n b x p q =
    let size = length-replicate {A = ℕ} n b in
    let h : x - a < n = omega arith in ground (arith, size, get_or-replicate n b (x - a) h)
