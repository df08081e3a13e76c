-- ===== src/Flash/Wrote.antt =====
-- Calls on a byte array that succeed and replace a piece of it.
use flash_db_rust.Base.{
  ℕ, ◌+◌, ◌^◌, ◌≤◌, ◌<◌, ◌≡◌, refl, ◌∙◌, ◌⊎◌, Bool, false, List, [], ◌∷◌, Result, ok, arith, length,
}
use flash_db_rust.Status.Laws.{status_byte}
use flash_db_rust.Storage.{Storage}
use flash_db_rust.Storage.Bytes.{slice, overlay, slice_congr, slice-overlay_self, slice-overlay_ne}
use flash_db_rust.Storage.Laws.{IsByteArray}
use flash_db_rust.Flash.{write_status, write_align}
use flash_db_rust.Flash.Laws.{write_status_lem}

module _ {S : Type 0} (st : Storage S) (arr : IsByteArray st) where
  open arr use {capacity, byte}

  -- A call that succeeded and replaced `buf` at `a`.
  pub record Wrote (s : S) (after : Result (Unit {0}) × S) (a : ℕ) (buf : List ℕ) : Type 0 where
    pub done : after.0 ≡ ok tt
    pub same : capacity after.1 ≡ capacity s
    pub bytes : (x : ℕ) → byte after.1 x ≡ overlay (byte s) a buf x

  pub write_lem :
      (s : S) (a : ℕ) (buf : List ℕ) (sync : Bool)
      → a + length buf ≤ capacity s
      → Wrote s (st.write a buf sync s) a buf
  write_lem s a buf sync h = record {
    done = arr.write_in s a buf sync h;
    same = arr.capacity-write s a buf sync;
    bytes = λ x. arr.byte-write s a buf sync x h;
  }

  pub write_align_lem :
      (s : S) (a : ℕ) (buf : List ℕ)
      → a + length buf ≤ capacity s
      → Wrote s (write_align st a buf s) a buf
  unfolding write_align
  write_align_lem s a [] h = record {
    done = refl;
    same = refl;
    bytes = λ x. unfold overlay in ground arith;
  }
  write_align_lem s a (b ∷ buf) h = write_lem s a (b ∷ buf) false h

  pub write_status-Wrote :
      (s : S) (a n i : ℕ) (sync : Bool)
      → a < 2 ^ 32
      → a + 1 ≤ capacity s
      → 0 < i
      → i < n
      → n ≤ 8
      → Wrote s (write_status st a n i sync s) a (status_byte n i ∷ [])
  write_status-Wrote s a n i sync small h p q r =
      rw (write_status_lem st s a n i sync small p q r)
        (write_lem s a (status_byte n i ∷ []) sync h)

  module _ (s : S) (after : Result (Unit {0}) × S) (a : ℕ) (buf : List ℕ)
      (w : Wrote s after a buf) where
    pub slice-Wrote_self : slice (byte after.1) a (length buf) ≡ buf
    slice-Wrote_self =
        slice_congr (byte after.1) (overlay (byte s) a buf) a (length buf) (λ x p q. w.bytes x)
        ∙ slice-overlay_self (byte s) a buf

    pub slice-Wrote_ne :
        (b n : ℕ)
        → (b + n ≤ a) ⊎ (a + length buf ≤ b)
        → slice (byte after.1) b n ≡ slice (byte s) b n
    slice-Wrote_ne b n apart =
        slice_congr (byte after.1) (overlay (byte s) a buf) b n (λ x p q. w.bytes x)
        ∙ slice-overlay_ne (byte s) a buf b n apart

    pub byte-Wrote_ne : (x : ℕ) → (x < a) ⊎ (a + length buf ≤ x) → byte after.1 x ≡ byte s x
    byte-Wrote_ne x apart = w.bytes x ∙ (unfold overlay in ground arith)
