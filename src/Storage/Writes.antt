-- ===== src/Storage/Writes.antt =====
-- Pieces of a byte array after a write or an erase.
use flash_db_rust.Base.{
  ℕ, ◌+◌, ◌≤◌, ◌≡◌, ◌∙◌, ◌⊎◌, Bool, List, length, ◌<◌, replicate, length-replicate,
}
use flash_db_rust.Storage.{Storage}
use flash_db_rust.Storage.Bytes.{
  slice, overlay, slice_congr, slice-overlay_self, slice-overlay_ne, overlay_ne, overlay-replicate,
}
use flash_db_rust.Storage.Laws.{IsByteArray}

module _ {S : Type 0} (st : Storage S) (arr : IsByteArray st) where
  open arr use {capacity, byte, byte-write, byte-erase}

  pub slice-write_self :
      (s : S) (addr : ℕ) (buf : List ℕ) (sync : Bool)
      → addr + length buf ≤ capacity s
      → slice (byte (st.write addr buf sync s).1) addr (length buf) ≡ buf
  slice-write_self s addr buf sync h =
      slice_congr (byte (st.write addr buf sync s).1) (overlay (byte s) addr buf) addr (length buf)
        (λ i p q. byte-write s addr buf sync i h)
      ∙ slice-overlay_self (byte s) addr buf

  pub slice-write_ne :
      (s : S) (addr : ℕ) (buf : List ℕ) (sync : Bool) (b n : ℕ)
      → addr + length buf ≤ capacity s
      → (b + n ≤ addr) ⊎ (addr + length buf ≤ b)
      → slice (byte (st.write addr buf sync s).1) b n ≡ slice (byte s) b n
  slice-write_ne s addr buf sync b n h apart =
      slice_congr (byte (st.write addr buf sync s).1) (overlay (byte s) addr buf) b n
        (λ i p q. byte-write s addr buf sync i h)
      ∙ slice-overlay_ne (byte s) addr buf b n apart

  pub byte-write_ne :
      (s : S) (addr : ℕ) (buf : List ℕ) (sync : Bool) (x : ℕ)
      → addr + length buf ≤ capacity s
      → (x < addr) ⊎ (addr + length buf ≤ x)
      → byte (st.write addr buf sync s).1 x ≡ byte s x
  byte-write_ne s addr buf sync x h outside =
      byte-write s addr buf sync x h ∙ overlay_ne (byte s) addr buf x outside

  -- An erase fills its range with 0xff,
  pub byte-erase_self :
      (s : S) (addr size x : ℕ)
      → addr + size ≤ capacity s
      → addr ≤ x
      → x < addr + size
      → byte (st.erase addr size s).1 x ≡ 0xff
  byte-erase_self s addr size x h p q =
      byte-erase s addr size x h ∙ overlay-replicate (byte s) addr size 0xff x p q

  -- and changes nothing else.
  pub byte-erase_ne :
      (s : S) (addr size x : ℕ)
      → addr + size ≤ capacity s
      → (x < addr) ⊎ (addr + size ≤ x)
      → byte (st.erase addr size s).1 x ≡ byte s x
  byte-erase_ne s addr size x h outside =
      let length_is = length-replicate {A = ℕ} size 0xff in
      byte-erase s addr size x h
      ∙ overlay_ne (byte s) addr (replicate size 0xff) x (rw length_is outside)
