-- ===== src/Storage/Laws.antt =====
-- What the engine relies on of a backend whose operations do not fail: it is an array of bytes.
use flash_db_rust.Base.{
  ℕ, ◌+◌, ◌≤◌, ◌<◌, ◌≡◌, List, Bool, ok, err, read_err, write_err, erase_err, length, replicate,
}
use flash_db_rust.Storage.{Storage}
use flash_db_rust.Storage.Bytes.{slice, overlay}

pub record IsByteArray {S : Type 0} (st : Storage S) : Type 0 where
  pub capacity : S → ℕ
  pub byte : S → ℕ → ℕ
  pub read_in :
      (s : S) (addr : ℕ) (buf : List ℕ)
      → addr + length buf ≤ capacity s
      → st.read addr buf s ≡ ((ok tt, slice (byte s) addr (length buf)), s)
  pub read_out :
      (s : S) (addr : ℕ) (buf : List ℕ)
      → capacity s < addr + length buf
      → st.read addr buf s ≡ ((err read_err, buf), s)
  pub write_in :
      (s : S) (addr : ℕ) (buf : List ℕ) (sync : Bool)
      → addr + length buf ≤ capacity s
      → (st.write addr buf sync s).0 ≡ ok tt
  pub byte-write :
      (s : S) (addr : ℕ) (buf : List ℕ) (sync : Bool) (a : ℕ)
      → addr + length buf ≤ capacity s
      → byte (st.write addr buf sync s).1 a ≡ overlay (byte s) addr buf a
  pub capacity-write :
      (s : S) (addr : ℕ) (buf : List ℕ) (sync : Bool)
      → capacity (st.write addr buf sync s).1 ≡ capacity s
  pub write_out :
      (s : S) (addr : ℕ) (buf : List ℕ) (sync : Bool)
      → capacity s < addr + length buf
      → st.write addr buf sync s ≡ (err write_err, s)
  pub erase_in :
      (s : S) (addr size : ℕ) → addr + size ≤ capacity s → (st.erase addr size s).0 ≡ ok tt
  pub byte-erase :
      (s : S) (addr size a : ℕ)
      → addr + size ≤ capacity s
      → byte (st.erase addr size s).1 a ≡ overlay (byte s) addr (replicate size 0xff) a
  pub capacity-erase : (s : S) (addr size : ℕ) → capacity (st.erase addr size s).1 ≡ capacity s
  pub erase_out :
      (s : S) (addr size : ℕ) → capacity s < addr + size → st.erase addr size s ≡ (err erase_err, s)
