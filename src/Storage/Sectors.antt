-- ===== src/Storage/Sectors.antt =====
-- storage.rs: what the trait promises of a backend that stores each sector apart.
use flash_db_rust.Base.{
  ℕ, ◌+◌, ◌*◌, ◌≤◌, ◌<◌, ◌≡◌, ◌≢◌, List, ◌++◌, Bool, Option, none, some, ok, err, read_err,
  write_err, length, take, drop, replicate,
}
use flash_db_rust.Storage.{Storage}

-- What a backend with sectors of their own does. A sector has bytes, or does not exist. An access
-- goes by the sector of its first byte and by the offset there.
pub record IsSectors {S : Type 0} (st : Storage S) (IsValid : S → Type 0) (sec_size : S → ℕ)
    (sector : S → ℕ → Option (List ℕ)) : Type 0 where
  pub read_in :
      (s : S) (i off : ℕ) (buf bytes : List ℕ)
      → IsValid s
      → off < sec_size s
      → sector s i ≡ some bytes
      → off + length buf ≤ length bytes
      → (st.read (i * sec_size s + off) buf s).0 ≡ (ok tt, take (length buf) (drop off bytes))
  pub read_out :
      (s : S) (i off : ℕ) (buf bytes : List ℕ)
      → IsValid s
      → off < sec_size s
      → sector s i ≡ some bytes
      → 0 < length buf
      → length bytes < off + length buf
      → (st.read (i * sec_size s + off) buf s).0.0 ≡ err read_err
  pub read_missing :
      (s : S) (i off : ℕ) (buf : List ℕ)
      → IsValid s
      → off < sec_size s
      → sector s i ≡ none
      → (st.read (i * sec_size s + off) buf s).0 ≡ (err read_err, buf)
  pub read_keeps :
      (s : S) (addr : ℕ) (buf : List ℕ)
      → IsValid s
      → let s' = (st.read addr buf s).1 in
        IsValid s' × (sec_size s' ≡ sec_size s) × ((j : ℕ) → sector s' j ≡ sector s j)
  pub write_in :
      (s : S) (i off : ℕ) (buf bytes : List ℕ) (sync : Bool)
      → IsValid s
      → off < sec_size s
      → sector s i ≡ some bytes
      → off ≤ length bytes
      → let (r, s') = st.write (i * sec_size s + off) buf sync s in
        (r ≡ ok tt)
        × (sector s' i ≡ some (take off bytes ++ (buf ++ drop (off + length buf) bytes)))
        × IsValid s'
        × (sec_size s' ≡ sec_size s)
        × ((j : ℕ) → j ≢ i → sector s' j ≡ sector s j)
  pub write_missing :
      (s : S) (i off : ℕ) (buf : List ℕ) (sync : Bool)
      → IsValid s
      → off < sec_size s
      → sector s i ≡ none
      → let (r, s') = st.write (i * sec_size s + off) buf sync s in
        (r ≡ err write_err)
        × IsValid s'
        × (sec_size s' ≡ sec_size s)
        × ((j : ℕ) → sector s' j ≡ sector s j)
  pub erase_in :
      (s : S) (i off size : ℕ)
      → IsValid s
      → off < sec_size s
      → let (r, s') = st.erase (i * sec_size s + off) size s in
        (r ≡ ok tt)
        × (sector s' i ≡ some (replicate size 0xff))
        × IsValid s'
        × (sec_size s' ≡ sec_size s)
        × ((j : ℕ) → j ≢ i → sector s' j ≡ sector s j)
