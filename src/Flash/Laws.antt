-- ===== src/Flash/Laws.antt =====
-- Status words on a byte array.
use flash_db_rust.Base.{
  ℕ, ◌+◌, ◌*◌, ◌/◌, ◌%◌, ◌^◌, ◌≤◌, ◌<◌, ◌≡◌, refl, ◌∙◌, subst, Bool, true, Option, List, [], ◌∷◌,
  arith, ltb, replicate,
}
use flash_db_rust.Status.{get_status}
use flash_db_rust.Status.Laws.{status_byte, set_status_small, get_status-set_status}
use flash_db_rust.Storage.{Storage}
use flash_db_rust.Storage.Bytes.{slice, overlay}
use flash_db_rust.Storage.Laws.{IsByteArray}
use flash_db_rust.Flash.{program_table, write_status, read_status}

pub get_status-status_byte :
    (n i : ℕ) → 1 ≤ n → n ≤ 8 → i < n → get_status (status_byte n i ∷ []) n ≡ i
get_status-status_byte n i p q r =
    let e = set_status_small [] n i p q r in
    subst (λ (t : Option ℕ × List ℕ). get_status t.1 n ≡ i) e (get_status-set_status [] n i q r)

module _ {S : Type 0} (st : Storage S) where
  -- Setting a state other than the erased one programs one byte.
  pub write_status_lem :
      (s : S) (addr n i : ℕ) (sync : Bool)
      → addr < 2 ^ 32
      → 0 < i
      → i < n
      → n ≤ 8
      → write_status st addr n i sync s ≡ st.write addr (status_byte n i ∷ []) sync s
  unfolding write_status
  write_status_lem s addr n i sync a p q r =
      let e = set_status_small (replicate 4 0xff) n i (omega arith) r q in
      let same : (addr + 0) % 2 ^ 32 ≡ addr = omega arith in
      let positive : ltb 0 i ≡ true = ground arith in
      rw (e, positive) (unfold program_table in rw same)

module _ {S : Type 0} (st : Storage S) (arr : IsByteArray st) where
  open arr use {capacity, byte, read_in}

  pub read_status_lem :
      (s : S) (addr n : ℕ)
      → addr + 1 ≤ capacity s
      → 1 ≤ n
      → n ≤ 8
      → read_status st addr n s ≡ (get_status (byte s addr ∷ []) n, s)
  unfolding read_status
  read_status_lem s addr n a p q =
      let size : (n * 1 + 7) / 8 ≡ 1 = omega arith in
      rw (size, read_in s addr (0xff ∷ []) a) (unfold slice in refl)

  -- A state other than the erased one that is set within the capacity is read back.
  pub read_status-write_status :
      (s : S) (addr n i : ℕ) (sync : Bool)
      → addr < 2 ^ 32
      → addr + 1 ≤ capacity s
      → 0 < i
      → i < n
      → n ≤ 8
      → (read_status st addr n (write_status st addr n i sync s).1).0 ≡ i
  read_status-write_status s addr n i sync small a p q r =
      let table = status_byte n i ∷ [] in
      let w = write_status_lem st s addr n i sync small p q r in
      let fits : addr + 1 ≤ capacity (st.write addr table sync s).1 = rw arr.capacity-write a in
      let programmed : byte (st.write addr table sync s).1 addr ≡ status_byte n i =
        arr.byte-write s addr table sync addr a ∙ (unfold overlay in ground arith) in
      rw (w, read_status_lem _ addr n fits (omega arith) r, programmed)
        (get_status-status_byte n i (omega arith) r q)
