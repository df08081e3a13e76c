-- ===== src/Kvdb/Record/Crc.antt =====
-- The chunked checksum of a node is the checksum of its bytes.
use flash_db_rust.Base.{
  ℕ, zero, suc, ◌+◌, ◌-◌, ◌%◌, ◌^◌, ◌≤◌, ◌<◌, ◌≡◌, ◌∙◌, ap, min, inl, inr, Bool-cases, List, ◌++◌,
  length, take, drop, length-append, length-take, length-drop, ltb, arith, sym, [],
}
use flash_db_rust.Base.Bits.{xor_cancel}
use flash_db_rust.Crc32.{calc_crc32}
use flash_db_rust.Crc32.Reference.{calc_crc32-append}
use flash_db_rust.Storage.{Storage}
use flash_db_rust.Storage.Bytes.{slice, slice-append, length-slice}
use flash_db_rust.Storage.Laws.{IsByteArray}
use flash_db_rust.Kvdb.Types.{Kvdb}
use flash_db_rust.Kvdb.Record

calc_crc32-nil : (crc : ℕ) → calc_crc32 crc [] ≡ crc
unfolding calc_crc32
calc_crc32-nil crc = xor_cancel crc 0xffff_ffff

crc_cut :
    (f : ℕ → ℕ) (a m n crc : ℕ)
    → calc_crc32 (calc_crc32 crc (slice f a m)) (slice f (a + m) n)
      ≡ calc_crc32 crc (slice f a (m + n))
crc_cut f a m n crc =
    sym (calc_crc32-append crc (slice f a m) (slice f (a + m) n))
    ∙ ap (calc_crc32 crc) (slice-append f a m n)

module _ {S : Type 0} (st : Storage S) (arr : IsByteArray st) where
  open arr use {capacity, byte, read_in}

  -- From `len` bytes on, the loop folds in the bytes that are left.
  pub crc_loop-slice :
      (db : Kvdb S) (fuel base n : ℕ) (buf : List ℕ) (len calc : ℕ)
      → length buf ≡ 32
      → len ≤ n
      → n ≤ len + fuel
      → base + n < 2 ^ 32
      → base + n ≤ capacity db.storage
      → Record.crc_loop st fuel base n buf len calc db
        ≡ (calc_crc32 calc (slice (byte db.storage) (base + len) (n - len)), db)
  unfolding Record.crc_loop
  crc_loop-slice db zero base n buf len calc b h f small c =
      let e : n - len ≡ 0 = omega arith in rw e (unfold slice in rw calc_crc32-nil)
  crc_loop-slice db (suc fuel) base n buf len calc b h f small c = elim (Bool-cases (ltb len n)) [
    | inr over ↦
        let e : n - len ≡ 0 = ground arith in rw (over, e) (unfold slice in rw calc_crc32-nil)
    | inl below ↦
        let size : ℕ = min 32 (n - len) in
        let wrap : (base + len) % 2 ^ 32 ≡ base + len = omega arith in
        let part : length (take size buf) ≡ size = omega (arith, length-take size buf) in
        let fits : base + len + size ≤ capacity db.storage = ground arith in
        let got = read_in db.storage (base + len) (take size buf) (rw part fits) in
        let chunk : List ℕ = slice (byte db.storage) (base + len) size in
        let rest =
          crc_loop-slice db fuel base n (chunk ++ drop size buf) (len + size)
            (calc_crc32 calc chunk)
            (omega (
              arith,
              length-append chunk (drop size buf),
              length-slice (byte db.storage) (base + len) size,
              length-drop size buf,
            ))
            (ground arith) (ground arith) small c in
        let left : n - len ≡ size + (n - (len + size)) = ground arith in
        let whole =
          ap
            (λ a. calc_crc32 (calc_crc32 calc chunk) (slice (byte db.storage) a (n - (len + size))))
            (omega arith)
          ∙ crc_cut (byte db.storage) (base + len) size (n - (len + size)) calc
          ∙ ap (λ m. calc_crc32 calc (slice (byte db.storage) (base + len) m)) (sym left) in
        rw (below, wrap, got, part) (rest ∙ ap (λ (r : ℕ). (r, db)) whole)
  ]
