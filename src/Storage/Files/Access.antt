-- ===== src/Storage/Files/Access.antt =====
-- storage.rs: the accesses of `FileStorage` to one file, and the addresses they go to.
use native.Mathlib.Nat.{
  div-eq_of_lt, mod-eq_of_lt, mul-add-div_right, mul-add-mod_self_right, mul-div_cancel,
}
use flash_db_rust.Base.{
  ℕ, ◌+◌, ◌*◌, ◌/◌, ◌%◌, ◌≤◌, ◌<◌, ◌≡◌, refl, ◌∙◌, ap, ◌≢◌, List, ◌++◌, Bool, some, Option-cases,
  some-ne_none, inl, inr, Bool-cases, ok, err, read_err, arith, length, take, drop,
}
use flash_db_rust.Storage.Files.{FileStorage, sector_index, file_path, read_file, write_file}
use flash_db_rust.Storage.Files.System.{FileSystem, IsFileSystem}
use flash_db_rust.Storage.Files.Names.{file_name_inj, file_name-IsPlain}
use flash_db_rust.Storage.Files.Cache.{IsCoherent}

module _ {W P F : Type 0} (fs : FileSystem W P F) (laws : IsFileSystem fs) where
  open laws use {contents, path, position}

  pub index_lem :
      (s : FileStorage P F) (i off : ℕ)
      → off < s.sec_size
      → (sector_index fs s (i * s.sec_size + off) ≡ i) × ((i * s.sec_size + off) % s.sec_size ≡ off)
  index_lem s i off h =
      let pos : 0 < s.sec_size = omega arith in
      let below : (i * s.sec_size + off) / s.sec_size ≡ i =
        mul-add-div_right pos i off ∙ rw (div-eq_of_lt h) (omega arith) in
      (
        ap (λ n. n * s.sec_size / s.sec_size) below ∙ mul-div_cancel i pos,
        mul-add-mod_self_right i s.sec_size off ∙ mod-eq_of_lt h,
      )

  pub file_path_ne :
      (s : FileStorage P F) (w : W) (i j : ℕ)
      → IsCoherent fs laws s w
      → j ≢ i
      → file_path fs s j ≢ file_path fs s i
  file_path_ne s w i j c ne e = ne (
      file_name_inj s.name j i (
        laws.join_inj s.dir _ _ (file_name-IsPlain s.name j c.name)
          (file_name-IsPlain s.name i c.name) e))

  pub read_file_keeps :
      (file : F) (off : ℕ) (buf : List ℕ) (w : W) (p : P)
      → contents (read_file fs file off buf w).1 p ≡ contents w p
  unfolding read_file
  read_file_keeps file off buf w p = elim (Option-cases (fs.seek file off w).0) [
    | inl e ↦ rw (read_file, e) (laws.contents-seek file off w p)
    | inr (done, e) ↦
        rw (read_file, e) (laws.contents-read_exact file buf _ p ∙ laws.contents-seek file off w p)
  ]

  pub read_file_in :
      (file : F) (off : ℕ) (buf bytes : List ℕ) (w : W)
      → contents w (path file) ≡ some bytes
      → off + length buf ≤ length bytes
      → (read_file fs file off buf w).0 ≡ (ok tt, take (length buf) (drop off bytes))
  unfolding read_file
  read_file_in file off buf bytes w has fits =
      let (sought, at) = laws.seek_in file off w (some-ne_none has) in
      let has' = laws.contents-seek file off w (path file) ∙ has in
      let got = laws.read_exact_in file buf bytes _ has' (rw at fits) in
      rw (read_file, sought, got, at) refl

  pub read_file_out :
      (file : F) (off : ℕ) (buf bytes : List ℕ) (w : W)
      → contents w (path file) ≡ some bytes
      → 0 < length buf
      → length bytes < off + length buf
      → (read_file fs file off buf w).0.0 ≡ err read_err
  unfolding read_file
  read_file_out file off buf bytes w has some_bytes beyond =
      let (sought, at) = laws.seek_in file off w (some-ne_none has) in
      let has' = laws.contents-seek file off w (path file) ∙ has in
      let got = laws.read_exact_out file buf bytes _ has' some_bytes (rw at beyond) in
      rw (read_file, sought, got) refl

  pub write_file_in :
      (file : F) (off : ℕ) (buf bytes : List ℕ) (sync : Bool) (w : W)
      → contents w (path file) ≡ some bytes
      → off ≤ length bytes
      → let (r, w') = write_file fs file off buf sync w in
        (r ≡ ok tt)
        × (contents w' (path file)
            ≡ some (take off bytes ++ (buf ++ drop (off + length buf) bytes)))
        × ((p : P) → p ≢ path file → contents w' p ≡ contents w p)
  unfolding write_file
  write_file_in file off buf bytes sync w has fits =
      let (sought, at) = laws.seek_in file off w (some-ne_none has) in
      let has' = laws.contents-seek file off w (path file) ∙ has in
      let (done, filled, next) = laws.write_all_in file buf bytes _ has' (rw at fits) in
      let kept = λ (p : P) (ne : p ≢ path file).
        laws.contents-write_all_ne file buf _ p ne ∙ laws.contents-seek file off w p in
      elim (Bool-cases sync) [
        | inl e ↦
            rw (write_file, sought, done, e, laws.sync_all_in file _ (some-ne_none filled))
              (
                refl,
                laws.contents-sync_all file _ (path file) ∙ filled ∙ rw at refl,
                λ p ne. laws.contents-sync_all file _ p ∙ kept p ne,
              )
        | inr e ↦ rw (write_file, sought, done, e) (refl, filled ∙ rw at refl, kept)
      ]
