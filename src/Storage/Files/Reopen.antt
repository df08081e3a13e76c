-- ===== src/Storage/Files/Reopen.antt =====
-- storage.rs: what `FileStorage` wrote is there when the files are opened again.
use flash_db_rust.Base.{
  ℕ, ◌+◌, ◌*◌, ◌≤◌, ◌<◌, ◌≡◌, refl, ◌∙◌, sym, ap, List, [], ◌∷◌, ◌++◌, Bool, some, some-ne_none, ok,
  arith, length, take, drop, length-append, length-take,
}
use flash_db_rust.Storage.Files.{FileStorage, lookup, new, read, write, file_path}
use flash_db_rust.Storage.Files.System.{FileSystem, IsFileSystem}
use flash_db_rust.Storage.Files.Cache.{sector, IsCoherent}
use flash_db_rust.Storage.Files.Laws.{files-IsSectors}

module _ {ℓ} {A : Type ℓ} where
  drop-append_length : (xs ys : List A) → drop (length xs) (xs ++ ys) ≡ ys
  drop-append_length [] ys = refl
  drop-append_length (x ∷ xs) ys = drop-append_length xs ys

  take-append_length : (xs ys : List A) → take (length xs) (xs ++ ys) ≡ xs
  take-append_length [] ys = refl
  take-append_length (x ∷ xs) ys = ap (◌∷◌ x) (take-append_length xs ys)

  -- The middle of three parts
  take-drop_middle :
      (off : ℕ) (bytes buf rest : List A)
      → off ≤ length bytes
      → take (length buf) (drop off (take off bytes ++ (buf ++ rest))) ≡ buf
  take-drop_middle off bytes buf rest h =
      let e : length (take off bytes) ≡ off = omega (arith, length-take off bytes) in
      ap (λ n. take (length buf) (drop n (take off bytes ++ (buf ++ rest)))) (sym e)
      ∙ ap (take (length buf)) (drop-append_length (take off bytes) (buf ++ rest))
      ∙ take-append_length buf rest

module _ {W P F : Type 0} (fs : FileSystem W P F) (laws : IsFileSystem fs) where
  open laws use {contents}

  -- A write to a sector that exists succeeds. Where then, in the world it leaves, a storage is
  -- created with the same directory, name and sector size, that succeeds, and the new storage reads
  -- back what was written and changes no sector.
  pub read-new-write :
      (s : FileStorage P F) (w : W) (i off : ℕ) (buf bytes : List ℕ) (sync : Bool)
      → IsCoherent fs laws s w
      → off < s.sec_size
      → sector fs laws (s, w) i ≡ some bytes
      → off ≤ length bytes
      → let (written, (s', w')) = write fs (i * s.sec_size + off) buf sync (s, w) in
        let (created, w'') = new fs s'.dir s'.name s'.sec_size w' in
        (written ≡ ok tt)
        × ((s2 : FileStorage P F) × (created ≡ ok s2)
            × ((j : ℕ) → sector fs laws (s2, w'') j ≡ sector fs laws (s', w') j)
            × ((old : List ℕ)
                → length old ≡ length buf
                → (read fs (i * s.sec_size + off) old (s2, w'')).0 ≡ (ok tt, buf)))
  unfolding new lookup
  read-new-write s w i off buf bytes sync c inside has fits =
      let store = files-IsSectors fs laws in
      let (done, filled, c', size, kept) =
        store.write_in (s, w) i off buf bytes sync c inside has fits in
      let (s', w') = (write fs (i * s.sec_size + off) buf sync (s, w)).1 in
      let created = laws.create_dir_all_in s'.dir w' in
      let fresh : FileStorage P F = record {
        dir = s'.dir;
        name = s'.name;
        sec_size = s'.sec_size;
        cache = [];
      } in
      let w'' = (fs.create_dir_all s'.dir w').1 in
      let same = λ (j : ℕ). laws.contents-create_dir_all s'.dir w' (file_path fs s' j) in
      let valid : IsCoherent fs laws fresh w'' = record {
        name = c'.name;
        cached = λ j file h. absurd (some-ne_none h refl);
      } in
      let rest = drop (off + length buf) bytes in
      let long : off + length buf ≤ length (take off bytes ++ (buf ++ rest)) = omega (
        arith,
        length-append (take off bytes) (buf ++ rest),
        length-append buf rest,
        length-take off bytes,
      ) in
      rw (new, created)
        (
          done,
          (
            fresh,
            refl,
            same,
            λ old len.
                ap (λ n. (read fs (i * n + off) old (fresh, w'')).0) (sym size)
                ∙ store.read_in (fresh, w'') i off old _ valid (rw size inside) (same i ∙ filled)
                    (rw len long)
                ∙ ap (λ (l : List ℕ). (ok tt, l))
                    (ap (λ n. take n (drop off (take off bytes ++ (buf ++ rest)))) len
                      ∙ take-drop_middle off bytes buf rest fits),
          ),
        )
