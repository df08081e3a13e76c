-- ===== src/Storage/Files/Laws.antt =====
-- storage.rs: `FileStorage` stores each sector in a file of its own.
use flash_db_rust.Base.{
  ℕ, ◌+◌, ◌≤◌, ◌<◌, ◌≡◌, refl, ◌∙◌, sym, ap, ◌≢◌, List, [], ◌++◌, Bool, none, some, Option-cases,
  some-ne_none, inl, inr, ok, err, read_err, write_err, arith, length, take, drop, replicate,
}
use flash_db_rust.Storage.Sectors.{IsSectors}
use flash_db_rust.Storage.Files.{
  FileStorage, remove, file_path, open_rw, read_sector, read, write_sector, write, erase_sector,
  erase, files, on_io,
}
use flash_db_rust.Storage.Files.System.{FileSystem, IsFileSystem}
use flash_db_rust.Storage.Files.Access.{
  index_lem, file_path_ne, read_file_keeps, read_file_in, read_file_out, write_file_in,
}
use flash_db_rust.Storage.Files.Cache.{
  sector, IsCoherent, IsCoherent-congr, Opened, open_rw-Opened, insert-IsCoherent,
  remove-IsCoherent, update-IsCoherent,
}
use flash_db_rust.Storage.Files.Erase.{fill_ones_lem}

module _ {W P F : Type 0} (fs : FileSystem W P F) (laws : IsFileSystem fs) where
  open laws use {contents, path, position}

  -- A storage in a world whose cached handles are those of its files
  abbrev pub IsValid : FileStorage P F × W → Type 0
  IsValid (s, w) = IsCoherent fs laws s w

  module _ (s : FileStorage P F) (w : W) (i off : ℕ) (c : IsCoherent fs laws s w) where
    o : Opened fs laws s w i (open_rw fs i (s, w))
    o = open_rw-Opened fs laws s w i c

    read_lem :
        (buf bytes : List ℕ)
        → sector fs laws (s, w) i ≡ some bytes
        → off + length buf ≤ length bytes
        → (read_sector fs i off buf (s, w)).0 ≡ (ok tt, take (length buf) (drop off bytes))
    unfolding read_sector
    read_lem buf bytes has fits =
        let (file, got, at) = o.found (some-ne_none has) in
        rw (read_sector, got)
          (read_file_in fs laws file off buf bytes _ (o.kept (path file) ∙ rw at has) fits)

    read_out_lem :
        (buf bytes : List ℕ)
        → sector fs laws (s, w) i ≡ some bytes
        → 0 < length buf
        → length bytes < off + length buf
        → (read_sector fs i off buf (s, w)).0.0 ≡ err read_err
    unfolding read_sector
    read_out_lem buf bytes has some_bytes beyond =
        let (file, got, at) = o.found (some-ne_none has) in
        rw (read_sector, got)
          (read_file_out fs laws file off buf bytes _ (o.kept (path file) ∙ rw at has) some_bytes
            beyond)

    read_missing_lem :
        (buf : List ℕ)
        → sector fs laws (s, w) i ≡ none
        → (read_sector fs i off buf (s, w)).0 ≡ (err read_err, buf)
    unfolding read_sector
    read_missing_lem buf gone = rw (read_sector, o.missing gone) refl

    write_lem :
        (buf bytes : List ℕ) (sync : Bool)
        → sector fs laws (s, w) i ≡ some bytes
        → off ≤ length bytes
        → let (r, s') = write_sector fs i off buf sync (s, w) in
          (r ≡ ok tt)
          × (sector fs laws s' i ≡ some (take off bytes ++ (buf ++ drop (off + length buf) bytes)))
          × IsValid s'
          × (s'.0.sec_size ≡ s.sec_size)
          × ((j : ℕ) → j ≢ i → sector fs laws s' j ≡ sector fs laws (s, w) j)
    unfolding write_sector
    write_lem buf bytes sync has fits =
        let (file, got, at) = o.found (some-ne_none has) in
        let (done, filled, kept) =
          write_file_in fs laws file off buf bytes sync _ (o.kept (path file) ∙ rw at has) fits in
        let here = ap (contents _) (o.same.path i ∙ sym at) ∙ filled in
        let others = λ (j : ℕ) (ne : j ≢ i).
          kept (file_path fs (open_rw fs i (s, w)).1.0 j)
            (λ e. file_path_ne fs laws s w i j c ne (sym (o.same.path j) ∙ e ∙ at)) in
        rw (write_sector, got)
          (
            done,
            here,
            update-IsCoherent fs laws _ _ _ i o.coherent (some-ne_none here) others,
            o.same.sec_size,
            λ j ne. others j ne ∙ ap (contents _) (o.same.path j) ∙ o.kept (file_path fs s j),
          )

    write_missing_lem :
        (buf : List ℕ) (sync : Bool)
        → sector fs laws (s, w) i ≡ none
        → let (r, s') = write_sector fs i off buf sync (s, w) in
          (r ≡ err write_err)
          × IsValid s'
          × (s'.0.sec_size ≡ s.sec_size)
          × ((j : ℕ) → sector fs laws s' j ≡ sector fs laws (s, w) j)
    unfolding write_sector
    write_missing_lem buf sync gone =
        rw (write_sector, o.missing gone)
          (
            refl,
            o.coherent,
            o.same.sec_size,
            λ j. ap (contents _) (o.same.path j) ∙ o.kept (file_path fs s j),
          )

    erase_lem :
        (size : ℕ)
        → let (r, s') = erase_sector fs i size (s, w) in
          (r ≡ ok tt)
          × (sector fs laws s' i ≡ some (replicate size 0xff))
          × IsValid s'
          × (s'.0.sec_size ≡ s.sec_size)
          × ((j : ℕ) → j ≢ i → sector fs laws s' j ≡ sector fs laws (s, w) j)
    unfolding erase_sector
    erase_lem size =
        let p = file_path fs s i in
        let (file, opened, at, start) = laws.open_truncate_in p w in
        let empty = laws.contents-open_truncate p w in
        let (done, filled, kept) =
          fill_ones_lem fs laws size file size [] _ (omega arith) (rw at empty) start in
        let synced = laws.sync_all_in file _ (some-ne_none filled) in
        let here = laws.contents-sync_all file _ p ∙ ap (contents _) (sym at) ∙ filled in
        let others = λ (j : ℕ) (ne : j ≢ i).
          let apart = file_path_ne fs laws s w i j c ne in
          laws.contents-sync_all file _ (file_path fs s j)
          ∙ kept (file_path fs s j) (λ e. apart (e ∙ at))
          ∙ laws.contents-open_truncate_ne p w (file_path fs s j) apart in
        let shorter = remove-IsCoherent fs laws s w i c in
        let coherent =
          update-IsCoherent fs laws (record s { cache = remove i s.cache }) w _ i shorter
            (some-ne_none here) others in
        rw (erase_sector, on_io, opened, done, synced)
          (
            refl,
            here,
            insert-IsCoherent fs laws _ _ i file coherent at (some-ne_none here),
            refl,
            others,
          )

  read_keeps_lem :
      (s : FileStorage P F) (w : W) (i off : ℕ) (buf : List ℕ)
      → IsCoherent fs laws s w
      → let s' = (read_sector fs i off buf (s, w)).1 in
        IsValid s'
        × (s'.0.sec_size ≡ s.sec_size)
        × ((j : ℕ) → sector fs laws s' j ≡ sector fs laws (s, w) j)
  unfolding read_sector
  read_keeps_lem s w i off buf c =
      let o = open_rw-Opened fs laws s w i c in
      elim (Option-cases (open_rw fs i (s, w)).0) [
        | inl e ↦
            rw (read_sector, e)
              (
                o.coherent,
                o.same.sec_size,
                λ j. ap (contents _) (o.same.path j) ∙ o.kept (file_path fs s j),
              )
        | inr (file, e) ↦
            rw (read_sector, e)
              (
                IsCoherent-congr fs laws _ _ _
                    (λ p h. rw (read_file_keeps fs laws file _ buf _ p) h) o.coherent,
                o.same.sec_size,
                λ j.
                    read_file_keeps fs laws file _ buf _ _
                    ∙ ap (contents _) (o.same.path j)
                    ∙ o.kept (file_path fs s j),
              )
      ]

-- On a file system whose calls do as documented, `FileStorage` stores each sector apart: an access
-- goes to the file of the sector of its first byte, at the offset of that byte.
pub files-IsSectors :
    {W P F : Type 0} (fs : FileSystem W P F) (laws : IsFileSystem fs)
    → IsSectors (files fs) (IsValid fs laws) (λ (s, w). s.sec_size) (sector fs laws)
unfolding read write erase
files-IsSectors fs laws = record {
  read_in = λ (s, w) i off buf bytes c inside has fits.
      let (index, offset) = index_lem fs laws s i off inside in
      rw (read, index, offset) (read_lem fs laws s w i off c buf bytes has fits);
  read_out = λ (s, w) i off buf bytes c inside has some_bytes beyond.
      let (index, offset) = index_lem fs laws s i off inside in
      rw (read, index, offset) (read_out_lem fs laws s w i off c buf bytes has some_bytes beyond);
  read_missing = λ (s, w) i off buf c inside gone.
      let (index, offset) = index_lem fs laws s i off inside in
      rw (read, index, offset) (read_missing_lem fs laws s w i off c buf gone);
  read_keeps = λ (s, w) addr buf c. read_keeps_lem fs laws s w _ _ buf c;
  write_in = λ (s, w) i off buf bytes sync c inside has fits.
      let (index, offset) = index_lem fs laws s i off inside in
      rw (write, index, offset) (write_lem fs laws s w i off c buf bytes sync has fits);
  write_missing = λ (s, w) i off buf sync c inside gone.
      let (index, offset) = index_lem fs laws s i off inside in
      rw (write, index, offset) (write_missing_lem fs laws s w i off c buf sync gone);
  erase_in = λ (s, w) i off size c inside.
      let (index, offset) = index_lem fs laws s i off inside in
      rw (erase, index) (erase_lem fs laws s w i off c size);
}
