-- ===== src/Storage/Files/Tests.antt =====
-- Runs of `FileStorage` on a file system in memory, and what its theorems say of such a run.
use flash_db_rust.Base.{
  ℕ, ◌+◌, ◌*◌, ◌≡◌, refl, ◌≢◌, List, [], ◌∷◌, ◌++◌, true, false, none, some, some-ne_none, ok, err,
  read_err, write_err, arith, eq_bytes, length, replicate,
}
use flash_db_rust.Storage.Files.{
  FileStorage, lookup, new, open_rw, insert, remove, read_file, read_sector, read, write_file,
  write_sector, write, fill_ones, erase_sector, erase,
}
use flash_db_rust.Storage.Files.System.{HasNoSlash}
use flash_db_rust.Storage.Files.Names.{decimal, file_name}
use flash_db_rust.Storage.Files.Memory.{Disk, memory, memory-IsFileSystem}
use flash_db_rust.Storage.Files.Cache.{sector}
use flash_db_rust.Storage.Files.Laws.{files-IsSectors, IsValid}
use flash_db_rust.Storage.Files.Reopen.{read-new-write}

-- An empty disk, and a storage on it with sectors of 8 bytes
abbrev blank : Disk
blank = record { bytes = λ p. none; at = λ p. 0 }

abbrev db : FileStorage (List ℕ) (List ℕ)
db = record { dir = 100 ∷ []; name = 107 ∷ 118 ∷ []; sec_size = 8; cache = [] }

abbrev two_files : FileStorage (List ℕ) (List ℕ) × Disk
two_files = (erase memory 8 8 (erase memory 0 8 (db, blank)).1).1

abbrev patched : FileStorage (List ℕ) (List ℕ) × Disk
patched = (write memory 10 (1 ∷ 2 ∷ []) true two_files).1

-- The twelfth sector file of a database whose name is longer than 8 characters
name_is_cut :
    file_name (97 ∷ 98 ∷ 99 ∷ 100 ∷ 101 ∷ 102 ∷ 103 ∷ 104 ∷ 105 ∷ []) 12
    ≡ 97 ∷ 98 ∷ 99 ∷ 100 ∷ 101 ∷ 102 ∷ 103 ∷ 104 ∷ 46 ∷ 102 ∷ 100 ∷ 98 ∷ 46 ∷ 49 ∷ 50 ∷ []
unfolding file_name decimal
name_is_cut = refl

read_back : (read memory 9 (replicate 4 0) patched).0 ≡ (ok tt, 0xff ∷ 1 ∷ 2 ∷ 0xff ∷ [])
unfolding lookup open_rw insert remove read_file read_sector read write_file write_sector write
    fill_ones erase_sector erase file_name decimal eq_bytes
read_back = refl

-- A sector that was not erased yet has no file.
read_missing : (read memory 16 (0 ∷ []) patched).0 ≡ (err read_err, 0 ∷ [])
unfolding lookup open_rw insert remove read_file read_sector read write_file write_sector write
    fill_ones erase_sector erase file_name decimal eq_bytes
read_missing = refl

write_missing : (write memory 17 (1 ∷ []) false patched).0 ≡ err write_err
unfolding lookup open_rw insert remove read_file read_sector read write_file write_sector write
    fill_ones erase_sector erase file_name decimal eq_bytes
write_missing = refl

-- A write across the end of a sector makes its file longer, and leaves the next sector alone.
write_across :
    let s' = (write memory 7 (1 ∷ 2 ∷ []) false patched).1 in
    (sector memory memory-IsFileSystem s' 0 ≡ some (replicate 7 0xff ++ 1 ∷ 2 ∷ []))
    × ((read memory 8 (replicate 3 0) s').0 ≡ (ok tt, 0xff ∷ 0xff ∷ 1 ∷ []))
unfolding lookup open_rw insert remove read_file read_sector read write_file write_sector write
    fill_ones erase_sector erase file_name decimal eq_bytes memory-IsFileSystem
write_across = (refl, refl)

db-IsValid : IsValid memory memory-IsFileSystem (db, blank)
unfolding lookup HasNoSlash
db-IsValid = record {
  name = (omega arith, (omega arith, tt));
  cached = λ index file h. absurd (some-ne_none h refl);
}

-- The first erase creates the file of the sector.
files-IsSectors_example :
    let (r, s') = erase memory (1 * 8 + 3) 8 (db, blank) in
    (r ≡ ok tt)
    × (sector memory memory-IsFileSystem s' 1 ≡ some (replicate 8 0xff))
    × IsValid memory memory-IsFileSystem s'
    × (s'.0.sec_size ≡ 8)
    × ((j : ℕ) → j ≢ 1 → sector memory memory-IsFileSystem s' j ≡ none)
unfolding memory-IsFileSystem
files-IsSectors_example =
    (files-IsSectors memory memory-IsFileSystem).erase_in (db, blank) 1 3 8 db-IsValid (omega arith)

one_file-IsValid : IsValid memory memory-IsFileSystem (erase memory (1 * 8 + 3) 8 (db, blank)).1
one_file-IsValid =
    ((files-IsSectors memory memory-IsFileSystem).erase_in (db, blank) 1 3 8 db-IsValid
      (omega arith)).2

-- Two bytes written behind the third, read by a storage that was created afterwards
read-new-write_example :
    let (written, (s', w')) =
      write memory (1 * 8 + 3) (1 ∷ 2 ∷ []) true (erase memory (1 * 8 + 3) 8 (db, blank)).1 in
    let (created, w'') = new memory s'.dir s'.name s'.sec_size w' in
    (written ≡ ok tt)
    × ((s2 : FileStorage (List ℕ) (List ℕ)) × (created ≡ ok s2)
        × ((j : ℕ)
            → sector memory memory-IsFileSystem (s2, w'') j
              ≡ sector memory memory-IsFileSystem (s', w') j)
        × ((old : List ℕ)
            → length old ≡ 2
            → (read memory (1 * 8 + 3) old (s2, w'')).0 ≡ (ok tt, 1 ∷ 2 ∷ [])))
unfolding memory-IsFileSystem erase erase_sector fill_ones remove insert
read-new-write_example =
    let (s, w) = (erase memory (1 * 8 + 3) 8 (db, blank)).1 in
    read-new-write memory memory-IsFileSystem s w 1 3 (1 ∷ 2 ∷ []) (replicate 8 0xff) true
      one_file-IsValid (omega arith)
      ((files-IsSectors memory memory-IsFileSystem).erase_in (db, blank) 1 3 8 db-IsValid
        (omega arith)).1
      (omega arith)
