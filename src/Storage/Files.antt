-- ===== src/Storage/Files.antt =====
-- storage.rs: `FileStorage`, one file for each sector, over the calls of `std::fs`.
pub mod System
pub mod Names
pub mod Cache
pub mod Access
pub mod Erase
pub mod Laws
pub mod Reopen
pub mod Memory
pub mod Tests
use flash_db_rust.Base.{
  ℕ, zero, suc, ◌-◌, ◌/◌, ◌%◌, min, List, [], ◌∷◌, Bool, true, false, not, Option, none, some, Cmd,
  Result, ok, err, FdbError, read_err, write_err, erase_err, init_failed, replicate, ◌==◌,
  if◌then◌else◌,
}
use flash_db_rust.Def.{align_down}
use flash_db_rust.Storage.{Storage}
use flash_db_rust.Storage.Files.System.{FileSystem}
use flash_db_rust.Storage.Files.Names.{file_name}

-- `cache: HashMap<u32, File>` is an association list.
pub record FileStorage (P F : Type 0) : Type 0 where
  pub dir : P
  pub name : List ℕ
  pub sec_size : ℕ
  pub cache : List (ℕ × F)

-- `HashMap::get_mut`, and `contains_key` where there is one
unfoldable pub lookup : {F : Type 0} → ℕ → List (ℕ × F) → Option F
lookup index [] = none
lookup index ((other, file) ∷ cache) = if index == other then some file else lookup index cache

-- `HashMap::remove`
unfoldable pub remove : {F : Type 0} → ℕ → List (ℕ × F) → List (ℕ × F)
remove index [] = []
remove index ((other, file) ∷ cache) =
    let rest = remove index cache in if index == other then rest else (other, file) ∷ rest

-- `HashMap::insert`
unfoldable pub insert : {F : Type 0} → ℕ → F → List (ℕ × F) → List (ℕ × F)
unfolding remove
insert index file cache = (index, file) ∷ remove index cache

-- `.map_err(|_| e)`
abbrev pub map_err : {A : Type 0} → FdbError → Option A → Result A
map_err e none = err e
map_err e (some a) = ok a

-- `.map_err(|_| e)?` of a call on files, in a function whose state holds the storage too.
abbrev pub on_io :
    {A S W B : Type 0}
    → FdbError
    → Cmd W (Option A)
    → (A → Cmd (S × W) (Result B))
    → Cmd (S × W) (Result B)
on_io e m f (s, w) = let (r, w') = m w in elim r [ none ↦ (err e, (s, w')) | some a ↦ f a (s, w') ]

module _ {W P F : Type 0} (fs : FileSystem W P F) where
  -- `FileStorage::new`
  unfoldable pub new : P → List ℕ → ℕ → Cmd W (Result (FileStorage P F))
  new dir name sec_size w =
      let (r, w') = fs.create_dir_all dir w in
      elim r [
        | none ↦ (err init_failed, w')
        | some done ↦ (ok (record { dir = dir; name = name; sec_size = sec_size; cache = [] }), w')
      ]

  -- A sector size of 0 panics in the source, in `align_down`.
  abbrev pub sector_index : FileStorage P F → ℕ → ℕ
  sector_index s addr = align_down addr s.sec_size / s.sec_size

  abbrev pub file_path : FileStorage P F → ℕ → P
  file_path s index = fs.join s.dir (file_name s.name index)

  unfoldable pub open_rw : ℕ → Cmd (FileStorage P F × W) (Option F)
  open_rw index (s, w) = elim (lookup index s.cache) [
    | some file ↦ (some file, (s, w))
    | none ↦
        let (r, w') = fs.open_rw (file_path s index) w in
        elim r [
          | none ↦ (none, (s, w'))
          | some file ↦ (some file, (record s { cache = insert index file s.cache }, w'))
        ]
  ]

  -- The rest of `read`, with the file.
  unfoldable pub read_file : F → ℕ → List ℕ → Cmd W (Result (Unit {0}) × List ℕ)
  read_file file off buf w =
      let (r, w') = fs.seek file off w in
      elim r [
        | none ↦ ((err read_err, buf), w')
        | some done ↦
            let ((r', buf'), w'') = fs.read_exact file buf w' in ((map_err read_err r', buf'), w'')
      ]

  -- The rest of `read`, with the sector and the offset.
  unfoldable pub read_sector :
      ℕ → ℕ → List ℕ → Cmd (FileStorage P F × W) (Result (Unit {0}) × List ℕ)
  read_sector index off buf (s, w) =
      let (opened, (s', w')) = open_rw index (s, w) in
      elim opened [
        | none ↦ ((err read_err, buf), (s', w'))
        | some file ↦ let (r, w'') = read_file file off buf w' in (r, (s', w''))
      ]

  unfoldable pub read : ℕ → List ℕ → Cmd (FileStorage P F × W) (Result (Unit {0}) × List ℕ)
  read addr buf (s, w) = read_sector (sector_index s addr) (addr % s.sec_size) buf (s, w)

  -- The rest of `write`, with the file.
  unfoldable pub write_file : F → ℕ → List ℕ → Bool → Cmd W (Result (Unit {0}))
  write_file file off buf sync w =
      let (r, w') = fs.seek file off w in
      elim r [
        | none ↦ (err write_err, w')
        | some done ↦
            let (r', w'') = fs.write_all file buf w' in
            elim r' [
              | none ↦ (err write_err, w'')
              | some done ↦
                  if sync
                  then (let (r'', w3) = fs.sync_all file w'' in (map_err write_err r'', w3))
                  else (ok tt, w'')
            ]
      ]

  unfoldable pub write_sector :
      ℕ → ℕ → List ℕ → Bool → Cmd (FileStorage P F × W) (Result (Unit {0}))
  write_sector index off buf sync (s, w) =
      let (opened, (s', w')) = open_rw index (s, w) in
      elim opened [
        | none ↦ (err write_err, (s', w'))
        | some file ↦ let (r, w'') = write_file file off buf sync w' in (r, (s', w''))
      ]

  unfoldable pub write : ℕ → List ℕ → Bool → Cmd (FileStorage P F × W) (Result (Unit {0}))
  write addr buf sync (s, w) =
      write_sector (sector_index s addr) (addr % s.sec_size) buf sync (s, w)

  -- The loop of `erase`. Each round writes a byte at least, so `remaining` rounds are enough.
  unfoldable pub fill_ones : ℕ → F → ℕ → Cmd W (Result (Unit {0}))
  fill_ones zero file remaining w = (ok tt, w)
  fill_ones (suc fuel) file zero w = (ok tt, w)
  fill_ones (suc fuel) file (suc rest) w =
      let n = min (suc rest) 256 in
      let (r, w') = fs.write_all file (replicate n 0xff) w in
      elim r [ none ↦ (err erase_err, w') | some done ↦ fill_ones fuel file (suc rest - n) w' ]

  -- The rest of `erase`, with the sector.
  unfoldable pub erase_sector : ℕ → ℕ → Cmd (FileStorage P F × W) (Result (Unit {0}))
  erase_sector index size (s, w) =
      let s' = record s { cache = remove index s.cache } in
      on_io erase_err (fs.open_truncate (file_path s' index))
        (λ file (s', w').
          let (filled, w'') = fill_ones size file size w' in
          elim filled [
            | err e ↦ (err e, (s', w''))
            | ok done ↦
                on_io erase_err (fs.sync_all file)
                  (λ done (s', w3). (ok tt, (record s' { cache = insert index file s'.cache }, w3)))
                  (s', w'')
          ])
        (s', w)

  unfoldable pub erase : ℕ → ℕ → Cmd (FileStorage P F × W) (Result (Unit {0}))
  erase addr size (s, w) = erase_sector (sector_index s addr) size (s, w)

  -- `impl Storage for FileStorage`
  abbrev pub files : Storage (FileStorage P F × W)
  files = record { read = read; write = write; erase = erase }
