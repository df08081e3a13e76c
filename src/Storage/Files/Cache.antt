-- ===== src/Storage/Files/Cache.antt =====
-- storage.rs: the cached handles of `FileStorage`, and `open_rw` with them.
use flash_db_rust.Base.{
  ℕ, ◌≡◌, refl, ◌∙◌, sym, ◌≢◌, List, [], ◌∷◌, Option, none, some, Option-cases, some-ne_none, inl,
  inr, arith, ==-cases, ◌==◌, if◌then◌else◌,
}
use flash_db_rust.Storage.Files.{FileStorage, lookup, remove, insert, file_path, open_rw}
use flash_db_rust.Storage.Files.System.{FileSystem, IsFileSystem, HasNoSlash}

module _ {F : Type 0} where
  lookup-remove :
      (j i : ℕ) (cache : List (ℕ × F))
      → lookup j (remove i cache) ≡ (if j == i then none else lookup j cache)
  unfolding lookup remove
  lookup-remove j i [] = ground arith
  lookup-remove j i ((k, file) ∷ cache) = ground (arith, lookup-remove j i cache)

  pub lookup-insert :
      (j i : ℕ) (file : F) (cache : List (ℕ × F))
      → lookup j (insert i file cache) ≡ (if j == i then some file else lookup j cache)
  unfolding lookup insert
  lookup-insert j i file cache = ground (arith, lookup-remove j i cache)

module _ {W P F : Type 0} (fs : FileSystem W P F) (laws : IsFileSystem fs) where
  open laws use {contents, path}

  -- The file of a sector, if there is one.
  abbrev pub sector : FileStorage P F × W → ℕ → Option (List ℕ)
  sector (s, w) index = contents w (file_path fs s index)

  -- Each cached handle is that of the sector's file, and the name has no separator.
  pub record IsCoherent (s : FileStorage P F) (w : W) : Type 0 where
    pub name : HasNoSlash s.name
    pub cached :
        (index : ℕ) (file : F)
        → lookup index s.cache ≡ some file
        → (path file ≡ file_path fs s index) × (sector (s, w) index ≢ none)

  pub IsCoherent-congr :
      (s : FileStorage P F) (w w' : W)
      → ((p : P) → contents w p ≢ none → contents w' p ≢ none)
      → IsCoherent s w
      → IsCoherent s w'
  IsCoherent-congr s w w' same c = record {
    name = c.name;
    cached = λ index file h.
        let (at, there) = c.cached index file h in (at, same (file_path fs s index) there);
  }

  -- Another file for one sector
  pub update-IsCoherent :
      (s : FileStorage P F) (w w' : W) (i : ℕ)
      → IsCoherent s w
      → sector (s, w') i ≢ none
      → ((j : ℕ) → j ≢ i → sector (s, w') j ≡ sector (s, w) j)
      → IsCoherent s w'
  update-IsCoherent s w w' i c there kept = record {
    name = c.name;
    cached = λ index file h.
        let (at, before) = c.cached index file h in
        (
          at,
          elim (==-cases index i) [
            | inl e ↦ rw e there
            | inr ne ↦ λ gone. before (sym (kept index ne) ∙ gone)
          ],
        );
  }

  -- The parts of a storage that its operations keep.
  pub record Same (s s' : FileStorage P F) : Type 0 where
    pub path : (index : ℕ) → file_path fs s' index ≡ file_path fs s index
    pub sec_size : s'.sec_size ≡ s.sec_size

  -- A new handle in the cache
  pub insert-IsCoherent :
      (s : FileStorage P F) (w : W) (index : ℕ) (file : F)
      → IsCoherent s w
      → path file ≡ file_path fs s index
      → sector (s, w) index ≢ none
      → IsCoherent (record s { cache = insert index file s.cache }) w
  insert-IsCoherent s w index file c at there = record {
    name = c.name;
    cached = λ j other h. ground (arith, lookup-insert j index file s.cache, c.cached j other);
  }

  pub remove-IsCoherent :
      (s : FileStorage P F) (w : W) (index : ℕ)
      → IsCoherent s w
      → IsCoherent (record s { cache = remove index s.cache }) w
  remove-IsCoherent s w index c = record {
    name = c.name;
    cached = λ j other h. ground (arith, lookup-remove j index s.cache, c.cached j other);
  }

  -- What `open_rw` returns, and leaves.
  pub record Opened (s : FileStorage P F) (w : W) (index : ℕ)
      (out : Option F × (FileStorage P F × W)) : Type 0 where
    pub found :
        sector (s, w) index ≢ none
        → (file : F) × (out.0 ≡ some file) × (path file ≡ file_path fs s index)
    pub missing : sector (s, w) index ≡ none → out.0 ≡ none
    pub same : Same s out.1.0
    pub kept : (p : P) → contents out.1.1 p ≡ contents w p
    pub coherent : IsCoherent out.1.0 out.1.1

  pub open_rw-Opened :
      (s : FileStorage P F) (w : W) (index : ℕ)
      → IsCoherent s w
      → Opened s w index (open_rw fs index (s, w))
  unfolding open_rw
  open_rw-Opened s w index c =
      let p = file_path fs s index in
      elim (Option-cases (lookup index s.cache)) [
        | inr (file, e) ↦
            rw (open_rw, e)
              record {
                found = λ there. (file, refl, (c.cached index file e).0);
                missing = λ gone. absurd ((c.cached index file e).1 gone);
                same = record { path = λ j. refl; sec_size = refl };
                kept = λ q. refl;
                coherent = c;
              }
        | inl e ↦ elim (Option-cases (contents w p)) [
          | inl gone ↦
              rw (open_rw, e, laws.open_rw_missing p w gone)
                record {
                  found = λ there. absurd (there gone);
                  missing = λ h. refl;
                  same = record { path = λ j. refl; sec_size = refl };
                  kept = laws.contents-open_rw p w;
                  coherent = IsCoherent-congr s w _ (λ q h. rw (laws.contents-open_rw p w q) h) c;
                }
          | inr (bytes, is_some) ↦
              let there = some-ne_none is_some in
              let (file, opened, at) = laws.open_rw_in p w there in
              let c' = IsCoherent-congr s w _ (λ q h. rw (laws.contents-open_rw p w q) h) c in
              rw (open_rw, e, opened)
                record {
                  found = λ h. (file, refl, at);
                  missing = λ gone. absurd (there gone);
                  same = record { path = λ j. refl; sec_size = refl };
                  kept = laws.contents-open_rw p w;
                  coherent =
                      insert-IsCoherent s _ index file c' at
                        (rw (laws.contents-open_rw p w p) there);
                }
        ]
      ]
