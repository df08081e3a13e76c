-- ===== src/Storage/Files/System.antt =====
-- The calls of `std::fs` that `FileStorage` makes, as parameters, and what it relies on of them.
use flash_db_rust.Base.{
  ℕ, ◌+◌, ◌≤◌, ◌<◌, ◌≡◌, ◌≢◌, List, [], ◌∷◌, ◌++◌, Option, none, some, Cmd, length, take, drop,
}

-- Over the state `W` of the world, with paths `P` and open files `F`. An error is `none`, since
-- the source drops it. `read_exact` also returns the caller's buffer after the call.
pub record FileSystem (W P F : Type 0) : Type 0 where
  pub join : P → List ℕ → P
  pub create_dir_all : P → Cmd W (Option (Unit {0}))
  -- `OpenOptions` with `read` and `write`
  pub open_rw : P → Cmd W (Option F)
  -- `OpenOptions` with `read`, `write`, `create` and `truncate`
  pub open_truncate : P → Cmd W (Option F)
  pub seek : F → ℕ → Cmd W (Option (Unit {0}))
  pub read_exact : F → List ℕ → Cmd W (Option (Unit {0}) × List ℕ)
  pub write_all : F → List ℕ → Cmd W (Option (Unit {0}))
  pub sync_all : F → Cmd W (Option (Unit {0}))

-- A file name that is not empty, `.` or `..`, without the separator.
unfoldable pub HasNoSlash : List ℕ → Type 0
HasNoSlash [] = Unit
HasNoSlash (c ∷ name) = (c ≢ 47) × HasNoSlash name

abbrev pub IsPlain : List ℕ → Type 0
IsPlain name = (2 < length name) × HasNoSlash name

-- The documented behaviour, where no call fails for a reason outside the program. A file is the
-- one at its path, with a position.
pub record IsFileSystem {W P F : Type 0} (fs : FileSystem W P F) : Type 0 where
  pub contents : W → P → Option (List ℕ)
  pub path : F → P
  pub position : W → F → ℕ
  pub join_inj :
      (dir : P) (x y : List ℕ) → IsPlain x → IsPlain y → fs.join dir x ≡ fs.join dir y → x ≡ y
  pub create_dir_all_in : (dir : P) (w : W) → (fs.create_dir_all dir w).0 ≡ some tt
  pub contents-create_dir_all :
      (dir : P) (w : W) (p : P) → contents (fs.create_dir_all dir w).1 p ≡ contents w p
  pub open_rw_in :
      (p : P) (w : W)
      → contents w p ≢ none
      → (file : F) × ((fs.open_rw p w).0 ≡ some file) × (path file ≡ p)
  pub open_rw_missing : (p : P) (w : W) → contents w p ≡ none → (fs.open_rw p w).0 ≡ none
  pub contents-open_rw : (p : P) (w : W) (q : P) → contents (fs.open_rw p w).1 q ≡ contents w q
  pub open_truncate_in :
      (p : P) (w : W)
      → let (r, w') = fs.open_truncate p w in
        (file : F) × (r ≡ some file) × (path file ≡ p) × (position w' file ≡ 0)
  pub contents-open_truncate : (p : P) (w : W) → contents (fs.open_truncate p w).1 p ≡ some []
  pub contents-open_truncate_ne :
      (p : P) (w : W) (q : P) → q ≢ p → contents (fs.open_truncate p w).1 q ≡ contents w q
  pub seek_in :
      (file : F) (off : ℕ) (w : W)
      → contents w (path file) ≢ none
      → let (r, w') = fs.seek file off w in (r ≡ some tt) × (position w' file ≡ off)
  pub contents-seek :
      (file : F) (off : ℕ) (w : W) (q : P) → contents (fs.seek file off w).1 q ≡ contents w q
  pub read_exact_in :
      (file : F) (buf bytes : List ℕ) (w : W)
      → contents w (path file) ≡ some bytes
      → position w file + length buf ≤ length bytes
      → (fs.read_exact file buf w).0 ≡ (some tt, take (length buf) (drop (position w file) bytes))
  pub read_exact_out :
      (file : F) (buf bytes : List ℕ) (w : W)
      → contents w (path file) ≡ some bytes
      → 0 < length buf
      → length bytes < position w file + length buf
      → (fs.read_exact file buf w).0.0 ≡ none
  pub contents-read_exact :
      (file : F) (buf : List ℕ) (w : W) (q : P)
      → contents (fs.read_exact file buf w).1 q ≡ contents w q
  pub write_all_in :
      (file : F) (buf bytes : List ℕ) (w : W)
      → contents w (path file) ≡ some bytes
      → position w file ≤ length bytes
      → let (r, w') = fs.write_all file buf w in
        let at = position w file in
        (r ≡ some tt)
        × (contents w' (path file) ≡ some (take at bytes ++ (buf ++ drop (at + length buf) bytes)))
        × (position w' file ≡ at + length buf)
  pub contents-write_all_ne :
      (file : F) (buf : List ℕ) (w : W) (q : P)
      → q ≢ path file
      → contents (fs.write_all file buf w).1 q ≡ contents w q
  pub sync_all_in :
      (file : F) (w : W) → contents w (path file) ≢ none → (fs.sync_all file w).0 ≡ some tt
  pub contents-sync_all :
      (file : F) (w : W) (q : P) → contents (fs.sync_all file w).1 q ≡ contents w q
