-- ===== src/Storage/Files/Memory.antt =====
-- A file system in memory, which does what `FileStorage` relies on.
use flash_db_rust.Base.{
  ℕ, ◌+◌, ◌≡◌, refl, ◌≢◌, List, [], ◌∷◌, ◌++◌, Bool, true, false, Option, none, some, arith, ltb,
  length, take, drop, length-drop, Option-cases, ==-cases, inl, inr, eq_bytes, eq_bytes_refl,
  if◌then◌else◌,
}
use flash_db_rust.Storage.Files.System.{FileSystem, IsFileSystem}
use flash_db_rust.Storage.Files.Names.{append_cancel}

-- A file is known by its path, so the position belongs to the path.
pub record Disk : Type 0 where
  pub bytes : List ℕ → Option (List ℕ)
  pub at : List ℕ → ℕ

abbrev pub update : {A : Type 0} → (List ℕ → A) → List ℕ → A → List ℕ → A
update f p a q = if eq_bytes q p then a else f q

abbrev pub is_some : {A : Type 0} → Option A → Bool
is_some none = false
is_some (some a) = true

abbrev pub contents_of : Option (List ℕ) → List ℕ
contents_of none = []
contents_of (some bytes) = bytes

abbrev pub memory : FileSystem Disk (List ℕ) (List ℕ)
memory = record {
  join = λ dir name. dir ++ 47 ∷ name;
  create_dir_all = λ dir d. (some tt, d);
  open_rw = λ p d. (if is_some (d.bytes p) then some p else none, d);
  open_truncate =
      λ p d. (some p, record { bytes = update d.bytes p (some []); at = update d.at p 0 });
  seek = λ p off d. (some tt, record d { at = update d.at p off });
  read_exact = λ p buf d.
      let bytes = drop (d.at p) (contents_of (d.bytes p)) in
      if ltb (length bytes) (length buf)
      then ((none, buf), d)
      else ((some tt, take (length buf) bytes), d);
  write_all = λ p buf d.
      let bytes = contents_of (d.bytes p) in
      let at = d.at p in
      (
        some tt,
        record {
          bytes = update d.bytes p (some (take at bytes ++ (buf ++ drop (at + length buf) bytes)));
          at = update d.at p (at + length buf);
        },
      );
  sync_all = λ p d. (some tt, d);
}

pub eq_bytes_ne : (q p : List ℕ) → q ≢ p → eq_bytes q p ≡ false
unfolding eq_bytes
eq_bytes_ne [] [] ne = absurd (ne refl)
eq_bytes_ne [] (c ∷ p) ne = refl
eq_bytes_ne (c ∷ q) [] ne = refl
eq_bytes_ne (c ∷ q) (d ∷ p) ne = elim (==-cases c d) [
  | inl e ↦ let tail : q ≢ p = λ e'. ne (cc) in let rest = eq_bytes_ne q p tail in ground arith
  | inr apart ↦ ground arith
]

unfoldable pub memory-IsFileSystem : IsFileSystem memory
memory-IsFileSystem = record {
  contents = λ d p. d.bytes p;
  path = λ p. p;
  position = λ d p. d.at p;
  join_inj =
      λ dir x y plain plain' e. append_cancel (47 ∷ []) x y (append_cancel dir (47 ∷ x) (47 ∷ y) e);
  create_dir_all_in = λ dir w. refl;
  contents-create_dir_all = λ dir w p. refl;
  open_rw_in = λ p w h. elim (Option-cases (w.bytes p)) [
    | inl gone ↦ absurd (h gone)
    | inr (bytes, e) ↦ (p, rw e refl, refl)
  ];
  open_rw_missing = λ p w h. rw h refl;
  contents-open_rw = λ p w q. refl;
  open_truncate_in = λ p w. (p, refl, refl, rw eq_bytes_refl refl);
  contents-open_truncate = λ p w. rw eq_bytes_refl refl;
  contents-open_truncate_ne = λ p w q ne. rw (eq_bytes_ne q p ne) refl;
  seek_in = λ p off w h. (refl, rw eq_bytes_refl refl);
  contents-seek = λ p off w q. refl;
  read_exact_in = λ p buf bytes w h fits. rw h (ground (arith, length-drop (w.at p) bytes));
  read_exact_out =
      λ p buf bytes w h some_bytes beyond. rw h (ground (arith, length-drop (w.at p) bytes));
  contents-read_exact = λ p buf w q. ground arith;
  write_all_in = λ p buf bytes w h fits. (refl, rw (eq_bytes_refl, h) refl, rw eq_bytes_refl refl);
  contents-write_all_ne = λ p buf w q ne. rw (eq_bytes_ne q p ne) refl;
  sync_all_in = λ p w h. refl;
  contents-sync_all = λ p w q. refl;
}
