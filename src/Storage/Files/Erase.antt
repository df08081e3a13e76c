-- ===== src/Storage/Files/Erase.antt =====
-- storage.rs: the loop of `FileStorage::erase` fills an empty file with ones.
use flash_db_rust.Base.{
  ℕ, zero, suc, ◌+◌, ◌-◌, ◌≤◌, min, ◌≡◌, refl, ◌∙◌, sym, ap, ◌≢◌, List, [], ◌∷◌, ◌++◌, some, ok,
  arith, length, take, drop, replicate, length-append, append_nil, append_assoc,
}
use flash_db_rust.Storage.Files.{fill_ones}
use flash_db_rust.Storage.Files.System.{FileSystem, IsFileSystem}

module _ {ℓ} {A : Type ℓ} where
  take_all : (xs : List A) → take (length xs) xs ≡ xs
  take_all [] = refl
  take_all (x ∷ xs) = ap (◌∷◌ x) (take_all xs)

  drop_all : (n : ℕ) (xs : List A) → length xs ≤ n → drop n xs ≡ []
  drop_all zero [] h = refl
  drop_all zero (x ∷ xs) h = absurd (omega arith)
  drop_all (suc n) [] h = refl
  drop_all (suc n) (x ∷ xs) h = drop_all n xs (omega arith)

  append-replicate : (m n : ℕ) (a : A) → replicate m a ++ replicate n a ≡ replicate (m + n) a
  append-replicate zero n a = ap (λ k. replicate k a) (omega arith)
  append-replicate (suc m) n a =
      let e : suc m + n ≡ suc (m + n) = omega arith in rw e (ap (◌∷◌ a) (append-replicate m n a))

module _ {W P F : Type 0} (fs : FileSystem W P F) (laws : IsFileSystem fs) where
  open laws use {contents, path, position}

  -- A write at the end of a file
  write_all_end :
      (file : F) (buf bytes : List ℕ) (w : W)
      → contents w (path file) ≡ some bytes
      → position w file ≡ length bytes
      → let (r, w') = fs.write_all file buf w in
        (r ≡ some tt)
        × (contents w' (path file) ≡ some (bytes ++ buf))
        × (position w' file ≡ length (bytes ++ buf))
  write_all_end file buf bytes w has at =
      let (done, filled, next) = laws.write_all_in file buf bytes w has (omega arith) in
      let all : take (length bytes) bytes ++ (buf ++ drop (length bytes + length buf) bytes)
          ≡ bytes ++ buf =
        rw (take_all, drop_all (length bytes + length buf) bytes (omega arith), append_nil) refl in
      (done, filled ∙ rw at (ap some all), next ∙ omega (arith, length-append bytes buf))

  pub fill_ones_lem :
      (fuel : ℕ) (file : F) (remaining : ℕ) (bytes : List ℕ) (w : W)
      → remaining ≤ fuel
      → contents w (path file) ≡ some bytes
      → position w file ≡ length bytes
      → let (r, w') = fill_ones fs fuel file remaining w in
        (r ≡ ok tt)
        × (contents w' (path file) ≡ some (bytes ++ replicate remaining 0xff))
        × ((p : P) → p ≢ path file → contents w' p ≡ contents w p)
  unfolding fill_ones
  fill_ones_lem zero file zero bytes w enough has at =
      (refl, has ∙ ap some (sym (append_nil bytes)), λ p ne. refl)
  fill_ones_lem zero file (suc rest) bytes w enough has at = absurd (omega arith)
  fill_ones_lem (suc fuel) file zero bytes w enough has at =
      (refl, has ∙ ap some (sym (append_nil bytes)), λ p ne. refl)
  fill_ones_lem (suc fuel) file (suc rest) bytes w enough has at =
      let n = min (suc rest) 256 in
      let ones : List ℕ = replicate n 0xff in
      let (done, filled, next) = write_all_end file ones bytes w has at in
      let (done', filled', kept) =
        fill_ones_lem fuel file (suc rest - n) (bytes ++ ones) _ (omega arith) filled next in
      let all : n + (suc rest - n) ≡ suc rest = omega arith in
      rw (fill_ones, done)
        (
          done',
          filled'
              ∙ ap some (
                  append_assoc bytes ones _
                  ∙ ap (λ (l : List ℕ). bytes ++ l)
                      (append-replicate n (suc rest - n) 0xff ∙ ap (λ k. replicate k 0xff) all)),
          λ p ne. kept p ne ∙ laws.contents-write_all_ne file ones w p ne,
        )
