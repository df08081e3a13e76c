-- ===== src/Tsdb/Append/Refused.antt =====
-- Appends that are refused before anything is written.
use flash_db_rust.Base.{
  ℕ, ◌<◌, ◌≡◌, refl, ◌⊎◌, inl, inr, false, is_ok, Cmd, List, length, ℤ, ◌≤ℤ◌, arith, branch, try,
  branch_either, Result, ok, err, on_ok,
}
use flash_db_rust.Def.StoreStatus.{SectorStoreStatus}
use flash_db_rust.Storage.{Storage}
use flash_db_rust.Tsdb.Types.{Tsdb}
use flash_db_rust.Tsdb.Append.{append_at, tsl_append, append_with_ts, update_sec_status}

module _ {S T : Type 0} where
  -- The reasons to refuse a log: the database is not open, the data are too long, the time is not
  -- after the last one, or the current sector is full and there is no next one.
  abbrev pub IsRefused : List ℕ → ℤ → Tsdb S T → Type 0
  IsRefused blob time db =
      (db.init_ok ≡ false)
      ⊎ (db.max_len < length blob)
      ⊎ (time ≤ℤ db.last_time)
      ⊎ (db.cur_sec.status ≡ SectorStoreStatus.full)

  try_refused :
      {A B : Type 0} (m : Cmd (Tsdb S T) (Result A)) (f : A → Cmd (Tsdb S T) (Result B))
      (db : Tsdb S T)
      → (is_ok (m db).0 ≡ false) × ((m db).1 ≡ db)
      → (is_ok (try m f db).0 ≡ false) × ((try m f db).1 ≡ db)
  unfolding try
  try_refused {A} m f db (failed, same) = go (m db).0 failed
    where
      go :
          (r : Result A)
          → is_ok r ≡ false
          → (is_ok (on_ok r f (m db).1).0 ≡ false) × ((on_ok r f (m db).1).1 ≡ db)
      go (ok a) h = absurd (ground arith)
      go (err e) h = (refl, same)

  module _ (st : Storage S) (get_time : Cmd T ℤ) where
    full_lem :
        (n : ℕ) (time : ℤ) (db : Tsdb S T)
        → db.cur_sec.status ≡ SectorStoreStatus.full
        → (is_ok (update_sec_status st n time db).0 ≡ false)
          × ((update_sec_status st n time db).1 ≡ db)
    unfolding update_sec_status branch
    full_lem n time db full = rw full (refl, refl)

    -- Whatever the backend is: an append for which there is one of these reasons to refuse it
    -- returns an error and leaves the database, its medium included, as it was.
    pub append_with_ts-IsRefused :
        (blob : List ℕ) (time : ℤ) (db : Tsdb S T)
        → IsRefused blob time db
        → let (r, db') = append_with_ts st get_time blob time db in (is_ok r ≡ false) × (db' ≡ db)
    unfolding append_with_ts tsl_append append_at
    append_with_ts-IsRefused blob time db refused =
        let P : Result (Unit {0}) × Tsdb S T → Type 0 = λ p. (is_ok p.0 ≡ false) × (p.1 ≡ db) in
        branch_either P _ _ (λ _. (refl, refl))
          λ opened.
            branch_either P _ _ (λ _. (refl, refl))
              λ short.
                branch_either P _ _ (λ _. (refl, refl))
                  λ later. try_refused (update_sec_status st _ time) _ db (
                    full_lem _ time db (elim refused [
                      | inl closed ↦ absurd (ground arith)
                      | inr (inl long) ↦ absurd (ground arith)
                      | inr (inr (inl early)) ↦ absurd (ground arith)
                      | inr (inr (inr full)) ↦ full
                    ]))
