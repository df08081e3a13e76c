-- ===== src/Tsdb/Append/Order.antt =====
-- The order of time: which appends are accepted, and what they do to the time of the last log.
use flash_db_rust.Base.{
  ℕ, ◌≤◌, ◌≡◌, refl, subst, Result, ok, err, on_ok, try, branch_either, is_ok, pure, Cmd, List, [],
  ◌∷◌, ℤ, ◌<ℤ◌, arith, length, u32, ◌>>=◌, if◌then◌else◌,
}
use flash_db_rust.Storage.{Storage}
use flash_db_rust.Tsdb.Types.{Tsdb}
use flash_db_rust.Tsdb.Frame.{Same, Same-refl, Same-trans, update_sec_status-Same, write_tsl-Same}
use flash_db_rust.Tsdb.Append.{write_tsl, advance, append_at}

-- Logs whose times rise from `last` on, that are not too long.
unfoldable pub IsRising : ℕ → ℤ → List (ℤ × List ℕ) → Type 0
IsRising max_len last [] = Unit {0}
IsRising max_len last ((time, blob) ∷ logs) =
    (last <ℤ time) × (length blob ≤ max_len) × IsRising max_len time logs

module _ {S T : Type 0} (blob : List ℕ) (time : ℤ) (db : Tsdb S T) where
  -- What an append may leave: with success the new time, after a later time than the last one
  -- and data that are not too long; with an error the last time, and all options, as they were.
  unfoldable pub Outcome : Result (Unit {0}) × Tsdb S T → Type 0
  Outcome (ok _, db') =
      (length blob ≤ db.max_len)
      × (db.last_time <ℤ time)
      × (db'.last_time ≡ time)
      × (db'.max_len ≡ db.max_len)
  Outcome (err e, db') = Same db db'

module _ {S T : Type 0} (st : Storage S) where
  write_then_advance :
      (blob : List ℕ) (time : ℤ) (db db1 : Tsdb S T)
      → Same db db1
      → length blob ≤ db.max_len
      → db.last_time <ℤ time
      → (r : Result (Unit {0})) (db2 : Tsdb S T) → Same db1 db2
      → Outcome blob time db (on_ok r (λ _ db'. (ok tt, advance (u32 (length blob)) time db')) db2)
  unfolding Outcome advance
  write_then_advance blob time db db1 same short later (ok _) db2 same2 =
      (short, later, refl, (Same-trans db db1 db2 same same2).max_len)
  write_then_advance blob time db db1 same short later (err e) db2 same2 =
      Same-trans db db1 db2 same same2

  update_then_write :
      (blob : List ℕ) (time : ℤ) (db : Tsdb S T)
      → length blob ≤ db.max_len
      → db.last_time <ℤ time
      → (r : Result (Unit {0})) (db1 : Tsdb S T) → Same db db1
      → Outcome blob time db (
          on_ok r
            (λ _.
              try (write_tsl st blob time) λ _ db'. (ok tt, advance (u32 (length blob)) time db'))
            db1)
  unfolding Outcome try
  update_then_write blob time db short later (ok _) db1 same =
      write_then_advance blob time db db1 same short later _ _ (write_tsl-Same st blob time db1)
  update_then_write blob time db short later (err e) db1 same = same

  pub append_at-Outcome :
      (blob : List ℕ) (time : ℤ) (db : Tsdb S T) → Outcome blob time db (append_at st blob time db)
  unfolding append_at try Outcome
  append_at-Outcome blob time db =
      branch_either (Outcome blob time db) _ _ (λ _. Same-refl db)
        λ short.
          branch_either (Outcome blob time db) _ _ (λ _. Same-refl db)
            λ later.
              update_then_write blob time db (ground arith) (ground arith) _ _
                (update_sec_status-Same st (u32 (length blob)) time db)

  -- The logs of a list of attempts that are accepted, one after the other.
  unfoldable pub accepted : List (ℤ × List ℕ) → Cmd (Tsdb S T) (List (ℤ × List ℕ))
  accepted [] = pure []
  accepted ((time, blob) ∷ logs) = do
    r ← append_at st blob time
    rest ← accepted logs
    pure (if is_ok r then (time, blob) ∷ rest else rest)

  one_more :
      (blob : List ℕ) (time : ℤ) (db db1 : Tsdb S T) (r : Result (Unit {0}))
      (rest : List (ℤ × List ℕ))
      → Outcome blob time db (r, db1)
      → IsRising db1.max_len db1.last_time rest
      → IsRising db.max_len db.last_time (if is_ok r then (time, blob) ∷ rest else rest)
  unfolding Outcome IsRising
  one_more blob time db db1 (ok _) rest (short, later, last, max) h = (
    later,
    short,
    subst (λ n. IsRising n time rest) max (subst (λ t. IsRising db1.max_len t rest) last h),
  )
  one_more blob time db db1 (err e) rest same h =
      subst (λ n. IsRising n db.last_time rest) (same.max_len)
        (subst (λ t. IsRising db1.max_len t rest) (same.last_time) h)

  -- Whatever the backend does, and whichever attempts fail: the logs that are accepted of a
  -- sequence of attempts have times that rise strictly from the last time of the database on,
  -- and none is longer than the limit.
  pub accepted-IsRising :
      (logs : List (ℤ × List ℕ)) (db : Tsdb S T)
      → IsRising db.max_len db.last_time (accepted logs db).0
  unfolding accepted IsRising
  accepted-IsRising [] db = tt
  accepted-IsRising ((time, blob) ∷ logs) db =
      let (r, db1) = append_at st blob time db in
      one_more blob time db db1 r (accepted logs db1).0 (append_at-Outcome blob time db)
        (accepted-IsRising logs db1)
