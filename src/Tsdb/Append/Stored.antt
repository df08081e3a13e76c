-- ===== src/Tsdb/Append/Stored.antt =====
-- The logs that a stretch of a sector holds, as a list of times and data.
use flash_db_rust.Base.{
  ℕ, ◌+◌, ◌-◌, ◌*◌, ◌≤◌, ◌<◌, ◌≡◌, refl, ◌∙◌, sym, ◌⊎◌, inl, inr, List, [], ◌∷◌, ◌++◌, ℤ, IsI32,
  arith, length,
}
use flash_db_rust.Storage.Bytes.{slice_congr}
use flash_db_rust.Tsdb.Append.RoundTrip.{IsLog}

-- Index records rise from `idx` to `idx'`, data fall from `top` to `top'`.
unfoldable pub Stored : (ℕ → ℕ) → ℕ → ℕ → List (ℤ × List ℕ) → ℕ → ℕ → Type 0
Stored f idx top [] idx' top' = (idx' ≡ idx) × (top' ≡ top)
Stored f idx top ((time, blob) ∷ logs) idx' top' =
    (length blob ≤ top)
    × IsI32 time
    × IsLog f idx (top - length blob) time blob
    × Stored f (idx + 16) (top - length blob) logs idx' top'

module _ (f : ℕ → ℕ) where
  pub Stored-bounds :
      (idx top : ℕ) (logs : List (ℤ × List ℕ)) (idx' top' : ℕ)
      → Stored f idx top logs idx' top'
      → (idx ≤ idx') × (top' ≤ top)
  unfolding Stored
  Stored-bounds idx top [] idx' top' h = omega arith
  Stored-bounds idx top ((time, blob) ∷ logs) idx' top' (p, t, l, rest) =
      let b = Stored-bounds (idx + 16) (top - length blob) logs idx' top' rest in omega arith

  pub Stored-length :
      (idx top : ℕ) (logs : List (ℤ × List ℕ)) (idx' top' : ℕ)
      → Stored f idx top logs idx' top'
      → idx' ≡ idx + 16 * length logs
  unfolding Stored
  Stored-length idx top [] idx' top' h = omega arith
  Stored-length idx top ((time, blob) ∷ logs) idx' top' (p, t, l, rest) =
      let e = Stored-length (idx + 16) (top - length blob) logs idx' top' rest in omega arith

  -- One more log at the end.
  pub Stored-snoc :
      (idx top : ℕ) (logs : List (ℤ × List ℕ)) (idx' top' : ℕ) (time : ℤ) (blob : List ℕ)
      → Stored f idx top logs idx' top'
      → length blob ≤ top'
      → IsI32 time
      → IsLog f idx' (top' - length blob) time blob
      → Stored f idx top (logs ++ (time, blob) ∷ []) (idx' + 16) (top' - length blob)
  unfolding Stored
  Stored-snoc idx top [] idx' top' time blob (e, e') p t l = rw (← e, ← e') (p, t, l, (refl, refl))
  Stored-snoc idx top ((time', blob') ∷ logs) idx' top' time blob (q, t', l', rest) p t l =
      (q, t', l', Stored-snoc (idx + 16) (top - length blob') logs idx' top' time blob rest p t l)

  -- A medium that agrees on the records and on the data holds the same logs.
  pub Stored_congr :
      (g : ℕ → ℕ) (idx top : ℕ) (logs : List (ℤ × List ℕ)) (idx' top' : ℕ)
      → ((x : ℕ) → ((idx ≤ x) × (x < idx')) ⊎ ((top' ≤ x) × (x < top)) → f x ≡ g x)
      → Stored f idx top logs idx' top'
      → Stored g idx top logs idx' top'
  unfolding Stored
  Stored_congr g idx top [] idx' top' same h = h
  Stored_congr g idx top ((time, blob) ∷ logs) idx' top' same (p, t, l, rest) =
      let b = Stored-bounds (idx + 16) (top - length blob) logs idx' top' rest in
      (
        p,
        t,
        record {
          state = sym (same idx (inl (omega arith, omega arith))) ∙ l.state;
          index =
              slice_congr g f (idx + 4) 12 (λ x q r. sym (same x (inl (omega arith, omega arith))))
              ∙ l.index;
          content =
              slice_congr g f (top - length blob) (length blob)
                (λ x q r. sym (same x (inr (omega arith, omega arith))))
              ∙ l.content;
        },
        Stored_congr g (idx + 16) (top - length blob) logs idx' top' (λ x o. same x (omega arith))
            rest,
      )
