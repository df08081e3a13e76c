-- ===== src/Tsdb/Search/Cut.antt =====
-- The place in a sequence of rising times where a search for a time ends.
use flash_db_rust.Base.{
  ℕ, zero, suc, ◌+◌, ◌≤◌, ◌<◌, ◌≡◌, subst, ◌⊎◌, inl, inr, ℤ, ◌<ℤ◌, ◌≤ℤ◌, arith,
}

module _ (t : ℕ → ℤ) (n : ℕ) where
  -- The records from 0 to `n` with a time before `from` are those below `k`.
  pub record IsCut (from : ℤ) (k : ℕ) : Type 0 where
    pub inside : k ≤ n + 1
    pub below : (i : ℕ) → i < k → t i <ℤ from
    pub above : (i : ℕ) → k ≤ i → i ≤ n → from ≤ℤ t i

  pub rising_le : ((i j : ℕ) → i < j → j ≤ n → t i <ℤ t j) → (i j : ℕ) → i ≤ j → j ≤ n → t i ≤ℤ t j
  rising_le rising i j h b =
      let c : (i < j) ⊎ (i ≡ j) = omega arith in
      elim c [
        | inl l ↦ let r = rising i j l b in omega arith
        | inr e ↦ subst (λ x. t i ≤ℤ t x) e (omega arith)
      ]

  pub IsCut-inside : (from : ℤ) (k : ℕ) → IsCut from k → from <ℤ t n → k ≤ n
  IsCut-inside from k cut high =
      let c : (k ≤ n) ⊎ (n < k) = omega arith in
      elim c [ inl l ↦ l | inr g ↦ let below = cut.below n g in absurd (omega arith) ]

  pub IsCut-positive : (from : ℤ) (k : ℕ) → from <ℤ t k → t 0 ≤ℤ from → 0 < k
  IsCut-positive from zero after low = absurd (omega arith)
  IsCut-positive from (suc k) after low = omega arith
