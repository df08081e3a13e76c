-- ===== src/Tsdb/Search/Found.antt =====
-- What the binary search of a sector finds, on a byte array whose records have rising times.
use flash_db_rust.Base.{
  ℕ, zero, suc, ◌+◌, ◌-◌, ◌*◌, ◌/◌, ◌%◌, ◌^◌, ◌≤◌, ◌<◌, ◌≡◌, refl, ◌∙◌, sym, subst, ◌⊎◌, inl, inr,
  true, false, branch, branch_either, ℤ, ltb_ℤ, ◌<ℤ◌, ◌≤ℤ◌, arith,
}
use flash_db_rust.Storage.{Storage}
use flash_db_rust.Storage.Laws.{IsByteArray}
use flash_db_rust.Tsdb.Types.{Tsdb}
use flash_db_rust.Tsdb.Sector.Log.{log_at, read_tsl_lem}
use flash_db_rust.Tsdb.Search.Cut.{IsCut, rising_le, IsCut-inside, IsCut-positive}
use flash_db_rust.Tsdb.Search.{mid_index, settle_start, search_loop, search_start_tsl_addr}

mid_lem :
    (a p q : ℕ)
    → p ≤ q
    → a + 16 * q + 16 < 2 ^ 32
    → mid_index (a + 16 * p) (a + 16 * q) ≡ a + 16 * (p + (q - p + 1) / 2)
mid_lem a p q h small = omega arith

module _ {S T : Type 0} (st : Storage S) (arr : IsByteArray st) (a n : ℕ) (from to : ℤ)
    (db : Tsdb S T) where
  open arr use {capacity, byte}

  -- The time of the record with index `i`.
  abbrev pub time_at : ℕ → ℤ
  time_at i = (log_at (byte db.storage) db.max_len (a + 16 * i)).time

  -- A search that ends at `k`: either there is a record with the very time, or the end of the
  -- search is left.
  pub record Ends (result : ℕ × Tsdb S T) : Type 0 where
    pub place : ℕ
    pub cut : IsCut time_at n from place
    pub how :
        ((result ≡ (a + 16 * place, db)) × (place ≤ n) × (time_at place ≤ℤ from))
        ⊎ (result ≡ settle_start st (a + 16 * place) from to db)

  settled : (k : ℕ) → IsCut time_at n from k → Ends (settle_start st (a + 16 * k) from to db)
  settled k cut = record { place = k; cut = cut; how = inr refl }

  module _ (rising : (i j : ℕ) → i < j → j ≤ n → time_at i <ℤ time_at j)
      (small : a + 16 * n + 32 < 2 ^ 32) (fits : a + 16 * n + 16 ≤ capacity db.storage)
      (start : 16 ≤ a) where
    search_loop-Ends :
        (fuel p q : ℕ)
        → p ≤ q
        → q ≤ n
        → q - p < fuel
        → ((i : ℕ) → i < p → time_at i <ℤ from)
        → ((i : ℕ) → q < i → i ≤ n → from ≤ℤ time_at i)
        → Ends (search_loop st fuel (a + 16 * p) (a + 16 * q) from to db)
    unfolding search_loop
    search_loop-Ends zero p q order inside enough below above = absurd (omega arith)
    search_loop-Ends (suc fuel) p q order inside enough below above =
        let m = p + (q - p + 1) / 2 in
        let read = read_tsl_lem st arr (a + 16 * m) db (omega arith) in
        let mono = rising_le time_at n rising in
        rw (mid_lem a p q order (omega arith), read)
          (branch_either Ends _ _
            (λ early.
              let before : time_at m <ℤ from = ground arith in
              let below' : (i : ℕ) → i < suc m → time_at i <ℤ from =
                λ i l. let r = mono i m (omega arith) (omega arith) in omega arith in
              let next : a + 16 * m + 16 ≡ a + 16 * suc m = omega arith in
              rw next (
                branch_either Ends _ _
                  (λ done. settled (suc m) (record {
                    inside = omega arith;
                    below = below';
                    above = λ i l b. above i (ground arith) b;
                  }))
                  λ more.
                    let room : suc m ≤ q = ground arith in
                    search_loop-Ends fuel (suc m) q room inside (omega arith) below' above))
            λ not_early.
              let after : from ≤ℤ time_at m = ground arith in
              let above' : (i : ℕ) → m ≤ i → i ≤ n → from ≤ℤ time_at i =
                λ i l b. let r = mono m i l b in omega arith in
              branch_either Ends _ _
                (λ late.
                  branch_either Ends _ _
                    (λ done. settled p (record {
                      inside = omega arith;
                      below = below;
                      above = λ i l b. above' i (ground arith) b;
                    }))
                    λ more.
                      let room : p < m = ground arith in
                      let prev : a + 16 * m - 16 ≡ a + 16 * (m - 1) = omega arith in
                      rw prev (
                        search_loop-Ends fuel p (m - 1) (omega arith) (omega arith) (omega arith)
                          below λ i l b. above' i (omega arith) b))
                λ not_late. record {
                  place = m;
                  cut = record {
                    inside = omega arith;
                    below = λ i l. let r = rising i m l (omega arith) in ground arith;
                    above = above';
                  };
                  how = inl (refl, omega arith, ground arith);
                })

    search_start_tsl_addr-Ends : Ends (search_start_tsl_addr st a (a + 16 * n) from to db)
    unfolding search_start_tsl_addr
    search_start_tsl_addr-Ends =
        let first : a + 16 * 0 ≡ a = omega arith in
        subst (λ x. Ends (search_loop st (a + 16 * n - a + 1) x (a + 16 * n) from to db)) first
          (search_loop-Ends (a + 16 * n - a + 1) 0 n (omega arith) (omega arith) (omega arith)
            (λ i l. absurd (omega arith)) λ i l b. absurd (omega arith))

  -- The search ended at the index record `place`, which is as `Q` says, and changed nothing.
  pub record Finds (Q : ℕ → Type 0) (result : ℕ × Tsdb S T) : Type 0 where
    pub place : ℕ
    pub holds : Q place
    pub found : result ≡ (a + 16 * place, db)

  -- The last record with a time of at most `from`.
  pub record IsLast (k : ℕ) : Type 0 where
    pub inside : k ≤ n
    pub reached : time_at k ≤ℤ from
    pub later : (i : ℕ) → k < i → i ≤ n → from <ℤ time_at i

  module _ (rising : (i j : ℕ) → i < j → j ≤ n → time_at i <ℤ time_at j)
      (small : a + 16 * n + 32 < 2 ^ 32) (fits : a + 16 * n + 16 ≤ capacity db.storage)
      (start : 16 ≤ a) where
    -- On a byte array, in a sector with `n + 1` index records whose times rise strictly, the
    -- search for a range that does not run backwards finds the first record whose time is not
    -- before the start of the range, or the place after the last record if there is none: all
    -- records below have an earlier time and none from it on has. It changes nothing.
    pub search_start_tsl_addr-IsCut :
        from ≤ℤ to
        → Finds (IsCut time_at n from) (search_start_tsl_addr st a (a + 16 * n) from to db)
    unfolding settle_start branch
    search_start_tsl_addr-IsCut forward =
        let ends = search_start_tsl_addr-Ends rising small fits start in
        let k = ends.place in
        let inside = ends.cut.inside in
        record {
          place = k;
          holds = ends.cut;
          found = elim (ends.how) [
            | inl (e, _, _) ↦ e
            | inr e ↦
                let away : ltb_ℤ to from ≡ false = ground arith in
                let wrap : (a + 16 * k) % 2 ^ 32 ≡ a + 16 * k = omega arith in
                e ∙ rw (away, wrap) refl
          ];
        }

    settle_start-IsLast :
        to <ℤ from
        → time_at 0 ≤ℤ from
        → from <ℤ time_at n
        → (k : ℕ) → IsCut time_at n from k
        → Finds IsLast (settle_start st (a + 16 * k) from to db)
    unfolding settle_start branch
    settle_start-IsLast backward low high k cut =
        let back : ltb_ℤ to from ≡ true = ground arith in
        let inside = IsCut-inside time_at n from k cut high in
        let wrap : (a + 16 * k) % 2 ^ 32 ≡ a + 16 * k = omega arith in
        let read = read_tsl_lem st arr (a + 16 * k) db (omega arith) in
        let here = cut.above k (omega arith) inside in
        let c : (from <ℤ time_at k) ⊎ (time_at k ≤ℤ from) = omega arith in
        elim c [
          | inl after ↦
              let e : ltb_ℤ from (time_at k) ≡ true = ground arith in
              let some_before = IsCut-positive time_at n from k after low in
              let prev : (a + 16 * k - 16) % 2 ^ 32 ≡ a + 16 * (k - 1) = omega arith in
              let before = cut.below (k - 1) (omega arith) in
              rw (back, wrap, read, e, prev)
                (record {
                  place = k - 1;
                  holds = record {
                    inside = omega arith;
                    reached = omega arith;
                    later = λ i l b.
                        let r = rising_le time_at n rising k i (omega arith) b in omega arith;
                  };
                  found = refl;
                })
          | inr not_after ↦
              let e : ltb_ℤ from (time_at k) ≡ false = ground arith in
              rw (back, wrap, read, e, wrap)
                (record {
                  place = k;
                  holds = record {
                    inside = inside;
                    reached = not_after;
                    later = λ i l b. let r = rising k i l b in omega arith;
                  };
                  found = refl;
                })
        ]

    -- On a byte array, in a sector with `n + 1` index records whose times rise strictly, the
    -- search for a range that runs backwards, and starts at a time that is not before the first
    -- record and is before the last one, finds the last record whose time is not after the start
    -- of the range. It changes nothing.
    pub search_start_tsl_addr-IsLast :
        to <ℤ from
        → time_at 0 ≤ℤ from
        → from <ℤ time_at n
        → Finds IsLast (search_start_tsl_addr st a (a + 16 * n) from to db)
    search_start_tsl_addr-IsLast backward low high =
        let ends = search_start_tsl_addr-Ends rising small fits start in
        let k = ends.place in
        elim (ends.how) [
          | inl (e, inside, reached) ↦ record {
            place = k;
            holds = record {
              inside = inside;
              reached = reached;
              later = λ i l b.
                  let r = rising k i l b in
                  let p = ends.cut.above k (omega arith) inside in omega arith;
            };
            found = e;
          }
          | inr e ↦ subst (Finds IsLast) (sym e) (settle_start-IsLast backward low high k ends.cut)
        ]
