-- ===== src/Tsdb/Walk/Logs.antt =====
-- What the walks over the index records of a sector list, on a byte array.
use flash_db_rust.Base.{
  ℕ, zero, suc, ◌+◌, ◌-◌, ◌*◌, ◌%◌, ◌^◌, ◌≤◌, ◌<◌, ◌≡◌, refl, ◌∙◌, sym, ap, subst, true, false,
  List, [], ◌∷◌, ◌++◌, arith, if◌then◌else◌, reverse, append_assoc, reverse-snoc, branch, try, leb,
  ◌==◌, wrapping_sub,
}
use flash_db_rust.Def.{failed_addr}
use flash_db_rust.Def.StoreStatus
use flash_db_rust.Def.StoreStatus.{SectorStoreStatus}
use flash_db_rust.Storage.{Storage}
use flash_db_rust.Storage.Laws.{IsByteArray}
use flash_db_rust.Tsdb.Types.{Tsl, TsdbSecInfo, Tsdb, Dir, get_next_tsl_addr, get_last_tsl_addr}
use flash_db_rust.Tsdb.Sector.Log.{log_at, read_tsl_lem}
use flash_db_rust.Tsdb.Walk.{step_tsl, tsl_loop, walk_tsls}
use flash_db_rust.Tsdb.Query.{push}

module _ (f : ℕ → ℕ) (max_len : ℕ) where
  -- The logs of `n + 1` index records from `a` up.
  unfoldable pub logs_up : ℕ → ℕ → List Tsl
  logs_up a zero = log_at f max_len a ∷ []
  logs_up a (suc n) = log_at f max_len a ∷ logs_up (a + 16) n

  -- The logs of `n + 1` index records from the `n`-th above `a` down to it.
  unfoldable pub logs_down : ℕ → ℕ → List Tsl
  logs_down a zero = log_at f max_len a ∷ []
  logs_down a (suc n) = log_at f max_len (a + 16 * suc n) ∷ logs_down a n

  logs_up_snoc :
      (a n : ℕ) → logs_up a (suc n) ≡ logs_up a n ++ log_at f max_len (a + 16 * suc n) ∷ []
  unfolding logs_up
  logs_up_snoc a zero = let e : a + 16 * suc 0 ≡ a + 16 = omega arith in rw e
  logs_up_snoc a (suc n) =
      let e : a + 16 * suc (suc n) ≡ a + 16 + 16 * suc n = omega arith in
      rw e (ap (◌∷◌ (log_at f max_len a)) (logs_up_snoc (a + 16) n))

  pub logs_down-reverse : (a n : ℕ) → logs_down a n ≡ reverse (logs_up a n)
  unfolding logs_down
  logs_down-reverse a zero = unfold logs_up in refl
  logs_down-reverse a (suc n) = rw (
    logs_up_snoc a n,
    reverse-snoc (logs_up a n) (log_at f max_len (a + 16 * suc n)),
    logs_down-reverse a n,
  )

next_up :
    (sector : TsdbSecInfo) (a n : ℕ)
    → StoreStatus.eq sector.status SectorStoreStatus.empty ≡ false
    → sector.end_idx ≡ a + 16 * n
    → a + 16 * n + 16 < failed_addr
    → step_tsl Dir.fwd sector a ≡ (if leb 1 n then a + 16 else failed_addr)
unfolding step_tsl get_next_tsl_addr
next_up sector a n h e small =
    let wrap : (a + 16) % 2 ^ 32 ≡ a + 16 = omega arith in rw (h, wrap, e) (ground arith)

next_down :
    (sector : TsdbSecInfo) (a n : ℕ)
    → StoreStatus.eq sector.status SectorStoreStatus.empty ≡ false
    → sector.addr + 32 ≡ a
    → a + 16 * n + 16 < failed_addr
    → step_tsl Dir.rev sector (a + 16 * n) ≡ (if leb 1 n then a + 16 * n - 16 else failed_addr)
unfolding step_tsl get_last_tsl_addr
next_down sector a n h e small =
    let first : ((sector.addr + 32) % 2 ^ 32 + 16) % 2 ^ 32 ≡ a + 16 = omega arith in
    let back : 16 ≤ a + 16 * n → wrapping_sub (a + 16 * n) 16 ≡ a + 16 * n - 16 =
      λ p. omega arith in
    rw (h, first) (ground arith)

module _ {S T : Type 0} (st : Storage S) (arr : IsByteArray st) (sector : TsdbSecInfo)
    (db : Tsdb S T) (in_use : StoreStatus.eq sector.status SectorStoreStatus.empty ≡ false) where
  open arr use {capacity, byte}

  tsl_loop-up :
      (fuel n a : ℕ) (out : List Tsl)
      → n < fuel
      → sector.end_idx ≡ a + 16 * n
      → a + 16 * n + 16 < failed_addr
      → a + 16 * n + 16 ≤ capacity db.storage
      → tsl_loop st Dir.fwd push fuel sector a out db
        ≡ ((false, out ++ logs_up (byte db.storage) db.max_len a n), db)
  unfolding tsl_loop logs_up branch try
  tsl_loop-up zero n a out f e small fits = absurd (omega arith)
  tsl_loop-up (suc fuel) zero a out f e small fits =
      rw (read_tsl_lem st arr a db (omega arith), next_up sector a zero in_use e small)
  tsl_loop-up (suc fuel) (suc n) a out f e small fits =
      let more : leb 1 (suc n) ≡ true = ground arith in
      let inside : (a + 16 == failed_addr) ≡ false = ground arith in
      let here = log_at (byte db.storage) db.max_len a in
      let rest =
        tsl_loop-up fuel n (a + 16) (out ++ here ∷ []) (omega arith) (omega arith) (omega arith)
          (omega arith) in
      rw
        (
          read_tsl_lem st arr a db (omega arith),
          next_up sector a (suc n) in_use e small,
          more,
          inside,
        )
        (rest ∙ ap (λ (l : List Tsl). ((false, l), db)) (append_assoc out (here ∷ []) _))

  tsl_loop-down :
      (fuel n a : ℕ) (out : List Tsl)
      → n < fuel
      → sector.addr + 32 ≡ a
      → a + 16 * n + 16 < failed_addr
      → a + 16 * n + 16 ≤ capacity db.storage
      → tsl_loop st Dir.rev push fuel sector (a + 16 * n) out db
        ≡ ((false, out ++ logs_down (byte db.storage) db.max_len a n), db)
  unfolding tsl_loop logs_down branch try
  tsl_loop-down zero n a out f e small fits = absurd (omega arith)
  tsl_loop-down (suc fuel) zero a out f e small fits =
      let here : a + 16 * 0 ≡ a = omega arith in
      rw (read_tsl_lem st arr (a + 16 * 0) db fits, next_down sector a zero in_use e small, here)
  tsl_loop-down (suc fuel) (suc n) a out f e small fits =
      let more : leb 1 (suc n) ≡ true = ground arith in
      let below : a + 16 * suc n - 16 ≡ a + 16 * n = omega arith in
      let inside : (a + 16 * n == failed_addr) ≡ false = ground arith in
      let here = log_at (byte db.storage) db.max_len (a + 16 * suc n) in
      let rest =
        tsl_loop-down fuel n a (out ++ here ∷ []) (omega arith) e (omega arith) (omega arith) in
      rw
        (
          read_tsl_lem st arr (a + 16 * suc n) db fits,
          next_down sector a (suc n) in_use e small,
          more,
          below,
          inside,
        )
        (rest ∙ ap (λ (l : List Tsl). ((false, l), db)) (append_assoc out (here ∷ []) _))

  -- On a byte array, for a sector that is not empty and has `n + 1` index records inside the
  -- medium, the walk forward lists the logs of all its records in the order of their addresses,
  -- the walk in reverse lists the same logs in the opposite order, and neither changes anything.
  pub walk_tsls-reverse :
      (n : ℕ)
      → sector.end_idx ≡ sector.addr + 32 + 16 * n
      → sector.end_idx + 16 < failed_addr
      → sector.end_idx + 16 ≤ capacity db.storage
      → let up = logs_up (byte db.storage) db.max_len (sector.addr + 32) n in
        (walk_tsls st Dir.fwd push sector (sector.addr + 32) [] db ≡ ((false, up), db))
        × (walk_tsls st Dir.rev push sector sector.end_idx [] db ≡ ((false, reverse up), db))
  unfolding walk_tsls
  walk_tsls-reverse n e small fits =
      let down =
        tsl_loop-down (sector.end_idx + 2) n (sector.addr + 32) [] (omega arith) refl (omega arith)
          (omega arith) in
      (
        tsl_loop-up (sector.end_idx + 2) n (sector.addr + 32) [] (omega arith) e (omega arith)
            (omega arith),
        subst
            (λ b.
              tsl_loop st Dir.rev push (sector.end_idx + 2) sector b [] db
              ≡ ((false, reverse (logs_up (byte db.storage) db.max_len (sector.addr + 32) n)), db))
            (sym e) (rw (← logs_down-reverse) down),
      )
