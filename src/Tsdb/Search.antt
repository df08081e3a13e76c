-- ===== src/Tsdb/Search.antt =====
-- tsdb.rs: the binary search for the first log of a time range in a sector.
pub mod Cut
pub mod Found
use flash_db_rust.Base.{
  ℕ, zero, suc, ◌+◌, ◌-◌, ◌/◌, Cmd, pure, branch, ◌>>=◌, ℤ, ltb_ℤ, u32, ltb, if◌then◌else◌,
}
use flash_db_rust.Storage.{Storage}
use flash_db_rust.Tsdb.Types.{Tsl, Tsdb, log_idx_data_size, align_up}
use flash_db_rust.Tsdb.Sector.{read_tsl}

-- The place that a round looks at. The source computes it in `i64`, where a range that has run
-- out gives `start`, as here.
abbrev pub mid_index : ℕ → ℕ → ℕ
mid_index start end = u32 (start + align_up ((end - start) / 2) log_idx_data_size)

module _ {S T : Type 0} (st : Storage S) where
  -- The end of the search: in reverse the place may be one too far.
  unfoldable pub settle_start : ℕ → ℤ → ℤ → Cmd (Tsdb S T) ℕ
  settle_start start from to =
      branch (ltb_ℤ to from)
        (do
          tsl ← read_tsl st (u32 start)
          pure (u32 (if ltb_ℤ from tsl.time then start - log_idx_data_size else start)))
        (pure (u32 start))

  -- `start` and `end` are addresses of index records, at least 32, so that no difference in the
  -- source is negative but that of a range that has run out.
  unfoldable pub search_loop : ℕ → ℕ → ℕ → ℤ → ℤ → Cmd (Tsdb S T) ℕ
  search_loop zero start end from to = pure (u32 start)
  search_loop (suc fuel) start end from to = do
    let mid = mid_index start end
    tsl ← read_tsl st mid
    branch (ltb_ℤ tsl.time from)
        (branch (ltb end (mid + log_idx_data_size)) (settle_start (mid + log_idx_data_size) from to)
          (search_loop fuel (mid + log_idx_data_size) end from to))
        (branch (ltb_ℤ from tsl.time)
          (branch (ltb (mid - log_idx_data_size) start) (settle_start start from to)
            (search_loop fuel start (mid - log_idx_data_size) from to))
          (pure mid))

  -- Each round leaves fewer index records, so a round for each byte of the range is enough.
  unfoldable pub search_start_tsl_addr : ℕ → ℕ → ℤ → ℤ → Cmd (Tsdb S T) ℕ
  search_start_tsl_addr start end from to = search_loop (end - start + 1) start end from to
