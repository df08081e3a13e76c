-- ===== src/Flash.antt =====
-- flash.rs: status words and scans on a backend.
pub mod Laws
pub mod Wrote
pub mod Erased
pub mod Tests
use flash_db_rust.Base.{
  ℕ, zero, suc, ◌+◌, ◌-◌, Bool, false, Option, none, some, List, [], ◌∷◌, ◌++◌, not, ◌&&◌, Cmd,
  Result, ok, pure, ◌>>=◌, get_or, take, drop, replicate, wrapping_add, leb, ltb, ◌==◌,
  if◌then◌else◌,
}
use flash_db_rust.Def.{byte_erased, byte_written, status_table_size, wg_align}
use flash_db_rust.Status.{set_status, get_status}
use flash_db_rust.Storage.{Storage}

abbrev status_scratch : ℕ
status_scratch = 4

-- The inner loop of `continue_ff_addr` over a chunk that starts at `pos`: the last byte seen,
-- and where the erased bytes that end there begin.
unfoldable pub ff_scan : ℕ → List ℕ → ℕ → ℕ → ℕ × ℕ
ff_scan pos [] last_data addr = (last_data, addr)
ff_scan pos (b ∷ bs) last_data addr =
    ff_scan (pos + 1) bs b
      (if not (last_data == byte_erased) && b == byte_erased then pos else addr)

module _ {S : Type 0} (st : Storage S) where
  -- Programs the byte of a table that `set_status` names, if it names one.
  unfoldable pub program_table : ℕ → Bool → Option ℕ × List ℕ → Cmd S (Result (Unit {0}))
  program_table addr sync (none, table) = pure (ok tt)
  program_table addr sync (some i, table) =
      st.write (wrapping_add addr i) (get_or table i 0 ∷ []) sync

  unfoldable pub write_status : ℕ → ℕ → ℕ → Bool → Cmd S (Result (Unit {0}))
  unfolding program_table
  write_status addr status_num status_index sync =
      program_table addr sync (set_status (replicate status_scratch 0xff) status_num status_index)

  -- A failed read leaves the erased pattern in the buffer.
  unfoldable pub read_status : ℕ → ℕ → Cmd S ℕ
  read_status addr total_num = do
    (_, table) ← st.read addr (replicate (status_table_size total_num) 0xff)
    pure (get_status table total_num)

  -- The outer loop of `continue_ff_addr`: chunks of at most 32 bytes, `buf` the scratch buffer.
  unfoldable pub ff_loop : ℕ → List ℕ → ℕ → ℕ → ℕ → ℕ → Cmd S (ℕ × ℕ)
  ff_loop zero buf start end last_data addr = pure (last_data, addr)
  ff_loop (suc fuel) buf start end last_data addr =
      if ltb start end
      then (do
        let read_size = if leb (wrapping_add start 32) end then 32 else end - start
        (_, chunk) ← st.read start (take read_size buf)
        let found = ff_scan start chunk last_data addr
        ff_loop fuel (chunk ++ drop read_size buf) (wrapping_add start 32) end found.0 found.1)
      else pure (last_data, addr)

  -- Each round advances `start`, so `end - start` rounds are enough.
  unfoldable pub continue_ff_addr : ℕ → ℕ → Cmd S ℕ
  continue_ff_addr start end = do
    (last_data, addr) ← ff_loop (end - start) (replicate 32 0) start end byte_written start
    pure (if last_data == byte_erased then wg_align addr else end)

  unfoldable pub write_align : ℕ → List ℕ → Cmd S (Result (Unit {0}))
  write_align addr [] = pure (ok tt)
  write_align addr (b ∷ bs) = st.write addr (b ∷ bs) false
