-- ===== src/Kvdb/Next.antt =====
-- kvdb.rs: the search for the next node of a sector.
pub mod Range
use flash_db_rust.Base.{
  branch, Result, ℕ, zero, suc, ◌+◌, ◌-◌, Option, none, some, List, ◌&&◌, ◌||◌, Cmd, ok, err, pure,
  gets, ◌>>=◌, replicate, wrapping_add, wrapping_sub, leb, ltb, ◌==◌, if◌then◌else◌,
}
use flash_db_rust.Def.{failed_addr, wg_align}
use flash_db_rust.Def.StoreStatus
use flash_db_rust.Def.StoreStatus.{SectorStoreStatus}
use flash_db_rust.Storage.{Storage}
use flash_db_rust.Kvdb.Types.{
  Kv, KvSecInfo, Kvdb, kv_magic_word, kv_magic_offset, sector_hdr_data_size, rd_u32, on_storage,
}

-- The inner loop of `find_next_kv_addr` over one window at `start`, from offset `i`.
unfoldable pub magic_scan : ℕ → List ℕ → ℕ → ℕ → ℕ → ℕ → Option ℕ
magic_scan zero buf start start_bak end i = none
magic_scan (suc rounds) buf start start_bak end i =
    let rest = magic_scan rounds buf start start_bak end (i + 1) in
    let here = wrapping_add start i in
    if leb here end
    then (if rd_u32 buf i == kv_magic_word && leb start_bak (wrapping_sub here kv_magic_offset)
        then some (wrapping_sub here kv_magic_offset)
        else rest)
    else none

-- What follows the scan of a window: a read that fails ends the search.
unfoldable pub after_window :
    {S : Type 0} → Result (Unit {0}) → Option ℕ → Cmd (Kvdb S) ℕ → Cmd (Kvdb S) ℕ
after_window (err e) found rest = pure failed_addr
after_window (ok _) (some a) rest = pure a
after_window (ok _) none rest = rest

module _ {S : Type 0} (st : Storage S) where
  -- Windows of 32 bytes that overlap by the length of a magic word.
  unfoldable pub find_loop : ℕ → List ℕ → ℕ → ℕ → ℕ → Cmd (Kvdb S) ℕ
  find_loop zero buf start start_bak end = pure failed_addr
  find_loop (suc fuel) buf start start_bak end =
      branch (ltb start end && ltb (wrapping_add start 32) end)
        (do
          (r, window) ← on_storage (st.read start buf)
          after_window r (magic_scan 28 window start start_bak end 0)
              (find_loop fuel window (wrapping_add start 28) start_bak end))
        (pure failed_addr)

  -- Each window advances `start`, so `end - start` windows are enough.
  unfoldable pub find_next_kv_addr : ℕ → ℕ → Cmd (Kvdb S) ℕ
  find_next_kv_addr start end = find_loop (end - start) (replicate 32 0) start start end

  unfoldable pub get_next_kv_addr : KvSecInfo → Kv → Cmd (Kvdb S) ℕ
  get_next_kv_addr sector pre_kv = do
    sec_size ← gets (λ db. db.sec_size)
    let sector_end = wrapping_add sector.addr sec_size
    if StoreStatus.eq sector.store SectorStoreStatus.empty
        then pure failed_addr
        else if pre_kv.addr_start == failed_addr
        then pure (wrapping_add sector.addr sector_hdr_data_size)
        else if leb pre_kv.addr_start sector_end
        then (do
          addr ←
              find_next_kv_addr
                (if pre_kv.crc_is_ok
                  then wrapping_add pre_kv.addr_start pre_kv.len
                  else wrapping_add pre_kv.addr_start (wg_align 1))
                (wrapping_sub sector_end sector_hdr_data_size)
          pure (
              if addr == failed_addr || ltb sector_end addr || pre_kv.len == 0
              then failed_addr
              else addr))
        else pure failed_addr
