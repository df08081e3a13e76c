-- ===== src/Tsdb/Query.antt =====
-- tsdb.rs: the queries, which list logs in storage order, in reverse or by time.
pub mod Frame
pub mod Callback
use flash_db_rust.Base.{
  ℕ, zero, suc, ◌+◌, ◌-◌, ◌*◌, ◌/◌, Bool, true, false, List, [], ◌∷◌, ◌++◌, not, ◌&&◌, ◌||◌, Cmd,
  is_ok, pure, gets, branch, ◌>>=◌, length, take, replicate, ℤ, leb_ℤ, wrapping_add, wrapping_sub,
  u32, ltb, ◌==◌, if◌then◌else◌,
}
use flash_db_rust.Def.{wg_align}
use flash_db_rust.Def.TslStatus
use flash_db_rust.Def.TslStatus.{TslStatus}
use flash_db_rust.Def.StoreStatus
use flash_db_rust.Def.StoreStatus.{SectorStoreStatus}
use flash_db_rust.Storage.{Storage}
use flash_db_rust.Tsdb.Types.{
  Tsl, TsdbSecInfo, Tsdb, Dir, blank_sector, sector_hdr_data_size, log_idx_data_size,
}
use flash_db_rust.Tsdb.Sector.{read_sector_info}
use flash_db_rust.Tsdb.Append.{read_log}
use flash_db_rust.Tsdb.Walk.{Visit, walk_sectors, walk_tsls}
use flash_db_rust.Tsdb.Search.{search_start_tsl_addr}

-- A sector that holds logs.
abbrev pub in_use : TsdbSecInfo → Bool
in_use s =
    StoreStatus.eq s.status SectorStoreStatus.using
    || StoreStatus.eq s.status SectorStoreStatus.full

-- For the sector in use the descriptor in memory is the one that is up to date.
abbrev pub up_to_date : TsdbSecInfo → TsdbSecInfo → TsdbSecInfo
up_to_date cur s = if StoreStatus.eq s.status SectorStoreStatus.using then cur else s

-- The address of the first index record of a sector.
abbrev pub first_tsl : TsdbSecInfo → ℕ
first_tsl s = wrapping_add s.addr sector_hdr_data_size

abbrev pub push : Tsl → List Tsl → Bool × List Tsl
push tsl out = (false, out ++ tsl ∷ [])

unfoldable pub in_range : Dir → ℤ → ℤ → ℤ → Bool
in_range Dir.fwd from to time = leb_ℤ from time && leb_ℤ time to
in_range Dir.rev from to time = leb_ℤ time from && leb_ℤ to time

-- The body of the inner loop of `collect_by_time`: a log out of range ends it.
unfoldable pub push_in_range : Dir → ℤ → ℤ → Tsl → List Tsl → Bool × List Tsl
push_in_range dir from to tsl out =
    if TslStatus.eq tsl.status TslStatus.unused
    then (false, out)
    else if in_range dir from to tsl.time
    then (false, out ++ tsl ∷ [])
    else (true, out)

-- Whether the logs of a sector can start the range; `first` is for the sector of the start.
unfoldable pub may_start : Dir → Bool → ℤ → TsdbSecInfo → Bool
may_start Dir.fwd first from s = first && leb_ℤ from s.start_time || leb_ℤ from s.end_time
may_start Dir.rev first from s = first && leb_ℤ s.end_time from || leb_ℤ s.start_time from

-- The logs of a list that have a status.
abbrev pub count_status : TslStatus → List Tsl → ℕ
count_status status [] = 0
count_status status (tsl ∷ tsls) =
    let rest = count_status status tsls in if TslStatus.eq tsl.status status then suc rest else rest

-- The address that a walk by time starts from.
abbrev pub start_of : Dir → ℕ → ℕ → ℕ
start_of Dir.fwd oldest_addr cur_addr = oldest_addr
start_of Dir.rev oldest_addr cur_addr = cur_addr

module _ {S T : Type 0} (st : Storage S) where
  unfoldable pub collect_visit : ℕ → List Tsl → Cmd (Tsdb S T) (Visit (List Tsl))
  collect_visit sec_addr out = do
    (r, sector) ← read_sector_info st sec_addr blank_sector false
    cur ← gets (λ db. db.cur_sec)
    let s = up_to_date cur sector
    branch (is_ok r && in_use sector)
        (do
          (_, out) ← walk_tsls st Dir.fwd push s (first_tsl s) out
          pure (record { stop = false; addr = s.addr; acc = out }))
        (pure (record { stop = false; addr = sector.addr; acc = out }))

  unfoldable pub collect : Cmd (Tsdb S T) (List Tsl)
  collect = do
    init_ok ← gets (λ db. db.init_ok)
    oldest_addr ← gets (λ db. db.oldest_addr)
    branch (not init_ok) (pure []) (walk_sectors Dir.fwd collect_visit oldest_addr [])

  -- A sector with a good header that is not in use is empty or unused, and ends the walk.
  unfoldable pub collect_reverse_visit : ℕ → List Tsl → Cmd (Tsdb S T) (Visit (List Tsl))
  collect_reverse_visit sec_addr out = do
    (r, sector) ← read_sector_info st sec_addr blank_sector false
    cur ← gets (λ db. db.cur_sec)
    let s = up_to_date cur sector
    branch (is_ok r && in_use sector)
        (do
          (_, out) ← walk_tsls st Dir.rev push s s.end_idx out
          pure (record { stop = false; addr = s.addr; acc = out }))
        (pure (record { stop = is_ok r; addr = sector.addr; acc = out }))

  unfoldable pub collect_reverse : Cmd (Tsdb S T) (List Tsl)
  collect_reverse = do
    init_ok ← gets (λ db. db.init_ok)
    start ← gets (λ db. db.cur_sec.addr)
    branch (not init_ok) (pure []) (walk_sectors Dir.rev collect_reverse_visit start [])

  -- The loop over the logs of a sector that may hold logs of the range.
  unfoldable pub range_in_sector :
      Dir → ℤ → ℤ → TsdbSecInfo → List Tsl → Cmd (Tsdb S T) (Visit (Bool × List Tsl))
  range_in_sector dir from to s out = do
    start ← search_start_tsl_addr st (first_tsl s) s.end_idx from to
    (exit, out) ← walk_tsls st dir (push_in_range dir from to) s start out
    pure (record { stop = exit; addr = s.addr; acc = (true, out) })

  unfoldable pub range_visit :
      Dir → ℤ → ℤ → ℕ → ℕ → Bool × List Tsl → Cmd (Tsdb S T) (Visit (Bool × List Tsl))
  range_visit dir from to start_addr sec_addr (found, out) = do
    (r, sector) ← read_sector_info st sec_addr blank_sector false
    cur ← gets (λ db. db.cur_sec)
    let s = up_to_date cur sector
    branch (is_ok r && in_use sector)
        (branch (found || may_start dir (sec_addr == start_addr) from s)
          (range_in_sector dir from to s out)
          (pure (record { stop = false; addr = s.addr; acc = (found, out) })))
        (pure (record {
          stop = is_ok r && StoreStatus.eq sector.status SectorStoreStatus.empty;
          addr = sector.addr;
          acc = (found, out);
        }))

  unfoldable pub range_from : Dir → ℤ → ℤ → Cmd (Tsdb S T) (List Tsl)
  range_from dir from to = do
    oldest_addr ← gets (λ db. db.oldest_addr)
    cur_addr ← gets (λ db. db.cur_sec.addr)
    let start_addr = start_of dir oldest_addr cur_addr
    (_, out) ← walk_sectors dir (range_visit dir from to start_addr) start_addr (false, [])
    pure out

  unfoldable pub collect_by_time : ℤ → ℤ → Cmd (Tsdb S T) (List Tsl)
  collect_by_time from to = do
    init_ok ← gets (λ db. db.init_ok)
    branch (not init_ok) (pure []) (range_from (if leb_ℤ from to then Dir.fwd else Dir.rev) from to)

  unfoldable pub query_count : ℤ → ℤ → TslStatus → Cmd (Tsdb S T) ℕ
  query_count from to status = do
    init_ok ← gets (λ db. db.init_ok)
    branch (not init_ok) (pure 0)
        (do tsls ← collect_by_time from to; pure (count_status status tsls))

  -- The loop that the three iterations share: `visit` is the callback, `X` what it keeps.
  unfoldable pub visit_logs :
      {X : Type 0} → (Tsl → List ℕ → Cmd X Bool) → List Tsl → X → Cmd (Tsdb S T) X
  visit_logs visit [] x = pure x
  visit_logs visit (tsl ∷ tsls) x = do
    (n, buf) ← read_log st tsl (replicate tsl.log_len 0)
    let (stop, x) = visit tsl (take n buf) x
    branch stop (pure x) (visit_logs visit tsls x)

  unfoldable pub iter : {X : Type 0} → (Tsl → List ℕ → Cmd X Bool) → X → Cmd (Tsdb S T) X
  iter visit x = do tsls ← collect; visit_logs visit tsls x

  unfoldable pub iter_reverse : {X : Type 0} → (Tsl → List ℕ → Cmd X Bool) → X → Cmd (Tsdb S T) X
  iter_reverse visit x = do tsls ← collect_reverse; visit_logs visit tsls x

  unfoldable pub iter_by_time :
      {X : Type 0} → ℤ → ℤ → (Tsl → List ℕ → Cmd X Bool) → X → Cmd (Tsdb S T) X
  iter_by_time from to visit x = do tsls ← collect_by_time from to; visit_logs visit tsls x

unfoldable pub max_blob_count : {S T : Type 0} → Tsdb S T → ℕ
max_blob_count db =
    let blob_size = wrapping_add log_idx_data_size (wg_align (u32 db.max_len)) in
    db.max_size / db.sec_size * (wrapping_sub db.sec_size sector_hdr_data_size / blob_size)
