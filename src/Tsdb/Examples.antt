-- ===== src/Tsdb/Examples.antt =====
-- The theorems on the time-series database, applied to a medium with three logs.
pub mod Turn
use flash_db_rust.Base.{
  ℕ, zero, suc, ◌+◌, ◌/◌, ◌≤◌, ◌<◌, ◌≡◌, refl, inl, inr, true, false, is_ok, List, [], ◌∷◌, ◌++◌,
  reverse, ok, Cmd, ℤ, pos, negsuc, ◌<ℤ◌, ◌≤ℤ◌, arith, replicate,
}
use flash_db_rust.Def.TslStatus
use flash_db_rust.Def.TslStatus.{TslStatus}
use flash_db_rust.Def.StoreStatus.{SectorStoreStatus}
use flash_db_rust.Status.{get_status, set_status}
use flash_db_rust.Status.Laws.{status_byte}
use flash_db_rust.Storage.Bytes.{slice}
use flash_db_rust.Storage.Ram.{RamStorage, ram, from_bytes}
use flash_db_rust.Storage.Ram.Laws.{ram_array}
use flash_db_rust.Tsdb.Types.{TsdbSecInfo, Tsdb, Dir, blank_sector}
use flash_db_rust.Tsdb.Sector.{decode_tsl, read_tsl, read_sector_info}
use flash_db_rust.Tsdb.Sector.Log.{log_at}
use flash_db_rust.Tsdb.Append.{index_bytes, write_log, append_at, append_with_ts}
use flash_db_rust.Tsdb.Append.RoundTrip.{valid_tsl, read_tsl-write_log}
use flash_db_rust.Tsdb.Append.Stored.{Stored}
use flash_db_rust.Tsdb.Append.Room.{IsOpen, append_at-IsOpen}
use flash_db_rust.Tsdb.Append.Order.{IsRising, accepted, accepted-IsRising}
use flash_db_rust.Tsdb.Append.Refused.{append_with_ts-IsRefused}
use flash_db_rust.Tsdb.Append.Refines.{logs_of, append_all, TimesFit, cost_of, append_all-walk_tsls}
use flash_db_rust.Tsdb.Append.Reopen.{IsHeader, read_sector_info-IsOpen}
use flash_db_rust.Tsdb.Walk.{sector_loop, walk_sectors, tsl_loop, walk_tsls}
use flash_db_rust.Tsdb.Walk.Logs.{logs_up, walk_tsls-reverse}
use flash_db_rust.Tsdb.Walk.Ends.{walk_tsls-enough}
use flash_db_rust.Tsdb.Search.{search_start_tsl_addr}
use flash_db_rust.Tsdb.Search.Cut.{IsCut}
use flash_db_rust.Tsdb.Search.Found.{
  time_at, Finds, IsLast, search_start_tsl_addr-IsCut, search_start_tsl_addr-IsLast,
}
use flash_db_rust.Tsdb.Query.{push, collect_visit, collect_reverse_visit, range_visit}
use flash_db_rust.Tsdb.Query.Frame.{queries-enough}

-- An index record with a time, a length and an address below 256.
abbrev index : ℕ → ℕ → ℕ → List ℕ
index time len addr =
    63 ∷ 255 ∷ 255 ∷ 255 ∷ time ∷ 0 ∷ 0 ∷ 0 ∷ len ∷ 0 ∷ 0 ∷ 0 ∷ addr ∷ 0 ∷ 0 ∷ 0 ∷ []

-- A sector in use with three logs, and a second sector without logs in
-- the state that its first byte says.
abbrev pub medium : ℕ → List ℕ
medium state =
    (63 ∷ 84 ∷ 83 ∷ 76 ∷ 48 ∷ 5 ∷ 0 ∷ 0 ∷ 0 ∷ [])
    ++ (replicate 23 255
        ++ (index 5 3 125
            ++ (index 7 1 124
                ++ (index 9 2 122
                    ++ (replicate 42 255
                        ++ ((5 ∷ 6 ∷ 4 ∷ 1 ∷ 2 ∷ 3 ∷ [])
                            ++ ((state ∷ 84 ∷ 83 ∷ 76 ∷ 48 ∷ []) ++ replicate 123 255)))))))

abbrev pub three_bytes : List ℕ
three_bytes = medium 127

abbrev pub three_sector : TsdbSecInfo
three_sector = record {
  check_ok = true;
  status = SectorStoreStatus.using;
  addr = 0;
  start_time = pos 5;
  end_time = pos 9;
  end_idx = 64;
  end_info_stat = (TslStatus.unused, TslStatus.unused);
  remain = pos 42;
  empty_idx = 80;
  empty_data = 122;
}

abbrev pub three_db : Tsdb RamStorage ℕ
three_db = record {
  storage = from_bytes three_bytes;
  sec_size = 128;
  max_size = 256;
  oldest_addr = 128;
  init_ok = true;
  not_formatable = false;
  clock = 7;
  max_len = 40;
  rollover = true;
  last_time = pos 9;
  cur_sec = three_sector;
}

abbrev pub three_logs : List (ℤ × List ℕ)
three_logs = (pos 5, 1 ∷ 2 ∷ 3 ∷ []) ∷ (pos 7, 4 ∷ []) ∷ (pos 9, 5 ∷ 6 ∷ []) ∷ []

pub medium-IsOpen :
    (state : ℕ)
    → IsOpen ram ram_array (record three_db { storage = from_bytes (medium state) }) three_logs 42
unfolding Stored slice ram_array index_bytes status_byte set_status
medium-IsOpen state = record {
  using = refl;
  stored = (
    omega arith,
    omega arith,
    record { state = refl; index = refl; content = refl },
    (
      omega arith,
      omega arith,
      record { state = refl; index = refl; content = refl },
      (
        omega arith,
        omega arith,
        record { state = refl; index = refl; content = refl },
        (refl, refl),
      ),
    ),
  );
  ended = λ _. refl;
  left = refl;
  apart = refl;
  fits = omega arith;
  small = omega arith;
}

pub three-IsOpen : IsOpen ram ram_array three_db three_logs 42
three-IsOpen = medium-IsOpen 127

pub fits_256 : (state n : ℕ) → n ≤ 256 → n ≤ ram_array.capacity (from_bytes (medium state))
unfolding ram_array
fits_256 state n h = h

read_tsl-write_log_example :
    let (result, db') = write_log ram 80 119 (7 ∷ 8 ∷ 9 ∷ []) (negsuc 3) three_db in
    (result ≡ ok tt)
    × (read_tsl ram 80 db' ≡ (valid_tsl 80 119 (negsuc 3) (7 ∷ 8 ∷ 9 ∷ []), db'))
    × (slice (ram_array.byte db'.storage) 119 3 ≡ 7 ∷ 8 ∷ 9 ∷ [])
read_tsl-write_log_example =
    read_tsl-write_log ram ram_array 80 119 (7 ∷ 8 ∷ 9 ∷ []) (negsuc 3) three_db (omega arith)
      (omega arith) (fits_256 127 122 (omega arith)) (omega arith)

append_at-IsOpen_example :
    let (result, db') = append_at ram (7 ∷ 8 ∷ []) (pos 10) three_db in
    (result ≡ ok tt)
    × IsOpen ram ram_array db' (three_logs ++ (pos 10, 7 ∷ 8 ∷ []) ∷ []) 24
    × (db'.last_time ≡ pos 10)
append_at-IsOpen_example =
    append_at-IsOpen ram ram_array three_db three_logs 42 (7 ∷ 8 ∷ []) (pos 10) three-IsOpen
      (omega arith) (omega arith) (omega arith) (omega arith)

abbrev two_more : List (ℤ × List ℕ)
two_more = (pos 10, 7 ∷ 8 ∷ []) ∷ (pos 12, []) ∷ []

two_more-IsRising : IsRising 40 (pos 9) two_more
unfolding IsRising
two_more-IsRising = (omega arith, omega arith, (omega arith, omega arith, tt))

two_more-TimesFit : TimesFit two_more
unfolding TimesFit
two_more-TimesFit = (omega arith, (omega arith, tt))

two_more_cost : cost_of two_more ≤ 42
unfolding cost_of
two_more_cost = omega arith

append_all-walk_tsls_example :
    let (result, db') = append_all ram two_more three_db in
    let sec = db'.cur_sec in
    let listed = logs_of (sec.addr + 32) (sec.addr + db'.sec_size) (three_logs ++ two_more) in
    (result ≡ ok tt)
    × (walk_tsls ram Dir.fwd push sec (sec.addr + 32) [] db' ≡ ((false, listed), db'))
    × (walk_tsls ram Dir.rev push sec sec.end_idx [] db' ≡ ((false, reverse listed), db'))
append_all-walk_tsls_example =
    append_all-walk_tsls ram ram_array three_db three_logs two_more 42 three-IsOpen
      two_more-IsRising two_more-TimesFit two_more_cost (omega arith)

three-IsHeader :
    IsHeader (slice (ram_array.byte (from_bytes three_bytes)) 0 32) SectorStoreStatus.using
unfolding slice ram_array get_status
three-IsHeader = record { magic = refl; state = refl }

next_unused :
    TslStatus.eq ((log_at (ram_array.byte (from_bytes three_bytes)) 40 80).status) TslStatus.unused
    ≡ true
unfolding log_at slice ram_array get_status decode_tsl
next_unused = refl

read_sector_info-IsOpen_example :
    let ((r, sec), db') = read_sector_info ram 0 blank_sector true three_db in
    (r ≡ ok tt)
    × (db' ≡ three_db)
    × IsOpen ram ram_array (record three_db { cur_sec = sec }) three_logs 42
read_sector_info-IsOpen_example =
    read_sector_info-IsOpen ram ram_array three_db three_logs 42 three-IsOpen (omega arith)
      (omega arith) three-IsHeader next_unused

accepted-IsRising_example :
    IsRising 40
      (pos 9)
      (accepted ram ((pos 11, 1 ∷ []) ∷ (pos 10, []) ∷ (pos 12, []) ∷ []) three_db).0
accepted-IsRising_example =
    accepted-IsRising ram ((pos 11, 1 ∷ []) ∷ (pos 10, []) ∷ (pos 12, []) ∷ []) three_db

-- A clock that does not advance.
abbrev stopped : Cmd ℕ ℤ
stopped n = (pos n, n)

append_with_ts-IsRefused_example :
    let (r, db') = append_with_ts ram stopped (1 ∷ []) (pos 9) three_db in
    (is_ok r ≡ false) × (db' ≡ three_db)
append_with_ts-IsRefused_example =
    append_with_ts-IsRefused ram stopped (1 ∷ []) (pos 9) three_db (inr (inr (inl (omega arith))))

walk_tsls-reverse_example :
    let up = logs_up (ram_array.byte (from_bytes three_bytes)) 40 32 2 in
    (walk_tsls ram Dir.fwd push three_sector 32 [] three_db ≡ ((false, up), three_db))
    × (walk_tsls ram Dir.rev push three_sector 64 [] three_db ≡ ((false, reverse up), three_db))
walk_tsls-reverse_example =
    walk_tsls-reverse ram ram_array three_sector three_db refl 2 refl (omega arith)
      (fits_256 127 80 (omega arith))

walk_tsls-enough_example :
    tsl_loop ram Dir.rev push (64 + 2 + 3) three_sector 80 [] three_db
    ≡ walk_tsls ram Dir.rev push three_sector 80 [] three_db
walk_tsls-enough_example =
    walk_tsls-enough ram Dir.rev push three_sector (omega arith) (omega arith) 3 80 [] three_db
      (omega arith)

queries-enough_example :
    let rounds = 256 / 128 + 1 + 4 in
    (sector_loop Dir.fwd (collect_visit ram) rounds 128 0 [] three_db
      ≡ walk_sectors Dir.fwd (collect_visit ram) 128 [] three_db)
    × (sector_loop Dir.rev (collect_reverse_visit ram) rounds 128 0 [] three_db
        ≡ walk_sectors Dir.rev (collect_reverse_visit ram) 128 [] three_db)
    × (sector_loop Dir.fwd
          (range_visit ram Dir.fwd (pos 6) (pos 8) 128)
          rounds
          128
          0
          (false, [])
          three_db
        ≡ walk_sectors Dir.fwd
            (range_visit ram Dir.fwd (pos 6) (pos 8) 128)
            128
            (false, [])
            three_db)
queries-enough_example =
    queries-enough ram 4 128 Dir.fwd (pos 6) (pos 8) three_db (omega arith) (omega arith)

rising :
    (i j : ℕ)
    → i < j
    → j ≤ 2
    → time_at ram ram_array 32 2 (pos 6) (pos 8) three_db i
      <ℤ time_at ram ram_array 32 2 (pos 6) (pos 8) three_db j
unfolding log_at slice ram_array get_status decode_tsl
rising zero (suc zero) h k = omega arith
rising zero (suc (suc zero)) h k = omega arith
rising (suc zero) (suc (suc zero)) h k = omega arith
rising i j h k = absurd (omega arith)

search_start_tsl_addr-IsCut_example :
    Finds ram ram_array 32 2
      (pos 6)
      (pos 8)
      three_db
      (IsCut (time_at ram ram_array 32 2 (pos 6) (pos 8) three_db) 2 (pos 6))
      (search_start_tsl_addr ram 32 64 (pos 6) (pos 8) three_db)
search_start_tsl_addr-IsCut_example =
    search_start_tsl_addr-IsCut ram ram_array 32 2 (pos 6) (pos 8) three_db rising (omega arith)
      (fits_256 127 80 (omega arith)) (omega arith) (omega arith)

falling :
    (i j : ℕ)
    → i < j
    → j ≤ 2
    → time_at ram ram_array 32 2 (pos 8) (pos 6) three_db i
      <ℤ time_at ram ram_array 32 2 (pos 8) (pos 6) three_db j
falling = rising

reached : time_at ram ram_array 32 2 (pos 8) (pos 6) three_db 0 ≤ℤ pos 8
unfolding log_at slice ram_array get_status decode_tsl
reached = omega arith

not_reached : pos 8 <ℤ time_at ram ram_array 32 2 (pos 8) (pos 6) three_db 2
unfolding log_at slice ram_array get_status decode_tsl
not_reached = omega arith

search_start_tsl_addr-IsLast_example :
    Finds ram ram_array 32 2
      (pos 8)
      (pos 6)
      three_db
      (IsLast ram ram_array 32 2 (pos 8) (pos 6) three_db)
      (search_start_tsl_addr ram 32 64 (pos 8) (pos 6) three_db)
search_start_tsl_addr-IsLast_example =
    search_start_tsl_addr-IsLast ram ram_array 32 2 (pos 8) (pos 6) three_db falling (omega arith)
      (fits_256 127 80 (omega arith)) (omega arith) (omega arith) reached not_reached
