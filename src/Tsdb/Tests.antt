-- ===== src/Tsdb/Tests.antt =====
-- Runs of the time-series database on a `RamStorage` of three sectors of 128 bytes.
use flash_db_rust.Base.{
  ℕ, zero, suc, ◌+◌, ◌≡◌, refl, true, false, List, [], ◌∷◌, Result, ok, err, ℤ, pos, ◌+ℤ◌, ◌-ℤ◌,
  branch, try, Cmd, pure, gets, ◌>>=◌, ◌>>◌, replicate,
}
use flash_db_rust.Def.TslStatus.{TslStatus}
use flash_db_rust.Status.{set_status, get_status}
use flash_db_rust.Storage.Ram.{RamStorage, ram, new, read, write, erase}
use flash_db_rust.Flash.{program_table, write_status, read_status, write_align}
use flash_db_rust.Db.{validate_geometry}
use flash_db_rust.Tsdb.Types.{on_storage, Tsl, Tsdb, get_next_tsl_addr, get_last_tsl_addr}
use flash_db_rust.Tsdb.Sector.{
  decode_tsl, decode_sector, note_tsl, get_next_sector_addr, get_last_sector_addr, read_tsl,
  measure_tsls, after_header, read_sector_info, format_sector,
}
use flash_db_rust.Tsdb.Append.{
  index_bytes, write_log, write_tsl, write_end_info, close_end_info, enter_sector, new_sector_addr,
  enter_next, close_sector, start_sector, update_sec_status, advance, append_at, tsl_append, append,
  append_with_ts, set_tsl_status, read_log,
}
use flash_db_rust.Tsdb.Walk.{step_sector, step_tsl, sector_loop, walk_sectors, tsl_loop, walk_tsls}
use flash_db_rust.Tsdb.Search.{settle_start, search_loop, search_start_tsl_addr}
use flash_db_rust.Tsdb.Query.{
  in_range, push_in_range, may_start, collect_visit, collect, collect_reverse_visit,
  collect_reverse, range_in_sector, range_visit, range_from, collect_by_time, query_count,
  visit_logs, iter, iter_reverse, iter_by_time,
}
use flash_db_rust.Tsdb.Init.{
  scan_sector, clean_visit, clean, init_visit, find_oldest, resume, init, with_options,
}

-- A clock that does not advance.
abbrev tick : Cmd ℕ ℤ
tick n = (pos n, n)

abbrev Db : Type 0
Db = Tsdb RamStorage ℕ

abbrev opened : Result Db
opened = with_options ram (new 384) 128 384 7 40 false

abbrev on_fresh : {A : Type 0} → Cmd Db A → Result A
on_fresh call = elim opened [ err e ↦ err e | ok db ↦ ok (call db).0 ]

abbrev times : List Tsl → List ℤ
times [] = []
times (t ∷ ts) = t.time ∷ times ts

-- Appends `n` logs of 8 bytes, with the times from `t` on.
abbrev fill : ℕ → ℕ → Cmd Db (Result (Unit {0}))
fill zero t = pure (ok tt)
fill (suc n) t = do append_with_ts ram tick (replicate 8 t) (pos t); fill n (t + 1)

abbrev filled_times : ℕ → Cmd Db (List ℤ)
filled_times n = do fill n 1; tsls ← collect ram; pure (times tsls)

abbrev reverse_times : ℕ → Cmd Db (List ℤ)
reverse_times n = do fill n 1; tsls ← collect_reverse ram; pure (times tsls)

abbrev range_times : ℕ → ℤ → ℤ → Cmd Db (List ℤ)
range_times n from to = do fill n 1; tsls ← collect_by_time ram from to; pure (times tsls)

-- The current sector is marked as full, and the power fails.
abbrev full_times : Cmd Db (Result (ℕ × ℕ))
full_times = do
  fill 12 1
  cur ← gets (λ db. db.cur_sec.addr)
  on_storage (write_status ram cur 4 3 true)
  mem ← gets (λ db. db.storage)
  pure (elim (with_options {T = ℕ} ram mem 128 384 7 40 false) [
    | err e ↦ err e
    | ok db ↦ ok (db.oldest_addr, db.cur_sec.addr)
  ])

abbrev wide : Result Db
wide = with_options ram (new 384) 128 384 7 127 false

abbrev wide_times : Result (Result (Unit {0}) × List Tsl)
wide_times = elim wide [
  | err e ↦ err e
  | ok db ↦
      ok
        ((do r ← append_with_ts ram tick (replicate 100 1) (pos 5); l ← collect ram; pure (r, l))
          db).0
]

-- Six logs in two sectors are listed in the order of their times.
collect_6 : on_fresh (filled_times 6) ≡ ok (pos 1 ∷ pos 2 ∷ pos 3 ∷ pos 4 ∷ pos 5 ∷ pos 6 ∷ [])
unfolding ◌+ℤ◌ ◌-ℤ◌ branch try set_status get_status new read write erase program_table write_status
    read_status write_align validate_geometry get_next_tsl_addr get_last_tsl_addr decode_tsl
    decode_sector note_tsl get_next_sector_addr get_last_sector_addr read_tsl measure_tsls
    after_header read_sector_info format_sector index_bytes write_log write_tsl write_end_info
    close_end_info enter_sector new_sector_addr enter_next close_sector start_sector
    update_sec_status advance append_at tsl_append append append_with_ts set_tsl_status read_log
    step_sector step_tsl sector_loop walk_sectors tsl_loop walk_tsls settle_start search_loop
    search_start_tsl_addr in_range push_in_range may_start collect_visit collect
    collect_reverse_visit collect_reverse range_in_sector range_visit range_from collect_by_time
    query_count visit_logs iter iter_reverse iter_by_time scan_sector clean_visit clean init_visit
    find_oldest resume init with_options
collect_6 = refl

-- In reverse they come in the opposite order.
collect_reverse_6 :
    on_fresh (reverse_times 6) ≡ ok (pos 6 ∷ pos 5 ∷ pos 4 ∷ pos 3 ∷ pos 2 ∷ pos 1 ∷ [])
unfolding ◌+ℤ◌ ◌-ℤ◌ branch try set_status get_status new read write erase program_table write_status
    read_status write_align validate_geometry get_next_tsl_addr get_last_tsl_addr decode_tsl
    decode_sector note_tsl get_next_sector_addr get_last_sector_addr read_tsl measure_tsls
    after_header read_sector_info format_sector index_bytes write_log write_tsl write_end_info
    close_end_info enter_sector new_sector_addr enter_next close_sector start_sector
    update_sec_status advance append_at tsl_append append append_with_ts set_tsl_status read_log
    step_sector step_tsl sector_loop walk_sectors tsl_loop walk_tsls settle_start search_loop
    search_start_tsl_addr in_range push_in_range may_start collect_visit collect
    collect_reverse_visit collect_reverse range_in_sector range_visit range_from collect_by_time
    query_count visit_logs iter iter_reverse iter_by_time scan_sector clean_visit clean init_visit
    find_oldest resume init with_options
collect_reverse_6 = refl

-- A range of times.
collect_by_time_2_5 :
    on_fresh (range_times 6 (pos 2) (pos 5)) ≡ ok (pos 2 ∷ pos 3 ∷ pos 4 ∷ pos 5 ∷ [])
unfolding ◌+ℤ◌ ◌-ℤ◌ branch try set_status get_status new read write erase program_table write_status
    read_status write_align validate_geometry get_next_tsl_addr get_last_tsl_addr decode_tsl
    decode_sector note_tsl get_next_sector_addr get_last_sector_addr read_tsl measure_tsls
    after_header read_sector_info format_sector index_bytes write_log write_tsl write_end_info
    close_end_info enter_sector new_sector_addr enter_next close_sector start_sector
    update_sec_status advance append_at tsl_append append append_with_ts set_tsl_status read_log
    step_sector step_tsl sector_loop walk_sectors tsl_loop walk_tsls settle_start search_loop
    search_start_tsl_addr in_range push_in_range may_start collect_visit collect
    collect_reverse_visit collect_reverse range_in_sector range_visit range_from collect_by_time
    query_count visit_logs iter iter_reverse iter_by_time scan_sector clean_visit clean init_visit
    find_oldest resume init with_options
collect_by_time_2_5 = refl

-- A range of times that runs backwards.
collect_by_time_5_2 :
    on_fresh (range_times 6 (pos 5) (pos 2)) ≡ ok (pos 5 ∷ pos 4 ∷ pos 3 ∷ pos 2 ∷ [])
unfolding ◌+ℤ◌ ◌-ℤ◌ branch try set_status get_status new read write erase program_table write_status
    read_status write_align validate_geometry get_next_tsl_addr get_last_tsl_addr decode_tsl
    decode_sector note_tsl get_next_sector_addr get_last_sector_addr read_tsl measure_tsls
    after_header read_sector_info format_sector index_bytes write_log write_tsl write_end_info
    close_end_info enter_sector new_sector_addr enter_next close_sector start_sector
    update_sec_status advance append_at tsl_append append append_with_ts set_tsl_status read_log
    step_sector step_tsl sector_loop walk_sectors tsl_loop walk_tsls settle_start search_loop
    search_start_tsl_addr in_range push_in_range may_start collect_visit collect
    collect_reverse_visit collect_reverse range_in_sector range_visit range_from collect_by_time
    query_count visit_logs iter iter_reverse iter_by_time scan_sector clean_visit clean init_visit
    find_oldest resume init with_options
collect_by_time_5_2 = refl

-- Twelve logs fill the ring; two more take the place of the oldest four.
collect_rolled :
    on_fresh (filled_times 14)
    ≡ ok (pos 5 ∷ pos 6 ∷ pos 7 ∷ pos 8 ∷ pos 9 ∷ pos 10 ∷ pos 11 ∷ pos 12 ∷ pos 13 ∷ pos 14 ∷ [])
unfolding ◌+ℤ◌ ◌-ℤ◌ branch try set_status get_status new read write erase program_table write_status
    read_status write_align validate_geometry get_next_tsl_addr get_last_tsl_addr decode_tsl
    decode_sector note_tsl get_next_sector_addr get_last_sector_addr read_tsl measure_tsls
    after_header read_sector_info format_sector index_bytes write_log write_tsl write_end_info
    close_end_info enter_sector new_sector_addr enter_next close_sector start_sector
    update_sec_status advance append_at tsl_append append append_with_ts set_tsl_status read_log
    step_sector step_tsl sector_loop walk_sectors tsl_loop walk_tsls settle_start search_loop
    search_start_tsl_addr in_range push_in_range may_start collect_visit collect
    collect_reverse_visit collect_reverse range_in_sector range_visit range_from collect_by_time
    query_count visit_logs iter iter_reverse iter_by_time scan_sector clean_visit clean init_visit
    find_oldest resume init with_options
collect_rolled = refl

-- A range that starts after the last log of a full sector lists bytes of the sector's data as logs.
collect_by_time_garbage :
    on_fresh (range_times 14 (pos 2147483647) (pos 9))
    ≡ ok (pos 14 ∷ pos 13 ∷ pos 202116108 ∷ pos 12 ∷ pos 11 ∷ pos 10 ∷ pos 9 ∷ pos 134744072 ∷ [])
unfolding ◌+ℤ◌ ◌-ℤ◌ branch try set_status get_status new read write erase program_table write_status
    read_status write_align validate_geometry get_next_tsl_addr get_last_tsl_addr decode_tsl
    decode_sector note_tsl get_next_sector_addr get_last_sector_addr read_tsl measure_tsls
    after_header read_sector_info format_sector index_bytes write_log write_tsl write_end_info
    close_end_info enter_sector new_sector_addr enter_next close_sector start_sector
    update_sec_status advance append_at tsl_append append append_with_ts set_tsl_status read_log
    step_sector step_tsl sector_loop walk_sectors tsl_loop walk_tsls settle_start search_loop
    search_start_tsl_addr in_range push_in_range may_start collect_visit collect
    collect_reverse_visit collect_reverse range_in_sector range_visit range_from collect_by_time
    query_count visit_logs iter iter_reverse iter_by_time scan_sector clean_visit clean init_visit
    find_oldest resume init with_options
collect_by_time_garbage = refl

-- Opened again with all sectors full, the database has no current sector.
reopen_all_full : on_fresh full_times ≡ ok (ok (127, 4294967295))
unfolding ◌+ℤ◌ ◌-ℤ◌ branch try set_status get_status new read write erase program_table write_status
    read_status write_align validate_geometry get_next_tsl_addr get_last_tsl_addr decode_tsl
    decode_sector note_tsl get_next_sector_addr get_last_sector_addr read_tsl measure_tsls
    after_header read_sector_info format_sector index_bytes write_log write_tsl write_end_info
    close_end_info enter_sector new_sector_addr enter_next close_sector start_sector
    update_sec_status advance append_at tsl_append append append_with_ts set_tsl_status read_log
    step_sector step_tsl sector_loop walk_sectors tsl_loop walk_tsls settle_start search_loop
    search_start_tsl_addr in_range push_in_range may_start collect_visit collect
    collect_reverse_visit collect_reverse range_in_sector range_visit range_from collect_by_time
    query_count visit_logs iter iter_reverse iter_by_time scan_sector clean_visit clean init_visit
    find_oldest resume init with_options
reopen_all_full = refl

-- A log that is larger than the room of an empty sector overwrites its own index record.
append_too_wide :
    wide_times
    ≡ ok (
      ok tt,
      record {
        status = TslStatus.write;
        time = pos 16843009;
        log_len = 16843009;
        addr_index = 32;
        addr_log = 16843009;
      }
          ∷ [],
    )
unfolding ◌+ℤ◌ ◌-ℤ◌ branch try set_status get_status new read write erase program_table write_status
    read_status write_align validate_geometry get_next_tsl_addr get_last_tsl_addr decode_tsl
    decode_sector note_tsl get_next_sector_addr get_last_sector_addr read_tsl measure_tsls
    after_header read_sector_info format_sector index_bytes write_log write_tsl write_end_info
    close_end_info enter_sector new_sector_addr enter_next close_sector start_sector
    update_sec_status advance append_at tsl_append append append_with_ts set_tsl_status read_log
    step_sector step_tsl sector_loop walk_sectors tsl_loop walk_tsls settle_start search_loop
    search_start_tsl_addr in_range push_in_range may_start collect_visit collect
    collect_reverse_visit collect_reverse range_in_sector range_visit range_from collect_by_time
    query_count visit_logs iter iter_reverse iter_by_time scan_sector clean_visit clean init_visit
    find_oldest resume init with_options
append_too_wide = refl
