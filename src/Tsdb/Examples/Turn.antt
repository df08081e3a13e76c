-- ===== src/Tsdb/Examples/Turn.antt =====
-- The theorems on empty sectors, on the change of sectors and on iterations, applied to the same
-- medium.
use flash_db_rust.Base.{
  ℕ, ◌+◌, ◌-◌, ◌≤◌, ◌<◌, ◌⊎◌, ◌≡◌, refl, inr, Bool, true, false, Cmd, List, [], ◌∷◌, ◌++◌, ok, ℤ,
  pos, leb_ℤ, arith, replicate,
}
use flash_db_rust.Def.StoreStatus.{SectorStoreStatus}
use flash_db_rust.Status.{get_status}
use flash_db_rust.Storage.Bytes.{slice}
use flash_db_rust.Storage.Ram.{RamStorage, ram, from_bytes}
use flash_db_rust.Storage.Ram.Laws.{ram_array}
use flash_db_rust.Tsdb.Types.{Tsl, Tsdb, Dir, blank_sector}
use flash_db_rust.Tsdb.Sector.{read_sector_info, format_sector}
use flash_db_rust.Tsdb.Append.{new_sector_addr, append_at}
use flash_db_rust.Tsdb.Append.Stored.{Stored}
use flash_db_rust.Tsdb.Append.Room.{IsOpen}
use flash_db_rust.Tsdb.Append.Fresh.{IsEmpty, append_at-IsEmpty}
use flash_db_rust.Tsdb.Append.Format.{format_sector-IsEmpty}
use flash_db_rust.Tsdb.Append.Turn.{Turns, append_at-Turns}
use flash_db_rust.Tsdb.Append.Roll.{append_at-Turns_full}
use flash_db_rust.Tsdb.Walk.{walk_tsls}
use flash_db_rust.Tsdb.Query.{push, visit_logs}
use flash_db_rust.Tsdb.Query.Callback.{visit_all, visit_logs-IsOpen}
use flash_db_rust.Tsdb.Append.RoundTrip.{valid_tsl}
use flash_db_rust.Tsdb.Examples.{
  medium, medium-IsOpen, three_sector, three_db, three_logs, three-IsOpen, fits_256,
}

three-Turns : Turns ram ram_array three_db SectorStoreStatus.empty three_logs 42 128
unfolding new_sector_addr slice ram_array get_status
three-Turns = record {
  current = three-IsOpen;
  free = refl;
  target = refl;
  apart = inr (omega arith);
  header = record { magic = refl; state = refl };
  large = omega arith;
  inside = fits_256 127 256 (omega arith);
  low = omega arith;
}

append_at-Turns_example :
    let (result, db') = append_at ram (replicate 30 1) (pos 10) three_db in
    (result ≡ ok tt)
    × IsOpen ram ram_array db' ((pos 10, replicate 30 1) ∷ []) (128 - 32 - (16 + 30))
    × (db'.cur_sec.addr ≡ 128)
    × Stored (ram_array.byte db'.storage) 32 128 three_logs 80 122
    × (db'.oldest_addr ≡ 128)
append_at-Turns_example =
    append_at-Turns ram ram_array three_db three_logs 42 128 (replicate 30 1) (pos 10) three-Turns
      (omega arith) (omega arith) (omega arith) (omega arith) (omega arith)

-- The same sector, with a full one after it.
abbrev rolled_db : Tsdb RamStorage ℕ
rolled_db = record three_db { storage = from_bytes (medium 31) }

rolled-Turns : Turns ram ram_array rolled_db SectorStoreStatus.full three_logs 42 128
unfolding new_sector_addr slice ram_array get_status
rolled-Turns = record {
  current = medium-IsOpen 31;
  free = refl;
  target = refl;
  apart = inr (omega arith);
  header = record { magic = refl; state = refl };
  large = omega arith;
  inside = fits_256 31 256 (omega arith);
  low = omega arith;
}

append_at-Turns_full_example :
    let (result, db') = append_at ram (replicate 30 1) (pos 10) rolled_db in
    (result ≡ ok tt)
    × IsOpen ram ram_array db' ((pos 10, replicate 30 1) ∷ []) (128 - 32 - (16 + 30))
    × (db'.cur_sec.addr ≡ 128)
    × Stored (ram_array.byte db'.storage) 32 128 three_logs 80 122
    × (db'.oldest_addr ≡ 0)
    × ((x : ℕ) → 137 ≤ x → x < 226 → (x < 160) ⊎ (176 ≤ x) → ram_array.byte db'.storage x ≡ 0xff)
append_at-Turns_full_example =
    append_at-Turns_full ram ram_array rolled_db three_logs 42 128 (replicate 30 1) (pos 10)
      rolled-Turns (omega arith) (omega arith) (omega arith) (omega arith) (omega arith)

format_sector-IsEmpty_example :
    let (result, db1) = format_sector ram 128 three_db in
    let ((r, sec), db2) = read_sector_info ram 128 blank_sector false db1 in
    (result ≡ ok tt)
    × (r ≡ ok tt)
    × (db2 ≡ db1)
    × IsEmpty ram ram_array (record db1 { cur_sec = sec })
    × (sec.addr ≡ 128)
    × ((x : ℕ) → 133 ≤ x → x < 256 → ram_array.byte db1.storage x ≡ 0xff)
    × ((x : ℕ)
        → (x < 128) ⊎ (256 ≤ x)
        → ram_array.byte db1.storage x ≡ ram_array.byte three_db.storage x)
format_sector-IsEmpty_example =
    format_sector-IsEmpty ram ram_array 128 three_db (omega arith) (omega arith)
      (fits_256 127 256 (omega arith))

-- The second sector as the current one.
abbrev next_db : Tsdb RamStorage ℕ
next_db = record three_db {
  cur_sec = record blank_sector {
    check_ok = true;
    status = SectorStoreStatus.empty;
    addr = 128;
    remain = pos 96;
    empty_idx = 160;
    empty_data = 256;
  };
}

next-IsEmpty : IsEmpty ram ram_array next_db
next-IsEmpty = record {
  empty = refl;
  room = record {
    empty_idx = refl;
    empty_data = refl;
    remain = refl;
    end_idx = λ p. absurd (omega arith);
  };
  large = omega arith;
  fits = fits_256 127 256 (omega arith);
  small = omega arith;
}

append_at-IsEmpty_example :
    let (result, db') = append_at ram (3 ∷ 1 ∷ []) (pos 10) next_db in
    (result ≡ ok tt)
    × IsOpen ram ram_array db' ((pos 10, 3 ∷ 1 ∷ []) ∷ []) (128 - 32 - (16 + 2))
    × (db'.last_time ≡ pos 10)
append_at-IsEmpty_example =
    append_at-IsEmpty ram ram_array next_db (3 ∷ 1 ∷ []) (pos 10) next-IsEmpty (omega arith)
      (omega arith) (omega arith) (omega arith)

-- A callback that keeps the data of the logs up to a time.
abbrev keep_until : ℤ → Tsl → List ℕ → Cmd (List (List ℕ)) Bool
keep_until last tsl blob kept = (leb_ℤ last tsl.time, kept ++ blob ∷ [])

visit_logs-IsOpen_example :
    let ((_, listed), db') = walk_tsls ram Dir.fwd push three_sector 32 [] three_db in
    visit_logs ram (keep_until (pos 7)) listed [] db'
    ≡ (visit_all (keep_until (pos 7)) 32 128 three_logs [], three_db)
visit_logs-IsOpen_example =
    visit_logs-IsOpen ram ram_array three_db (keep_until (pos 7)) three_logs 42 [] three-IsOpen
      (omega arith)

visit_two : visit_all (keep_until (pos 7)) 32 128 three_logs [] ≡ (1 ∷ 2 ∷ 3 ∷ []) ∷ (4 ∷ []) ∷ []
unfolding visit_all valid_tsl
visit_two = refl
