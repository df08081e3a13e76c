-- ===== src/Kvdb/Tests.antt =====
-- Runs of the key-value database on a `RamStorage` of three sectors of 256 bytes.
use flash_db_rust.Base.{
  ◌⊎◌, ◌<◌, pos, ◌≤◌, ◌+◌, ◌/◌, ℕ, ◌≡◌, ◌≢◌, refl, true, false, none, some, List, [], ◌∷◌, ok, ◌+ℤ◌,
  ◌-ℤ◌, branch, try, eq_bytes, replicate, length, get_or, take, arith, length-replicate,
}
use flash_db_rust.Def.KvStatus
use flash_db_rust.Def.KvStatus.{KvStatus}
use flash_db_rust.Storage.Bytes.{slice}
use flash_db_rust.Storage.Ram.Laws.{ram_array, capacity-ram_array}
use flash_db_rust.Def.StoreStatus.{SectorStoreStatus}
use flash_db_rust.Def.DirtyStatus.{SectorDirtyStatus}
use flash_db_rust.Kvdb.Types.{Kv, KvSecInfo, Kvdb, blank_kv, sector_not_combined}
use flash_db_rust.Kvdb.Alloc.Room.{IsRoomy, alloc_scan-IsRoomy}
use flash_db_rust.Kvdb.Alloc.Count.{count_sectors-enough}
use flash_db_rust.Kvdb.Next.Range.{InRange, get_next_kv_addr-InRange}
use flash_db_rust.Kvdb.Sector.Format.{fresh_sector, read_sector_info-format_sector}
use flash_db_rust.Kvdb.Create.Node.{read_node}
use flash_db_rust.Kvdb.Create.Write.{valid, capacity-valid, valid-IsNode}
use flash_db_rust.Kvdb.Create.Delete.{read_kv-delete_at}
use flash_db_rust.Kvdb.Create.RoundTrip.{read_kv-write_node}
use flash_db_rust.Kvdb.Record.Crc.{crc_loop-slice}
use flash_db_rust.Kvdb.Find.Sound.{find_kv-matches}
use flash_db_rust.Kvdb.Find.LongKeys.{find_kv-full_key}
use flash_db_rust.Crc32.{calc_crc32}
use flash_db_rust.Status.{set_status, get_status}
use flash_db_rust.Storage.Ram.{RamStorage, ram, new, read, write, erase}
use flash_db_rust.Flash.{
  ff_scan, program_table, write_status, read_status, ff_loop, continue_ff_addr, write_align,
}
use flash_db_rust.Kvdb.Record.{
  crc_loop, reject_header, read_name, reject_crc, accept_kv, judge_kv, verify_kv, check_kv, read_kv,
}
use flash_db_rust.Kvdb.Next.{
  magic_scan, after_window, find_loop, find_next_kv_addr, get_next_kv_addr,
}
use flash_db_rust.Kvdb.Sector.{
  get_next_sector_addr, decode_sector, sector_header, measure_kvs, settle_empty, traverse_sector,
  after_header, read_sector_info, format_sector,
}
use flash_db_rust.Kvdb.Walk.{sector_loop, walk_sectors, kv_loop, walk_kvs}
use flash_db_rust.Kvdb.Alloc.{
  has_room, count_visit, count_sectors, alloc_visit, alloc_scan, alloc_kv, update_sec_status,
}
use flash_db_rust.Kvdb.Find.{
  matches, find_visit, find_kv, mark_dirty, delete_at, del_old_kv, del_key,
}
use flash_db_rust.Kvdb.Gc.{
  copy_loop, move_kv_body, move_kv, gc_kv, do_gc_one, empty_visit, gc_visit,
  gc_collect_by_free_size,
}
use flash_db_rust.Kvdb.Create.{
  kv_crc, kv_header, new_kv, new_kv_ex, write_kv_hdr, write_node, create_at, create_kv_blob,
  format_all, write_defaults, set_default,
}
use flash_db_rust.Kvdb.Api.{set_kv, set, del, get_vec}

-- A database object over an erased medium.
abbrev blank_db : Kvdb RamStorage
blank_db = record {
  storage = new 768;
  sec_size = 256;
  max_size = 768;
  oldest_addr = 0;
  init_ok = true;
  not_formatable = false;
  gc_request = false;
  in_recovery_check = false;
  last_is_complete_del = false;
  default_kvs = [];
}

abbrev formatted : Kvdb RamStorage
formatted = (set_default ram blank_db).1

abbrev short_key : List ℕ
short_key = b'k' ∷ []

abbrev long_key : List ℕ
long_key = replicate 64 b'a'

abbrev stored : Kvdb RamStorage
stored = (set ram short_key (1 ∷ 2 ∷ 3 ∷ []) formatted).1

get_stored : (get_vec ram short_key stored).0 ≡ some (1 ∷ 2 ∷ 3 ∷ [])
unfolding ◌+ℤ◌ ◌-ℤ◌ branch try eq_bytes calc_crc32 set_status get_status new read write erase
    ff_scan program_table write_status read_status ff_loop continue_ff_addr write_align crc_loop
    reject_header read_name reject_crc accept_kv judge_kv verify_kv check_kv read_kv magic_scan
    after_window find_loop find_next_kv_addr get_next_kv_addr get_next_sector_addr decode_sector
    sector_header measure_kvs settle_empty traverse_sector after_header read_sector_info
    format_sector sector_loop walk_sectors kv_loop walk_kvs has_room count_visit count_sectors
    alloc_visit alloc_scan alloc_kv update_sec_status matches find_visit find_kv mark_dirty
    delete_at del_old_kv del_key copy_loop move_kv_body move_kv gc_kv do_gc_one empty_visit gc_visit
    gc_collect_by_free_size kv_crc kv_header new_kv new_kv_ex write_kv_hdr write_node create_at
    create_kv_blob format_all write_defaults set_default set_kv set del get_vec
get_stored = refl

get_updated : (get_vec ram short_key (set ram short_key (9 ∷ []) stored).1).0 ≡ some (9 ∷ [])
unfolding ◌+ℤ◌ ◌-ℤ◌ branch try eq_bytes calc_crc32 set_status get_status new read write erase
    ff_scan program_table write_status read_status ff_loop continue_ff_addr write_align crc_loop
    reject_header read_name reject_crc accept_kv judge_kv verify_kv check_kv read_kv magic_scan
    after_window find_loop find_next_kv_addr get_next_kv_addr get_next_sector_addr decode_sector
    sector_header measure_kvs settle_empty traverse_sector after_header read_sector_info
    format_sector sector_loop walk_sectors kv_loop walk_kvs has_room count_visit count_sectors
    alloc_visit alloc_scan alloc_kv update_sec_status matches find_visit find_kv mark_dirty
    delete_at del_old_kv del_key copy_loop move_kv_body move_kv gc_kv do_gc_one empty_visit gc_visit
    gc_collect_by_free_size kv_crc kv_header new_kv new_kv_ex write_kv_hdr write_node create_at
    create_kv_blob format_all write_defaults set_default set_kv set del get_vec
get_updated = refl

get_deleted : (get_vec ram short_key (del ram short_key stored).1).0 ≡ none
unfolding ◌+ℤ◌ ◌-ℤ◌ branch try eq_bytes calc_crc32 set_status get_status new read write erase
    ff_scan program_table write_status read_status ff_loop continue_ff_addr write_align crc_loop
    reject_header read_name reject_crc accept_kv judge_kv verify_kv check_kv read_kv magic_scan
    after_window find_loop find_next_kv_addr get_next_kv_addr get_next_sector_addr decode_sector
    sector_header measure_kvs settle_empty traverse_sector after_header read_sector_info
    format_sector sector_loop walk_sectors kv_loop walk_kvs has_room count_visit count_sectors
    alloc_visit alloc_scan alloc_kv update_sec_status matches find_visit find_kv mark_dirty
    delete_at del_old_kv del_key copy_loop move_kv_body move_kv gc_kv do_gc_one empty_visit gc_visit
    gc_collect_by_free_size kv_crc kv_header new_kv new_kv_ex write_kv_hdr write_node create_at
    create_kv_blob format_all write_defaults set_default set_kv set del get_vec
get_deleted = refl

-- A key of the maximal length is accepted, and then not found.
set_long : (set ram long_key (1 ∷ []) formatted).0 ≡ ok tt
unfolding ◌+ℤ◌ ◌-ℤ◌ branch try eq_bytes calc_crc32 set_status get_status new read write erase
    ff_scan program_table write_status read_status ff_loop continue_ff_addr write_align crc_loop
    reject_header read_name reject_crc accept_kv judge_kv verify_kv check_kv read_kv magic_scan
    after_window find_loop find_next_kv_addr get_next_kv_addr get_next_sector_addr decode_sector
    sector_header measure_kvs settle_empty traverse_sector after_header read_sector_info
    format_sector sector_loop walk_sectors kv_loop walk_kvs has_room count_visit count_sectors
    alloc_visit alloc_scan alloc_kv update_sec_status matches find_visit find_kv mark_dirty
    delete_at del_old_kv del_key copy_loop move_kv_body move_kv gc_kv do_gc_one empty_visit gc_visit
    gc_collect_by_free_size kv_crc kv_header new_kv new_kv_ex write_kv_hdr write_node create_at
    create_kv_blob format_all write_defaults set_default set_kv set del get_vec
set_long = refl

get_long : (get_vec ram long_key (set ram long_key (1 ∷ []) formatted).1).0 ≡ none
unfolding ◌+ℤ◌ ◌-ℤ◌ branch try eq_bytes calc_crc32 set_status get_status new read write erase
    ff_scan program_table write_status read_status ff_loop continue_ff_addr write_align crc_loop
    reject_header read_name reject_crc accept_kv judge_kv verify_kv check_kv read_kv magic_scan
    after_window find_loop find_next_kv_addr get_next_kv_addr get_next_sector_addr decode_sector
    sector_header measure_kvs settle_empty traverse_sector after_header read_sector_info
    format_sector sector_loop walk_sectors kv_loop walk_kvs has_room count_visit count_sectors
    alloc_visit alloc_scan alloc_kv update_sec_status matches find_visit find_kv mark_dirty
    delete_at del_old_kv del_key copy_loop move_kv_body move_kv gc_kv do_gc_one empty_visit gc_visit
    gc_collect_by_free_size kv_crc kv_header new_kv new_kv_ex write_kv_hdr write_node create_at
    create_kv_blob format_all write_defaults set_default set_kv set del get_vec
get_long = refl

found_stored : (find_kv ram short_key blank_kv stored).0.0 ≡ true
unfolding ◌+ℤ◌ ◌-ℤ◌ branch try eq_bytes calc_crc32 set_status get_status new read write erase
    ff_scan program_table write_status read_status ff_loop continue_ff_addr write_align crc_loop
    reject_header read_name reject_crc accept_kv judge_kv verify_kv check_kv read_kv magic_scan
    after_window find_loop find_next_kv_addr get_next_kv_addr get_next_sector_addr decode_sector
    sector_header measure_kvs settle_empty traverse_sector after_header read_sector_info
    format_sector sector_loop walk_sectors kv_loop walk_kvs has_room count_visit count_sectors
    alloc_visit alloc_scan alloc_kv update_sec_status matches find_visit find_kv mark_dirty
    delete_at del_old_kv del_key copy_loop move_kv_body move_kv gc_kv do_gc_one empty_visit gc_visit
    gc_collect_by_free_size kv_crc kv_header new_kv new_kv_ex write_kv_hdr write_node create_at
    create_kv_blob format_all write_defaults set_default set_kv set del get_vec
found_stored = refl

find_kv-matches_example :
    let got = (find_kv ram short_key blank_kv stored).0.1 in
    (got.crc_is_ok ≡ true)
    × (KvStatus.eq got.status KvStatus.write ≡ true)
    × (got.name_len ≡ length short_key)
    × (take got.name_len got.name ≡ short_key)
find_kv-matches_example = find_kv-matches ram short_key blank_kv stored found_stored

ends_in_a : get_or long_key 63 0 ≢ 0
ends_in_a h = omega arith

find_kv-full_key_example : (find_kv ram long_key blank_kv stored).0.0 ≡ false
find_kv-full_key_example = find_kv-full_key ram long_key refl ends_in_a blank_kv stored

length-new : (n : ℕ) → length (new n).mem ≡ n
unfolding new
length-new n = length-replicate n 0xff

crc_loop-slice_example :
    crc_loop ram 40 10 40 (replicate 32 0) 0 0 blank_db
    ≡ (calc_crc32 0 (slice (ram_array.byte (new 768)) 10 40), blank_db)
crc_loop-slice_example =
    crc_loop-slice ram ram_array blank_db 40 10 40 (replicate 32 0) 0 0 refl (omega arith)
      (omega arith) (omega arith) (rw (capacity-ram_array, length-new 768) (omega arith))

abbrev at_16 : Kv
at_16 = record blank_kv { addr_start = 16 }

read_kv-write_node_example :
    let (result, db') = write_node ram 16 short_key (1 ∷ 2 ∷ 3 ∷ []) blank_db in
    let got = read_node at_16 2 short_key (1 ∷ 2 ∷ 3 ∷ []) in
    (result ≡ ok tt)
    × (read_kv ram at_16 db' ≡ ((ok tt, got), db'))
    × (matches short_key got ≡ true)
    × (slice (ram_array.byte db'.storage) 41 3 ≡ 1 ∷ 2 ∷ 3 ∷ [])
read_kv-write_node_example =
    read_kv-write_node ram ram_array at_16 short_key (1 ∷ 2 ∷ 3 ∷ []) blank_db (omega arith) refl
      (omega arith) (rw (capacity-ram_array, length-new 768) (omega arith)) (omega arith)
      (omega arith)

abbrev first_sector : KvSecInfo
first_sector = record {
  check_ok = true;
  store = SectorStoreStatus.empty;
  dirty = SectorDirtyStatus.clean;
  addr = 0;
  combined = sector_not_combined;
  remain = pos 240;
  empty_kv = 16;
}

scan_formatted : (alloc_scan ram SectorStoreStatus.empty 30 formatted).0 ≡ some first_sector
unfolding ◌+ℤ◌ ◌-ℤ◌ branch try eq_bytes calc_crc32 set_status get_status new read write erase
    ff_scan program_table write_status read_status ff_loop continue_ff_addr write_align crc_loop
    reject_header read_name reject_crc accept_kv judge_kv verify_kv check_kv read_kv magic_scan
    after_window find_loop find_next_kv_addr get_next_kv_addr get_next_sector_addr decode_sector
    sector_header measure_kvs settle_empty traverse_sector after_header read_sector_info
    format_sector sector_loop walk_sectors kv_loop walk_kvs has_room count_visit count_sectors
    alloc_visit alloc_scan alloc_kv update_sec_status matches find_visit find_kv mark_dirty
    delete_at del_old_kv del_key copy_loop move_kv_body move_kv gc_kv do_gc_one empty_visit gc_visit
    gc_collect_by_free_size kv_crc kv_header new_kv new_kv_ex write_kv_hdr write_node create_at
    create_kv_blob format_all write_defaults set_default set_kv set del get_vec
scan_formatted = refl

alloc_scan-IsRoomy_example : IsRoomy 30 first_sector
alloc_scan-IsRoomy_example =
    alloc_scan-IsRoomy ram SectorStoreStatus.empty 30 formatted first_sector scan_formatted

count_sectors-enough_example :
    sector_loop
      (count_visit ram)
      (blank_db.max_size / blank_db.sec_size + 1 + 5)
      0
      0
      (0, 0)
      blank_db
    ≡ count_sectors ram blank_db
count_sectors-enough_example = count_sectors-enough ram 5 blank_db (omega arith) (omega arith)

get_next_kv_addr-InRange_example :
    InRange 17 240 (get_next_kv_addr ram first_sector (record at_16 { len = 30 }) blank_db).0
get_next_kv_addr-InRange_example =
    get_next_kv_addr-InRange ram first_sector (record at_16 { len = 30 }) blank_db (omega arith)
      (omega arith) (omega arith) (omega arith) (omega arith)

abbrev written : Kvdb RamStorage
written = record blank_db {
  storage = (valid ram ram_array 16 short_key (1 ∷ 2 ∷ 3 ∷ []) blank_db).1;
}

fits_16 : 16 + 24 + 1 + 3 ≤ ram_array.capacity blank_db.storage
fits_16 = rw (capacity-ram_array, length-new 768) (omega arith)

read_kv-delete_at_example :
    let (result, db') = delete_at ram 16 true written in
    let got = read_node at_16 4 short_key (1 ∷ 2 ∷ 3 ∷ []) in
    (result ≡ ok tt)
    × (read_kv ram at_16 db' ≡ ((ok tt, got), db'))
    × (matches short_key got ≡ false)
read_kv-delete_at_example =
    read_kv-delete_at ram ram_array at_16 true short_key (1 ∷ 2 ∷ 3 ∷ []) written (omega arith) refl
      (omega arith)
      (rw
        (capacity-valid ram ram_array 16 short_key (1 ∷ 2 ∷ 3 ∷ []) blank_db (omega arith) fits_16)
        fits_16)
      (omega arith) (omega arith) (omega arith)
      (valid-IsNode ram ram_array 16 short_key (1 ∷ 2 ∷ 3 ∷ []) blank_db (omega arith) fits_16)

read_sector_info-format_sector_example :
    let (result, db') = format_sector ram 256 sector_not_combined blank_db in
    (result ≡ ok tt)
    × (read_sector_info ram 256 first_sector true db' ≡ ((ok tt, fresh_sector 256 256), db'))
    × ((x : ℕ) → 272 ≤ x → x < 512 → ram_array.byte db'.storage x ≡ 0xff)
    × ((x : ℕ)
        → (x < 256) ⊎ (512 ≤ x)
        → ram_array.byte db'.storage x ≡ ram_array.byte blank_db.storage x)
read_sector_info-format_sector_example =
    read_sector_info-format_sector ram ram_array 256 first_sector blank_db (omega arith)
      (omega arith) (rw (capacity-ram_array, length-new 768) (omega arith))
