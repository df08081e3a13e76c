-- ===== src/Def.antt =====
-- def.rs: the constants and the status enumerations that both databases share.
pub mod KvStatus
pub mod StoreStatus
pub mod DirtyStatus
pub mod TslStatus
use flash_db_rust.Base.{ℕ, ◌+◌, ◌*◌, ◌/◌}

abbrev pub write_gran : ℕ
write_gran = 1

abbrev pub byte_erased : ℕ
byte_erased = 0xff

abbrev pub byte_written : ℕ
byte_written = 0x00

abbrev pub kv_name_max : ℕ
kv_name_max = 64

abbrev pub str_kv_value_max_size : ℕ
str_kv_value_max_size = 128

-- `FAILED_ADDR` of kvdb.rs
abbrev pub failed_addr : ℕ
failed_addr = 0xffff_ffff

abbrev pub data_unused : ℕ
data_unused = 0xffff_ffff

abbrev pub status_table_size : ℕ → ℕ
status_table_size n = (n * write_gran + 7) / 8

abbrev pub wg_align : ℕ → ℕ
wg_align size = size

abbrev pub align_down : ℕ → ℕ → ℕ
align_down size align = size / align * align

abbrev pub kv_status_num : ℕ
kv_status_num = 6

abbrev pub sector_store_status_num : ℕ
sector_store_status_num = 4

abbrev pub sector_dirty_status_num : ℕ
sector_dirty_status_num = 4

abbrev pub tsl_status_num : ℕ
tsl_status_num = 6
