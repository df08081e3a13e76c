-- ===== src/Tsdb/Types.antt =====
-- tsdb.rs: constants, logs, sector descriptors and the database object.
use flash_db_rust.Base.{
  ℕ, ◌+◌, ◌-◌, ◌*◌, ◌/◌, Bool, false, List, ℤ, pos, i32_of_word, word_of_i32, Cmd, from_le_bytes,
  to_le_bytes, get_or, wrapping_add, wrapping_sub, leb, if◌then◌else◌,
}
use flash_db_rust.Def.{failed_addr}
use flash_db_rust.Def.StoreStatus
use flash_db_rust.Def.StoreStatus.{SectorStoreStatus}
use flash_db_rust.Def.TslStatus.{TslStatus}

-- `TSL0`
abbrev pub sector_magic_word : ℕ
sector_magic_word = 0x304c_5354

abbrev pub sector_hdr_data_size : ℕ
sector_hdr_data_size = 32

abbrev pub sector_magic_offset : ℕ
sector_magic_offset = 1

abbrev pub sector_start_time_offset : ℕ
sector_start_time_offset = 5

abbrev pub sector_end0_time_offset : ℕ
sector_end0_time_offset = 9

abbrev pub sector_end0_idx_offset : ℕ
sector_end0_idx_offset = 13

abbrev pub sector_end0_status_offset : ℕ
sector_end0_status_offset = 17

abbrev pub sector_end1_time_offset : ℕ
sector_end1_time_offset = 18

abbrev pub sector_end1_idx_offset : ℕ
sector_end1_idx_offset = 22

abbrev pub sector_end1_status_offset : ℕ
sector_end1_status_offset = 26

abbrev pub log_idx_data_size : ℕ
log_idx_data_size = 16

abbrev pub log_idx_ts_offset : ℕ
log_idx_ts_offset = 4

abbrev pub rd_u32 : List ℕ → ℕ → ℕ
rd_u32 buf off =
    from_le_bytes (get_or buf off 0) (get_or buf (off + 1) 0) (get_or buf (off + 2) 0)
      (get_or buf (off + 3) 0)

abbrev pub rd_i32 : List ℕ → ℕ → ℤ
rd_i32 buf off = i32_of_word (rd_u32 buf off)

-- `i32::to_le_bytes`
abbrev pub time_bytes : ℤ → List ℕ
time_bytes t = to_le_bytes (word_of_i32 t)

-- `align_up` of a number that is not negative; the source maps the negative ones to 0.
abbrev pub align_up : ℕ → ℕ → ℕ
align_up x a = (x + a - 1) / a * a

pub record Tsl : Type 0 where
  pub status : TslStatus
  pub time : ℤ
  pub log_len : ℕ
  pub addr_index : ℕ
  pub addr_log : ℕ

-- `Tsl::blank`
abbrev pub blank_tsl : Tsl
blank_tsl = record {
  status = TslStatus.unused;
  time = pos 0;
  log_len = 0;
  addr_index = failed_addr;
  addr_log = failed_addr;
}

pub record TsdbSecInfo : Type 0 where
  pub check_ok : Bool
  pub status : SectorStoreStatus
  pub addr : ℕ
  pub start_time : ℤ
  pub end_time : ℤ
  pub end_idx : ℕ
  pub end_info_stat : TslStatus × TslStatus
  pub remain : ℤ
  pub empty_idx : ℕ
  pub empty_data : ℕ

-- `TsdbSecInfo::blank`
abbrev pub blank_sector : TsdbSecInfo
blank_sector = record {
  check_ok = false;
  status = SectorStoreStatus.unused;
  addr = 0;
  start_time = pos 0;
  end_time = pos 0;
  end_idx = 0;
  end_info_stat = (TslStatus.unused, TslStatus.unused);
  remain = pos 0;
  empty_idx = 0;
  empty_data = 0;
}

unfoldable pub get_next_tsl_addr : TsdbSecInfo → ℕ → ℕ
get_next_tsl_addr sector addr_index =
    if StoreStatus.eq sector.status SectorStoreStatus.empty
    then failed_addr
    else if leb (wrapping_add addr_index log_idx_data_size) sector.end_idx
    then wrapping_add addr_index log_idx_data_size
    else failed_addr

unfoldable pub get_last_tsl_addr : TsdbSecInfo → ℕ → ℕ
get_last_tsl_addr sector addr_index =
    if StoreStatus.eq sector.status SectorStoreStatus.empty
    then failed_addr
    else if leb (wrapping_add (wrapping_add sector.addr sector_hdr_data_size) log_idx_data_size)
        addr_index
    then wrapping_sub addr_index log_idx_data_size
    else failed_addr

pub data Dir : Type 0 where
  fwd rev : Dir

-- The database over a backend's state and the state of the clock, which is what the closure
-- `get_time` holds.
pub record Tsdb (S T : Type 0) : Type 0 where
  pub storage : S
  pub sec_size : ℕ
  pub max_size : ℕ
  pub oldest_addr : ℕ
  pub init_ok : Bool
  pub not_formatable : Bool
  pub clock : T
  pub max_len : ℕ
  pub rollover : Bool
  pub last_time : ℤ
  pub cur_sec : TsdbSecInfo

-- A call on `self.storage`.
abbrev pub on_storage : {S T A : Type 0} → Cmd S A → Cmd (Tsdb S T) A
on_storage m db = let (a, s) = m db.storage in (a, record db { storage = s })
