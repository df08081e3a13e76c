-- ===== src/Kvdb/Types.antt =====
-- kvdb.rs: constants, nodes, sector descriptors, the iterator and the database object.
use flash_db_rust.Base.{ℕ, ◌+◌, Bool, false, List, get_or, replicate, ℤ, pos, Cmd, from_le_bytes}
use flash_db_rust.Def.{kv_name_max, failed_addr}
use flash_db_rust.Def.KvStatus.{KvStatus}
use flash_db_rust.Def.StoreStatus.{SectorStoreStatus}
use flash_db_rust.Def.DirtyStatus.{SectorDirtyStatus}

-- `FDB1` and `KV00`
abbrev pub sector_magic_word : ℕ
sector_magic_word = 0x3042_4446

abbrev pub kv_magic_word : ℕ
kv_magic_word = 0x3030_564b

abbrev pub sector_hdr_data_size : ℕ
sector_hdr_data_size = 16

abbrev pub sector_dirty_offset : ℕ
sector_dirty_offset = 1

abbrev pub sector_magic_offset : ℕ
sector_magic_offset = 4

abbrev pub kv_hdr_data_size : ℕ
kv_hdr_data_size = 24

abbrev pub kv_magic_offset : ℕ
kv_magic_offset = 4

abbrev pub sector_not_combined : ℕ
sector_not_combined = 0xffff_ffff

abbrev pub sector_combined : ℕ
sector_combined = 0x0000_0000

abbrev pub sec_remain_threshold : ℕ
sec_remain_threshold = kv_hdr_data_size + kv_name_max

abbrev pub gc_empty_sec_threshold : ℕ
gc_empty_sec_threshold = 1

-- A word of a buffer that was read from storage.
abbrev pub rd_u32 : List ℕ → ℕ → ℕ
rd_u32 buf off =
    from_le_bytes (get_or buf off 0) (get_or buf (off + 1) 0) (get_or buf (off + 2) 0)
      (get_or buf (off + 3) 0)

pub record Kv : Type 0 where
  pub status : KvStatus
  pub crc_is_ok : Bool
  pub name_len : ℕ
  pub len : ℕ
  pub value_len : ℕ
  pub name : List ℕ
  pub addr_start : ℕ
  pub addr_value : ℕ

-- `Kv::blank`
abbrev pub blank_kv : Kv
blank_kv = record {
  status = KvStatus.unused;
  crc_is_ok = false;
  name_len = 0;
  len = 0;
  value_len = 0;
  name = replicate kv_name_max 0;
  addr_start = failed_addr;
  addr_value = failed_addr;
}

pub record KvSecInfo : Type 0 where
  pub check_ok : Bool
  pub store : SectorStoreStatus
  pub dirty : SectorDirtyStatus
  pub addr : ℕ
  pub combined : ℕ
  pub remain : ℤ
  pub empty_kv : ℕ

-- `KvSecInfo::blank`
abbrev pub blank_sector : KvSecInfo
blank_sector = record {
  check_ok = false;
  store = SectorStoreStatus.unused;
  dirty = SectorDirtyStatus.unused;
  addr = 0;
  combined = sector_not_combined;
  remain = pos 0;
  empty_kv = failed_addr;
}

pub record KvIterator : Type 0 where
  pub curr_kv : Kv
  pub iterated_cnt : ℕ
  pub iterated_obj_bytes : ℕ
  pub iterated_value_bytes : ℕ
  pub sector_addr : ℕ
  pub traversed_len : ℕ

pub record Kvdb (S : Type 0) : Type 0 where
  pub storage : S
  pub sec_size : ℕ
  pub max_size : ℕ
  pub oldest_addr : ℕ
  pub init_ok : Bool
  pub not_formatable : Bool
  pub gc_request : Bool
  pub in_recovery_check : Bool
  pub last_is_complete_del : Bool
  pub default_kvs : List (List ℕ × List ℕ)

-- A call on `self.storage`.
abbrev pub on_storage : {S A : Type 0} → Cmd S A → Cmd (Kvdb S) A
on_storage m db = let (a, s) = m db.storage in (a, record db { storage = s })
