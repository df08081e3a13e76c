-- ===== src/Kvdb/Create.antt =====
-- kvdb.rs: allocating and writing a node, and the default set.
pub mod Node
pub mod Write
pub mod RoundTrip
pub mod Delete
use flash_db_rust.Base.{
  ℕ, zero, suc, ◌%◌, ◌/◌, true, false, List, [], ◌∷◌, ◌++◌, Cmd, Result, ok, err, kv_name_err,
  saved_full, pure, gets, modify, ◌>>=◌, ◌>>◌, try, length, drop, replicate, u32, wrapping_add,
  wrapping_sub, to_le_bytes, ltb, ◌==◌, if◌then◌else◌,
}
use flash_db_rust.Crc32.{calc_crc32}
use flash_db_rust.Def.{failed_addr, kv_name_max, kv_status_num, wg_align}
use flash_db_rust.Def.KvStatus
use flash_db_rust.Def.KvStatus.{KvStatus}
use flash_db_rust.Storage.{Storage}
use flash_db_rust.Flash.{write_status, write_align}
use flash_db_rust.Kvdb.Types.{
  KvSecInfo, Kvdb, blank_sector, kv_hdr_data_size, kv_magic_offset, kv_magic_word,
  sector_hdr_data_size, sector_not_combined, on_storage,
}
use flash_db_rust.Kvdb.Sector.{format_sector}
use flash_db_rust.Kvdb.Alloc.{alloc_kv, update_sec_status}
use flash_db_rust.Kvdb.Gc.{gc_collect_by_free_size}

-- The length of the node for a name and a value.
abbrev pub node_len : ℕ → ℕ → ℕ
node_len name_len value_len =
    wrapping_add (wrapping_add kv_hdr_data_size (wg_align name_len)) (wg_align value_len)

-- Bytes 16 to 20 of a header: the length of the name, and padding.
abbrev pub name_len_bytes : ℕ → List ℕ
name_len_bytes name_len = name_len % 256 ∷ replicate 3 0xff

-- The checksum of a node, over the lengths, the name and the value.
unfoldable pub kv_crc : List ℕ → List ℕ → ℕ
kv_crc key value =
    let head = calc_crc32 0 (name_len_bytes (length key)) in
    let head = calc_crc32 head (to_le_bytes (u32 (length value))) in
    calc_crc32 (calc_crc32 head key) value

-- The 24 bytes of a header; the first word is left erased.
unfoldable pub kv_header : ℕ → List ℕ → List ℕ → List ℕ
kv_header kv_len key value =
    replicate 4 0xff
    ++ (to_le_bytes kv_magic_word
        ++ (to_le_bytes kv_len
            ++ (to_le_bytes (kv_crc key value)
                ++ (name_len_bytes (length key) ++ to_le_bytes (u32 (length value))))))

module _ {S : Type 0} (st : Storage S) where
  unfoldable pub new_kv : KvSecInfo → ℕ → Cmd (Kvdb S) (ℕ × KvSecInfo)
  new_kv sector kv_size = do
    (empty_kv, sector) ← alloc_kv st sector kv_size
    gc_request ← gets (λ db. db.gc_request)
    if empty_kv == failed_addr
        then (if gc_request
            then (do
              gc_collect_by_free_size st kv_size
              (empty_kv, sector) ← alloc_kv st sector kv_size
              if empty_kv == failed_addr
                  then (do
                    modify (λ db. record db { gc_request = false })
                    pure (failed_addr, sector))
                  else pure (empty_kv, sector))
            else pure (failed_addr, sector))
        else pure (empty_kv, sector)

  unfoldable pub new_kv_ex : KvSecInfo → ℕ → ℕ → Cmd (Kvdb S) (ℕ × KvSecInfo)
  new_kv_ex sector key_len buf_len = new_kv sector (node_len key_len buf_len)

  unfoldable pub write_kv_hdr : ℕ → List ℕ → Cmd (Kvdb S) (Result (Unit {0}))
  write_kv_hdr addr hdr =
      try
        (on_storage (write_status st addr kv_status_num (KvStatus.index KvStatus.pre_write) false))
        λ _.
          on_storage (st.write (wrapping_add addr kv_magic_offset) (drop kv_magic_offset hdr) false)

  -- The writes of `create_kv_blob` at an allocated address: the header with the state that it is
  -- being written, the name, the value, and last the state that it is valid.
  unfoldable pub write_node : ℕ → List ℕ → List ℕ → Cmd (Kvdb S) (Result (Unit {0}))
  write_node kv_addr key value =
      let name_len = u32 (length key) in
      let name_addr = wrapping_add kv_addr kv_hdr_data_size in
      try (write_kv_hdr kv_addr (kv_header (node_len name_len (u32 (length value))) key value)) λ _.
        try (on_storage (write_align st name_addr key)) λ _.
          try (on_storage (write_align st (wrapping_add name_addr (wg_align name_len)) value)) λ _.
            on_storage (write_status st kv_addr kv_status_num (KvStatus.index KvStatus.write) true)

  -- The rest of `create_kv_blob`, once an address is known.
  unfoldable pub create_at : ℕ → KvSecInfo → ℕ → List ℕ → List ℕ → Cmd (Kvdb S) (Result (Unit {0}))
  create_at kv_addr sector kv_len key value =
      if kv_addr == failed_addr
      then pure (err saved_full)
      else try (update_sec_status st sector kv_len) λ is_full.
        try (write_node kv_addr key value) λ _. do
          if is_full then modify (λ db. record db { gc_request = true }) else pure tt
          pure (ok tt)

  unfoldable pub create_kv_blob : KvSecInfo → List ℕ → List ℕ → Cmd (Kvdb S) (Result (Unit {0}))
  create_kv_blob sector key value = do
    sec_size ← gets (λ db. db.sec_size)
    let kv_len = node_len (u32 (length key)) (u32 (length value))
    if ltb kv_name_max (length key)
        then pure (err kv_name_err)
        else if ltb (wrapping_sub sec_size sector_hdr_data_size) kv_len
        then pure (err saved_full)
        else if sector.empty_kv == failed_addr
        then (do
          (kv_addr, sector) ← new_kv sector kv_len
          create_at kv_addr sector kv_len key value)
        else create_at sector.empty_kv sector kv_len key value

  -- The first loop of `set_default`, with the sectors left to format.
  unfoldable pub format_all : ℕ → ℕ → Cmd (Kvdb S) (Result (Unit {0}))
  format_all zero addr = pure (ok tt)
  format_all (suc sectors) addr = λ db.
      try (format_sector st addr sector_not_combined)
        (λ _. format_all sectors (wrapping_add addr db.sec_size)) db

  unfoldable pub write_defaults : List (List ℕ × List ℕ) → Cmd (Kvdb S) (Unit {0})
  write_defaults [] = pure tt
  write_defaults ((k, v) ∷ kvs) = do create_kv_blob blank_sector k v; write_defaults kvs

  -- `set_default`; the defaults are taken out while they are written.
  unfoldable pub set_default : Cmd (Kvdb S) (Result (Unit {0}))
  set_default db =
      try (format_all (db.max_size / db.sec_size) 0)
        (λ _. do
          defaults ← gets (λ db. db.default_kvs)
          modify (λ db. record db { default_kvs = [] })
          write_defaults defaults
          modify (λ db. record db { default_kvs = defaults; oldest_addr = 0 })
          pure (ok tt))
        db
