-- ===== src/Kvdb/Record.antt =====
-- kvdb.rs: `read_kv`, which reads and checks one node.
pub mod Crc
use flash_db_rust.Base.{
  ℕ, zero, suc, ◌+◌, ◌-◌, min, Bool, true, false, List, ◌++◌, not, ◌||◌, Cmd, Result, ok, err,
  read_err, pure, gets, ◌>>=◌, ◌>>◌, get_or, set, take, drop, replicate, wrapping_add, leb, ltb,
  ◌==◌, if◌then◌else◌,
}
use flash_db_rust.Crc32.{calc_crc32}
use flash_db_rust.Def.{kv_name_max, kv_status_num, failed_addr, wg_align}
use flash_db_rust.Def.KvStatus
use flash_db_rust.Def.KvStatus.{KvStatus}
use flash_db_rust.Status.{get_status}
use flash_db_rust.Storage.{Storage}
use flash_db_rust.Flash.{write_status}
use flash_db_rust.Kvdb.Types.{Kv, Kvdb, kv_hdr_data_size, rd_u32, on_storage}

abbrev pub impossible_len : ℕ → ℕ → Bool
impossible_len max_size len = len == 0xffff_ffff || ltb max_size len || ltb len kv_hdr_data_size

module _ {S : Type 0} (st : Storage S) where
  -- The loop over the name and the value, in chunks of at most 32 bytes; `n` bytes from `base`.
  unfoldable pub crc_loop : ℕ → ℕ → ℕ → List ℕ → ℕ → ℕ → Cmd (Kvdb S) ℕ
  crc_loop zero base n buf len calc = pure calc
  crc_loop (suc fuel) base n buf len calc =
      if ltb len n
      then (do
        let size = min 32 (n - len)
        (_, chunk) ← on_storage (st.read (wrapping_add base len) (take size buf))
        crc_loop fuel base n (chunk ++ drop size buf) (len + size) (calc_crc32 calc chunk))
      else pure calc

  -- The branch for a header whose length is impossible.
  unfoldable pub reject_header : Kv → Cmd (Kvdb S) (Result (Unit {0}) × Kv)
  reject_header kv = do
    if KvStatus.eq kv.status KvStatus.err_hdr
        then pure (ok tt)
        else on_storage
            (write_status st kv.addr_start kv_status_num (KvStatus.index KvStatus.err_hdr) true)
    pure (
      err read_err,
      record kv { len = kv_hdr_data_size; status = KvStatus.err_hdr; crc_is_ok = false },
    )

  -- Reads the first `n` bytes of the name, over those that the node held before.
  unfoldable pub read_name : Kv → ℕ → Cmd (Kvdb S) (List ℕ)
  read_name kv n = do
    (_, got) ← on_storage (st.read (wrapping_add kv.addr_start kv_hdr_data_size) (take n kv.name))
    pure (got ++ drop n kv.name)

  unfoldable pub reject_crc : Kv → List ℕ → Cmd (Kvdb S) (Result (Unit {0}) × Kv)
  reject_crc kv hdr = do
    name ← read_name kv (min (get_or hdr 16 0) kv_name_max)
    pure (err read_err, record kv { crc_is_ok = false; name = name; name_len = get_or hdr 16 0 })

  -- The name is cut at its last place when it fills the array.
  unfoldable pub accept_kv : Kv → List ℕ → Cmd (Kvdb S) (Result (Unit {0}) × Kv)
  accept_kv kv hdr = do
    let hdr_name_len = get_or hdr 16 0
    name ← read_name kv (min hdr_name_len kv_name_max)
    let nl = if leb kv_name_max hdr_name_len then kv_name_max - 1 else hdr_name_len
    pure (
      ok tt,
      record kv {
        crc_is_ok = true;
        addr_value =
            wrapping_add (wrapping_add kv.addr_start kv_hdr_data_size) (wg_align hdr_name_len);
        value_len = rd_u32 hdr 20;
        name_len = hdr_name_len;
        name = set name nl 0;
      },
    )

  -- The comparison of the checksum that was computed with the stored one.
  unfoldable pub judge_kv : Kv → List ℕ → ℕ → Cmd (Kvdb S) (Result (Unit {0}) × Kv)
  judge_kv kv hdr calc = if not (calc == rd_u32 hdr 12) then reject_crc kv hdr else accept_kv kv hdr

  -- The checksum over the two length words of the header, the name and the value.
  unfoldable pub verify_kv : Kv → List ℕ → Cmd (Kvdb S) (Result (Unit {0}) × Kv)
  verify_kv kv hdr = do
    let head = calc_crc32 (calc_crc32 0 (take 4 (drop 16 hdr))) (take 4 (drop 20 hdr))
    let n = kv.len - kv_hdr_data_size
    calc ← crc_loop n (wrapping_add kv.addr_start kv_hdr_data_size) n (replicate 32 0) 0 head
    judge_kv kv hdr calc

  -- After the header was read: `kv` has its status and length.
  unfoldable pub check_kv : Kv → List ℕ → Cmd (Kvdb S) (Result (Unit {0}) × Kv)
  check_kv kv hdr db =
      (if impossible_len db.max_size kv.len then reject_header kv else verify_kv kv hdr) db

  unfoldable pub read_kv : Kv → Cmd (Kvdb S) (Result (Unit {0}) × Kv)
  read_kv kv = do
    (_, hdr) ← on_storage (st.read kv.addr_start (replicate kv_hdr_data_size 0))
    check_kv
        (record kv {
          status = KvStatus.from_index (get_status (take 1 hdr) kv_status_num);
          len = rd_u32 hdr 8;
        })
        hdr
