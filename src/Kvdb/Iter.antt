-- ===== src/Kvdb/Iter.antt =====
-- kvdb.rs: the iterator over the live nodes.
use flash_db_rust.Base.{
  ℕ, zero, suc, ◌+◌, ◌/◌, Bool, true, false, List, [], ◌∷◌, ◌++◌, ◌&&◌, Cmd, is_ok, pure, gets,
  ◌>>=◌, wrapping_add, ◌==◌, if◌then◌else◌,
}
use flash_db_rust.Def.{failed_addr}
use flash_db_rust.Def.KvStatus
use flash_db_rust.Def.KvStatus.{KvStatus}
use flash_db_rust.Storage.{Storage}
use flash_db_rust.Kvdb.Types.{Kv, KvSecInfo, KvIterator, Kvdb, blank_kv, blank_sector}
use flash_db_rust.Kvdb.Next.{get_next_kv_addr}
use flash_db_rust.Kvdb.Sector.{get_next_sector_addr, read_sector_info}
use flash_db_rust.Kvdb.Walk.{walk_kvs}
use flash_db_rust.Kvdb.Find.{in_use, first_kv}

module _ {S : Type 0} (st : Storage S) where
  unfoldable pub iterator : Kvdb S → KvIterator
  iterator db = record {
    curr_kv = record blank_kv { addr_start = 0 };
    iterated_cnt = 0;
    iterated_obj_bytes = 0;
    iterated_value_bytes = 0;
    sector_addr = db.oldest_addr;
    traversed_len = 0;
  }

  -- Sets the iterator to the next sector; false at the end of the ring.
  unfoldable pub next_sector : KvIterator → KvSecInfo → Cmd (Kvdb S) (Bool × KvIterator)
  next_sector it sector = do
    sec_size ← gets (λ db. db.sec_size)
    max_size ← gets (λ db. db.max_size)
    let traversed = wrapping_add it.traversed_len sec_size
    let nsec = get_next_sector_addr sec_size max_size sector traversed
    let at_start = record (it.curr_kv) { addr_start = 0 }
    pure (
        if nsec == failed_addr
        then (false, record it { curr_kv = at_start; traversed_len = traversed })
        else (
          true,
          record it { curr_kv = at_start; traversed_len = traversed; sector_addr = nsec },
        ))

  -- The node that the inner loop of `iterate` starts from, or `failed_addr`.
  unfoldable pub start_addr : KvIterator → KvSecInfo → Cmd (Kvdb S) ℕ
  start_addr it sector =
      if it.curr_kv.addr_start == 0
      then pure (first_kv sector)
      else get_next_kv_addr st sector it.curr_kv

  -- The inner loop of `iterate`: whether a live node was found in the sector.
  unfoldable pub live_in_sector : KvIterator → KvSecInfo → ℕ → Cmd (Kvdb S) (Bool × KvIterator)
  live_in_sector it sector addr = do
    (stop, kv, _) ←
        walk_kvs st
          (λ _ kv (_ : Unit {0}). pure (KvStatus.eq kv.status KvStatus.write && kv.crc_is_ok, tt))
          sector (record (it.curr_kv) { addr_start = addr }) tt
    pure (
        if stop
        then (
          true,
          record it {
            curr_kv = kv;
            iterated_cnt = wrapping_add it.iterated_cnt 1;
            iterated_obj_bytes = it.iterated_obj_bytes + kv.len;
            iterated_value_bytes = it.iterated_value_bytes + kv.value_len;
          },
        )
        else (false, record it { curr_kv = kv }))

  -- One round for each sector that is left; the sector descriptor is reused between rounds.
  unfoldable pub iterate_loop : ℕ → KvIterator → KvSecInfo → Cmd (Kvdb S) (Bool × KvIterator)
  iterate_loop zero it sector = pure (false, it)
  iterate_loop (suc fuel) it sector = do
    (r, sector) ← read_sector_info st it.sector_addr sector false
    addr ← if is_ok r && in_use sector then start_addr it sector else pure failed_addr
    (found, it) ← if addr == failed_addr then pure (false, it) else live_in_sector it sector addr
    if found then pure (true, it) else (do
      (more, it) ← next_sector it sector
      if more then iterate_loop fuel it sector else pure (false, it))

  unfoldable pub iterate : KvIterator → Cmd (Kvdb S) (Bool × KvIterator)
  iterate it db = iterate_loop (db.max_size / db.sec_size + 2) it blank_sector db

  -- The loop of `iter_collect`; each round takes a node that starts in its own place.
  unfoldable pub collect_loop : ℕ → KvIterator → List Kv → Cmd (Kvdb S) (List Kv)
  collect_loop zero it out = pure out
  collect_loop (suc fuel) it out = do
    (more, it) ← iterate it
    if more then collect_loop fuel it (out ++ it.curr_kv ∷ []) else pure out

  unfoldable pub iter_collect : Cmd (Kvdb S) (List Kv)
  iter_collect db = collect_loop (db.max_size + 1) (iterator db) [] db
