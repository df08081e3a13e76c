-- ===== src/Kvdb/Load.antt =====
-- kvdb.rs: opening a database, and recovery after a power loss.
use flash_db_rust.Base.{
  ℕ, zero, suc, ◌+◌, ◌/◌, Bool, true, false, Option, none, some, List, not, ◌&&◌, Cmd, Result, ok,
  err, read_err, is_ok, pure, gets, modify, ◌>>=◌, ◌>>◌, ltb, ◌==◌, if◌then◌else◌,
}
use flash_db_rust.Db.{validate_geometry}
use flash_db_rust.Def.{kv_status_num}
use flash_db_rust.Def.KvStatus
use flash_db_rust.Def.KvStatus.{KvStatus}
use flash_db_rust.Def.StoreStatus
use flash_db_rust.Def.StoreStatus.{SectorStoreStatus}
use flash_db_rust.Def.DirtyStatus
use flash_db_rust.Def.DirtyStatus.{SectorDirtyStatus}
use flash_db_rust.Storage.{Storage}
use flash_db_rust.Flash.{write_status}
use flash_db_rust.Kvdb.Types.{Kv, Kvdb, blank_kv, blank_sector, sector_not_combined, on_storage}
use flash_db_rust.Kvdb.Sector.{read_sector_info, format_sector}
use flash_db_rust.Kvdb.Walk.{Visit, walk_sectors, walk_kvs}
use flash_db_rust.Kvdb.Find.{in_use, first_kv}
use flash_db_rust.Kvdb.Gc.{move_kv, gc_collect}
use flash_db_rust.Kvdb.Create.{set_default}

-- The end of `with_options`, on what `kv_load` returned.
unfoldable pub opened :
    {S : Type 0} → Option (Result (Unit {0})) → Kvdb S → Option (Result (Kvdb S))
opened none db = none
opened (some (err e)) db = some (err e)
opened (some (ok _)) db = some (ok (record db { init_ok = true }))

module _ {S : Type 0} (st : Storage S) where
  -- The oldest sector so far, and the status of the sector before.
  unfoldable pub oldest_visit :
      ℕ → ℕ × SectorStoreStatus → Cmd (Kvdb S) (Visit (ℕ × SectorStoreStatus))
  oldest_visit sec_addr (oldest, last_status) = do
    (_, s) ← read_sector_info st sec_addr blank_sector false
    pure (record {
      stop = false;
      sector = s;
      acc = (
        if StoreStatus.eq last_status SectorStoreStatus.empty && in_use s then s.addr else oldest,
        s.store,
      );
    })

  unfoldable pub find_oldest_addr : Cmd (Kvdb S) (Unit {0})
  find_oldest_addr = do
    modify (λ db. record db { oldest_addr = 0 })
    (oldest, _) ← walk_sectors oldest_visit 0 (0, SectorStoreStatus.unused)
    modify (λ db. record db { oldest_addr = oldest })

  -- The first loop of `kv_load`: bad headers are counted, and formatted if that is allowed.
  unfoldable pub header_visit : ℕ → ℕ → Cmd (Kvdb S) (Visit ℕ)
  header_visit sec_addr failed = do
    (_, s) ← read_sector_info st sec_addr blank_sector false
    not_formatable ← gets (λ db. db.not_formatable)
    if s.check_ok
        then pure (record { stop = false; sector = s; acc = failed })
        else if not_formatable
        then pure (record { stop = true; sector = s; acc = failed + 1 })
        else (do
          format_sector st s.addr sector_not_combined
          pure (record { stop = false; sector = s; acc = failed + 1 }))

  -- The second loop: an interrupted collection is resumed.
  unfoldable pub resume_visit : ℕ → Unit {0} → Cmd (Kvdb S) (Visit (Unit {0}))
  resume_visit sec_addr acc = do
    (_, s) ← read_sector_info st sec_addr blank_sector false
    if s.check_ok && DirtyStatus.eq s.dirty SectorDirtyStatus.gc
        then (do modify (λ db. record db { gc_request = true }); gc_collect st)
        else pure tt
    pure (record { stop = false; sector = s; acc = tt })

  -- Whether the pass has to stop.
  unfoldable pub recover_one_kv : Kv → Cmd (Kvdb S) Bool
  recover_one_kv kv =
      if kv.crc_is_ok && KvStatus.eq kv.status KvStatus.pre_delete
      then (do r ← move_kv st kv; pure (not (is_ok r)))
      else if KvStatus.eq kv.status KvStatus.pre_write
      then (do
        on_storage
            (write_status st kv.addr_start kv_status_num (KvStatus.index KvStatus.err_hdr) true)
        pure true)
      else pure false

  unfoldable pub recover_visit : ℕ → Unit {0} → Cmd (Kvdb S) (Visit (Unit {0}))
  recover_visit sec_addr acc = do
    (r, s) ← read_sector_info st sec_addr blank_sector false
    if is_ok r && in_use s
        then (do
          (stop, _, _) ←
              walk_kvs st (λ _ kv (_ : Unit {0}). do stop ← recover_one_kv kv; pure (stop, tt)) s
                (record blank_kv { addr_start = first_kv s }) tt
          pure (record { stop = stop; sector = s; acc = tt }))
        else pure (record { stop = false; sector = s; acc = tt })

  unfoldable pub recover_kvs_pass : Cmd (Kvdb S) (Unit {0})
  recover_kvs_pass db = walk_sectors recover_visit db.oldest_addr tt db

  -- The last loop of `kv_load`. The source puts no bound on its rounds: `none` says that `fuel`
  -- rounds did not end it.
  unfoldable pub recover_loop : ℕ → Cmd (Kvdb S) (Option (Unit {0}))
  recover_loop zero = pure none
  recover_loop (suc fuel) = do
    recover_kvs_pass
    gc_request ← gets (λ db. db.gc_request)
    if gc_request then (do gc_collect st; recover_loop fuel) else pure (some tt)

  unfoldable pub kv_load : ℕ → Cmd (Kvdb S) (Option (Result (Unit {0})))
  kv_load fuel = do
    modify (λ db. record db { in_recovery_check = true })
    oldest_addr ← gets (λ db. db.oldest_addr)
    failed ← walk_sectors header_visit oldest_addr 0
    not_formatable ← gets (λ db. db.not_formatable)
    if not_formatable && ltb 0 failed then pure (some (err read_err)) else (do
      sector_num ← gets (λ db. db.max_size / db.sec_size)
      if failed == sector_num then set_default st else pure (ok tt)
      oldest_addr ← gets (λ db. db.oldest_addr)
      walk_sectors resume_visit oldest_addr tt
      done ← recover_loop fuel
      elim done [
        | none ↦ pure none
        | some _ ↦ (do modify (λ db. record db { in_recovery_check = false }); pure (some (ok tt)))
      ])

  -- `Kvdb::with_options`; `none` if recovery takes more than `fuel` rounds.
  unfoldable pub with_options :
      ℕ → S → ℕ → ℕ → List (List ℕ × List ℕ) → Bool → Option (Result (Kvdb S))
  with_options fuel storage sec_size max_size defaults not_formatable =
      let blank : Kvdb S = record {
        storage = storage;
        sec_size = sec_size;
        max_size = max_size;
        oldest_addr = 0;
        init_ok = false;
        not_formatable = not_formatable;
        gc_request = false;
        in_recovery_check = false;
        last_is_complete_del = false;
        default_kvs = defaults;
      } in
      let (loaded, db) = kv_load fuel (find_oldest_addr blank).1 in
      elim (validate_geometry sec_size max_size) [ err e ↦ some (err e) | ok _ ↦ opened loaded db ]

  -- `Kvdb::new`
  abbrev pub new : ℕ → S → ℕ → ℕ → List (List ℕ × List ℕ) → Option (Result (Kvdb S))
  new fuel storage sec_size max_size defaults =
      with_options fuel storage sec_size max_size defaults false
