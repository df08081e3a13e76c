-- ===== src/Kvdb/Api.antt =====
-- kvdb.rs: the operations that a user calls.
use flash_db_rust.Base.{
  ℕ, ◌+◌, ◌-◌, ◌%◌, min, Bool, true, false, Option, none, some, List, [], ◌∷◌, ◌++◌, not, ◌&&◌, Cmd,
  Result, ok, err, init_failed, saved_full, is_ok, pure, gets, ◌>>=◌, ◌>>◌, length, take, drop,
  replicate, u32, ltb, ◌==◌, if◌then◌else◌,
}
use flash_db_rust.Def.{failed_addr, str_kv_value_max_size}
use flash_db_rust.Storage.{Storage}
use flash_db_rust.Kvdb.Types.{Kv, Kvdb, blank_kv, blank_sector, on_storage}
use flash_db_rust.Kvdb.Sector.{read_sector_info}
use flash_db_rust.Kvdb.Next.{get_next_kv_addr}
use flash_db_rust.Kvdb.Walk.{Visit, walk_sectors, walk_kvs}
use flash_db_rust.Kvdb.Find.{in_use, first_kv, find_kv, del_old_kv, del_key}
use flash_db_rust.Kvdb.Gc.{gc_collect_by_free_size}
use flash_db_rust.Kvdb.Create.{node_len, new_kv_ex, create_kv_blob}

-- `is_str`: every byte is printable ASCII; the subtraction wraps in a byte.
unfoldable pub is_str : List ℕ → Bool
is_str [] = true
is_str (ch ∷ value) = ltb ((ch + 256 - 32) % 256) (127 - 32) && is_str value

-- `buf` after its first bytes were read over.
abbrev pub filled : List ℕ → ℕ → List ℕ → List ℕ
filled got n buf = got ++ drop n buf

module _ {S : Type 0} (st : Storage S) where
  unfoldable pub set_kv : List ℕ → List ℕ → Cmd (Kvdb S) (Result (Unit {0}))
  set_kv key value = do
    (empty_kv, cur_sector) ← new_kv_ex st blank_sector (u32 (length key)) (u32 (length value))
    if empty_kv == failed_addr then pure (err saved_full) else (do
      (kv_is_found, cur_kv) ← find_kv st key blank_kv
      result ← if kv_is_found then del_old_kv st cur_kv false else pure (ok tt)
      result ← if is_ok result then create_kv_blob st cur_sector key value else pure result
      result ← if kv_is_found && is_ok result then del_old_kv st cur_kv true else pure result
      gc_request ← gets (λ db. db.gc_request)
      if gc_request
          then gc_collect_by_free_size st (node_len (u32 (length key)) (u32 (length value)))
          else pure tt
      pure result)

  unfoldable pub set : List ℕ → List ℕ → Cmd (Kvdb S) (Result (Unit {0}))
  set key value = do
    init_ok ← gets (λ db. db.init_ok)
    if not init_ok then pure (err init_failed) else set_kv key value

  -- `set_str`, with the bytes of the string.
  abbrev pub set_str : List ℕ → List ℕ → Cmd (Kvdb S) (Result (Unit {0}))
  set_str = set

  unfoldable pub del : List ℕ → Cmd (Kvdb S) (Result (Unit {0}))
  del key = do
    init_ok ← gets (λ db. db.init_ok)
    if not init_ok then pure (err init_failed) else del_key st key true

  -- The number of bytes copied, and the buffer.
  unfoldable pub get : List ℕ → List ℕ → Cmd (Kvdb S) (Option ℕ × List ℕ)
  get key buf = do
    init_ok ← gets (λ db. db.init_ok)
    if not init_ok then pure (none, buf) else (do
      (found, kv) ← find_kv st key blank_kv
      if found
          then (do
            let read_len = min (length buf) kv.value_len
            (_, got) ← on_storage (st.read kv.addr_value (take read_len buf))
            pure (some read_len, filled got read_len buf))
          else pure (none, buf))

  unfoldable pub get_vec : List ℕ → Cmd (Kvdb S) (Option (List ℕ))
  get_vec key = do
    init_ok ← gets (λ db. db.init_ok)
    if not init_ok then pure none else (do
      (found, kv) ← find_kv st key blank_kv
      if found
          then (do
            (_, v) ← on_storage (st.read kv.addr_value (replicate kv.value_len 0))
            pure (some v))
          else pure none)

  unfoldable pub get_obj : List ℕ → Cmd (Kvdb S) (Option Kv)
  get_obj key = do
    init_ok ← gets (λ db. db.init_ok)
    if not init_ok
        then pure none
        else (do (found, kv) ← find_kv st key blank_kv; pure (if found then some kv else none))

  unfoldable pub read_value : Kv → List ℕ → Cmd (Kvdb S) (ℕ × List ℕ)
  read_value kv buf = do
    let read_len = min (length buf) kv.value_len
    (r, got) ← on_storage (st.read kv.addr_value (take read_len buf))
    pure (if is_ok r then read_len else 0, filled got read_len buf)

  -- The text is given by its bytes, which are printable ASCII.
  unfoldable pub get_str : List ℕ → Cmd (Kvdb S) (Option (List ℕ))
  get_str key = do
    init_ok ← gets (λ db. db.init_ok)
    if not init_ok then pure none else (do
      (found, kv) ← find_kv st key blank_kv
      if not found then pure none else (do
        let n = min kv.value_len str_kv_value_max_size
        (_, got) ← on_storage (st.read kv.addr_value (replicate n 0))
        pure (if is_str got then some got else none)))

  -- The body of the inner loop of `check`, where a bad node ends the check.
  unfoldable pub check_visit : ℕ → Result (Unit {0}) → Cmd (Kvdb S) (Visit (Result (Unit {0})))
  check_visit sec_addr result = do
    (r, sector) ← read_sector_info st sec_addr blank_sector false
    if not (is_ok r)
        then pure (record { stop = true; sector = sector; acc = err init_failed })
        else if in_use sector
        then (do
          (stop, _, result) ←
              walk_kvs st
                (λ r kv (_ : Result (Unit {0})).
                  if is_ok r
                  then pure (false, ok tt)
                  else (do get_next_kv_addr st sector kv; pure (true, r)))
                sector (record blank_kv { addr_start = first_kv sector }) (ok tt)
          pure (record { stop = stop; sector = sector; acc = result }))
        else pure (record { stop = false; sector = sector; acc = result })

  unfoldable pub check : Cmd (Kvdb S) (Result (Unit {0}))
  check = do
    init_ok ← gets (λ db. db.init_ok)
    if not init_ok then pure (err init_failed) else (do
      oldest_addr ← gets (λ db. db.oldest_addr)
      walk_sectors check_visit oldest_addr (ok tt))
