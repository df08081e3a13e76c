-- ===== src/Kvdb/Next/Range.antt =====
-- Where `find_next_kv_addr` finds a node.
use flash_db_rust.Base.{
  ℕ, zero, suc, ◌+◌, ◌-◌, ◌%◌, ◌^◌, ◌≤◌, ◌<◌, ◌≡◌, refl, ◌⊎◌, inl, false, Option, none, some, List,
  Result, ok, err, arith, Cmd, branch_either, wrapping_sub, ◌==◌, replicate, if◌then◌else◌,
}
use flash_db_rust.Def.{failed_addr}
use flash_db_rust.Storage.{Storage}
use flash_db_rust.Kvdb.Types.{Kv, KvSecInfo, Kvdb}
use flash_db_rust.Kvdb.Next.{
  magic_scan, after_window, find_loop, find_next_kv_addr, get_next_kv_addr,
}

-- No address, or one from `start` on with the place of a magic word before `end`.
unfoldable pub InRange : ℕ → ℕ → ℕ → Type 0
InRange start end a = (a ≡ failed_addr) ⊎ ((start ≤ a) × (a ≤ end))

magic_scan-InRange :
    (rounds : ℕ) (buf : List ℕ) (start start_bak end i a : ℕ)
    → 4 ≤ start
    → start + i + rounds < 2 ^ 32
    → magic_scan rounds buf start start_bak end i ≡ some a
    → InRange start_bak end a
unfolding magic_scan InRange
magic_scan-InRange zero buf start start_bak end i a p small h = absurd (ground arith)
magic_scan-InRange (suc rounds) buf start start_bak end i a p small h =
    let wrap : (start + i) % 2 ^ 32 ≡ start + i = omega arith in
    let back : wrapping_sub (start + i) 4 ≡ start + i - 4 = omega arith in
    let rest = magic_scan-InRange rounds buf start start_bak end (i + 1) a p (omega arith) in
    ground arith

module _ {S : Type 0} (st : Storage S) where
  after_window-InRange :
      (r : Result (Unit {0})) (found : Option ℕ) (rest : Cmd (Kvdb S) ℕ) (start end : ℕ)
      (db : Kvdb S)
      → ((a : ℕ) → found ≡ some a → InRange start end a)
      → InRange start end (rest db).0
      → InRange start end (after_window r found rest db).0
  unfolding after_window InRange
  after_window-InRange (err e) found rest start end db h k = inl refl
  after_window-InRange (ok _) (some a) rest start end db h k = h a refl
  after_window-InRange (ok _) none rest start end db h k = k

  find_loop-InRange :
      (fuel : ℕ) (buf : List ℕ) (start start_bak end : ℕ) (db : Kvdb S)
      → 4 ≤ start
      → end < 2 ^ 32 - 64
      → InRange start_bak end (find_loop st fuel buf start start_bak end db).0
  unfolding find_loop
  find_loop-InRange zero buf start start_bak end db p small = unfold InRange in inl refl
  find_loop-InRange (suc fuel) buf start start_bak end db p small =
      branch_either (λ (t : ℕ × Kvdb S). InRange start_bak end t.0) _ _
        (λ inside.
          let below : start < end = ground arith in
          let next : (start + 28) % 2 ^ 32 ≡ start + 28 = omega arith in
          after_window-InRange _ _ _ start_bak end _
            (λ a h. magic_scan-InRange 28 _ start start_bak end 0 a p (omega arith) h)
            (rw next (find_loop-InRange fuel _ (start + 28) start_bak end _ (omega arith) small)))
        (λ _. unfold InRange in inl refl)

  -- On any backend and any contents, from an address past the first word and with an end that
  -- leaves room for a window, the address found is none or lies between `start` and `end`.
  pub find_next_kv_addr-InRange :
      (start end : ℕ) (db : Kvdb S)
      → 4 ≤ start
      → end < 2 ^ 32 - 64
      → InRange start end (find_next_kv_addr st start end db).0
  unfolding find_next_kv_addr
  find_next_kv_addr-InRange start end db p small =
      find_loop-InRange (end - start) (replicate 32 0) start start end db p small

module _ {S : Type 0} (st : Storage S) where
  -- The address that follows a node in its sector, if there is one, lies above the node's own and
  -- within the sector, so a walk over the nodes of a sector advances.
  pub get_next_kv_addr-InRange :
      (sector : KvSecInfo) (kv : Kv) (db : Kvdb S)
      → 4 ≤ kv.addr_start
      → kv.addr_start + kv.len + 1 < 2 ^ 32 - 1
      → 0 < kv.len
      → 16 ≤ db.sec_size
      → sector.addr + db.sec_size < 2 ^ 32 - 64
      → InRange
          (kv.addr_start + 1)
          (sector.addr + db.sec_size - 16)
          (get_next_kv_addr st sector kv db).0
  unfolding get_next_kv_addr InRange
  get_next_kv_addr-InRange sector kv db p small len q room =
      let end : (sector.addr + db.sec_size) % 2 ^ 32 ≡ sector.addr + db.sec_size = omega arith in
      let last : wrapping_sub (sector.addr + db.sec_size) 16 ≡ sector.addr + db.sec_size - 16 =
        omega arith in
      let after : (kv.addr_start + kv.len) % 2 ^ 32 ≡ kv.addr_start + kv.len = omega arith in
      let step : (kv.addr_start + 1) % 2 ^ 32 ≡ kv.addr_start + 1 = omega arith in
      let fresh : (kv.addr_start == failed_addr) ≡ false = ground arith in
      let start : ℕ = if kv.crc_is_ok then kv.addr_start + kv.len else kv.addr_start + 1 in
      let above : kv.addr_start + 1 ≤ start = ground arith in
      let found =
        find_next_kv_addr-InRange st start (sector.addr + db.sec_size - 16) db (omega arith)
          (omega arith) in
      rw (end, last, after, step, fresh) (ground arith)
