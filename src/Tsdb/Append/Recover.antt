-- ===== src/Tsdb/Append/Recover.antt =====
-- Recovery: `read_sector_info` finds again, from the medium, what the descriptor in memory says.
use flash_db_rust.Base.{
  ℕ, zero, suc, ◌+◌, ◌-◌, ◌%◌, ◌^◌, ◌≤◌, ◌<◌, ◌≡◌, refl, subst, true, ok, List, [], ◌∷◌, ℤ, pos,
  ◌-ℤ◌, ltb_ℤ, arith, length, branch,
}
use flash_db_rust.Def.TslStatus
use flash_db_rust.Def.TslStatus.{TslStatus}
use flash_db_rust.Storage.{Storage}
use flash_db_rust.Storage.Laws.{IsByteArray}
use flash_db_rust.Tsdb.Types.{TsdbSecInfo, Tsdb}
use flash_db_rust.Tsdb.Sector.{note_tsl, tsl_cost, measure_tsls}
use flash_db_rust.Tsdb.Sector.Log.{log_at, read_tsl_lem}
use flash_db_rust.Tsdb.Append.RoundTrip.{valid_tsl, log_at-IsLog}
use flash_db_rust.Tsdb.Append.Stored.{Stored, Stored-bounds}

-- A descriptor that agrees with `n` logs up to `idx` and from `top` on.
pub record Measured (sector : TsdbSecInfo) (n idx top : ℕ) : Type 0 where
  pub empty_idx : sector.empty_idx ≡ idx
  pub empty_data : sector.empty_data ≡ top
  pub remain : sector.remain ≡ pos (top - idx)
  pub end_idx : 0 < n → sector.end_idx + 16 ≡ idx

module _ {S T : Type 0} (st : Storage S) (arr : IsByteArray st) (db : Tsdb S T) where
  open arr use {capacity, byte}

  pub measure_tsls-Stored :
      (fuel idx top idx' top' : ℕ) (logs : List (ℤ × List ℕ)) (n : ℕ) (sector : TsdbSecInfo)
      → Stored (byte db.storage) idx top logs idx' top'
      → length logs < fuel
      → idx' < top'
      → top < 2 ^ 32
      → idx' + 16 ≤ capacity db.storage
      → TslStatus.eq ((log_at (byte db.storage) db.max_len idx').status) TslStatus.unused ≡ true
      → Measured sector n idx top
      → let ((r, sector'), db') = measure_tsls st fuel idx sector db in
        (r ≡ ok tt)
        × (db' ≡ db)
        × (sector'.status ≡ sector.status)
        × (sector'.addr ≡ sector.addr)
        × Measured sector' (n + length logs) idx' top'
  unfolding measure_tsls Stored branch valid_tsl note_tsl ◌-ℤ◌
  measure_tsls-Stored zero idx top idx' top' logs n sector h enough room small fits unused m =
      absurd (omega arith)
  measure_tsls-Stored (suc fuel) idx top idx' top' [] n sector (e, e') enough room small fits unused
        m =
      let read = read_tsl_lem st arr idx db (omega arith) in
      let here =
        subst
          (λ x.
            TslStatus.eq ((log_at (byte db.storage) db.max_len x).status) TslStatus.unused ≡ true)
          e unused in
      let sum : n + 0 ≡ n = omega arith in rw (read, here, sum, e, e') (refl, refl, refl, refl, m)
  measure_tsls-Stored (suc fuel) idx top idx' top' ((time, blob) ∷ logs) n sector (p, t, l, rest)
        enough room small fits unused m =
      let b = Stored-bounds (byte db.storage) (idx + 16) (top - length blob) logs idx' top' rest in
      let read = read_tsl_lem st arr idx db (omega arith) in
      let here =
        log_at-IsLog (byte db.storage) db.max_len idx (top - length blob) time blob t (omega arith)
          (omega arith) l in
      let cost : ltb_ℤ (pos (tsl_cost (length blob))) sector.remain ≡ true =
        rw (m.remain) (ground arith) in
      let next : (idx + 16) % 2 ^ 32 ≡ idx + 16 = omega arith in
      let sum : n + suc (length logs) ≡ suc n + length logs = omega arith in
      let noted : TsdbSecInfo =
        record (note_tsl sector (valid_tsl idx (top - length blob) time blob)) {
          remain = sector.remain -ℤ pos (tsl_cost (length blob));
        } in
      rw (read, here, cost, next, sum)
        (measure_tsls-Stored fuel (idx + 16) (top - length blob) idx' top' logs (suc n) noted rest
          (omega arith) room (omega arith) fits unused
          (record {
            empty_idx = rw (m.empty_idx) next;
            empty_data = rw (m.empty_data) refl;
            remain = rw (m.remain) (ground arith);
            end_idx = λ _. refl;
          }))
