-- ===== src/Tsdb/Append/Close.antt =====
-- Closing a sector: the writes of the end information and of the state.
use flash_db_rust.Base.{
  ℕ, ◌+◌, ◌%◌, ◌^◌, ◌≤◌, ◌<◌, ◌≡◌, refl, ◌∙◌, ◌⊎◌, true, false, Result, ok, [], ◌∷◌, arith, branch,
  try, to_le_bytes, wrapping_sub,
}
use flash_db_rust.Def.{failed_addr}
use flash_db_rust.Def.TslStatus
use flash_db_rust.Def.TslStatus.{TslStatus}
use flash_db_rust.Status.Laws.{status_byte}
use flash_db_rust.Storage.{Storage}
use flash_db_rust.Storage.Laws.{IsByteArray}
use flash_db_rust.Flash.{write_status}
use flash_db_rust.Flash.Wrote.{Wrote, write_lem, write_status-Wrote, byte-Wrote_ne}
use flash_db_rust.Tsdb.Types.{Tsdb, time_bytes}
use flash_db_rust.Tsdb.Append.{write_end_info, close_end_info}
use flash_db_rust.Tsdb.Append.Room.{}

module _ {S T : Type 0} (st : Storage S) (arr : IsByteArray st) (db : Tsdb S T) where
  open arr use {capacity, byte}

  -- The medium after each of the writes that close the current sector.
  abbrev pub c1 : Result (Unit {0}) × S
  c1 = write_status st (db.cur_sec.addr + 17) 6 1 false db.storage

  abbrev pub c2 : Result (Unit {0}) × S
  c2 = st.write (db.cur_sec.addr + 9) (time_bytes db.last_time) false c1.1

  abbrev pub c3 : Result (Unit {0}) × S
  c3 =
      st.write (db.cur_sec.addr + 13) (to_le_bytes (wrapping_sub db.cur_sec.empty_idx 16)) false
        c2.1

  abbrev pub c4 : Result (Unit {0}) × S
  c4 = write_status st (db.cur_sec.addr + 17) 6 2 true c3.1

  abbrev pub closed : Result (Unit {0}) × S
  closed = write_status st db.cur_sec.addr 4 3 true c4.1

  module _ (fits : db.cur_sec.addr + 32 ≤ capacity db.storage)
      (small : db.cur_sec.addr + 32 < failed_addr) where
    w1 : Wrote st arr db.storage c1 (db.cur_sec.addr + 17) (status_byte 6 1 ∷ [])
    w1 =
        write_status-Wrote st arr db.storage (db.cur_sec.addr + 17) 6 1 false (omega arith)
          (omega arith) (omega arith) (omega arith) (omega arith)

    w2 : Wrote st arr c1.1 c2 (db.cur_sec.addr + 9) (time_bytes db.last_time)
    w2 =
        write_lem st arr c1.1 (db.cur_sec.addr + 9) (time_bytes db.last_time) false
          (rw (w1.same) (omega arith))

    w3 :
        Wrote st arr c2.1 c3
          (db.cur_sec.addr + 13)
          (to_le_bytes (wrapping_sub db.cur_sec.empty_idx 16))
    w3 =
        write_lem st arr c2.1 (db.cur_sec.addr + 13)
          (to_le_bytes (wrapping_sub db.cur_sec.empty_idx 16)) false
          (rw (w2.same, w1.same) (omega arith))

    w4 : Wrote st arr c3.1 c4 (db.cur_sec.addr + 17) (status_byte 6 2 ∷ [])
    w4 =
        write_status-Wrote st arr c3.1 (db.cur_sec.addr + 17) 6 2 true (omega arith)
          (rw (w3.same, w2.same, w1.same) (omega arith)) (omega arith) (omega arith) (omega arith)

    pub w5 : Wrote st arr c4.1 closed db.cur_sec.addr (status_byte 4 3 ∷ [])
    w5 =
        write_status-Wrote st arr c4.1 db.cur_sec.addr 4 3 true (omega arith)
          (rw (w4.same, w3.same, w2.same, w1.same) (omega arith)) (omega arith) (omega arith)
          (omega arith)

    pub capacity-closed : capacity closed.1 ≡ capacity db.storage
    capacity-closed = w5.same ∙ w4.same ∙ w3.same ∙ w2.same ∙ w1.same

    -- Closing changes the header only.
    pub byte-closed :
        (x : ℕ)
        → (x < db.cur_sec.addr) ⊎ (db.cur_sec.addr + 32 ≤ x)
        → byte closed.1 x ≡ byte db.storage x
    byte-closed x outside =
        byte-Wrote_ne st arr _ _ db.cur_sec.addr _ w5 x (omega arith)
        ∙ byte-Wrote_ne st arr _ _ (db.cur_sec.addr + 17) _ w4 x (omega arith)
        ∙ byte-Wrote_ne st arr _ _ (db.cur_sec.addr + 13)
            (to_le_bytes (wrapping_sub db.cur_sec.empty_idx 16)) w3 x (omega arith)
        ∙ byte-Wrote_ne st arr _ _ (db.cur_sec.addr + 9) (time_bytes db.last_time) w2 x
            (omega arith)
        ∙ byte-Wrote_ne st arr _ _ (db.cur_sec.addr + 17) _ w1 x (omega arith)

    pub close_end_info_lem :
        db.cur_sec.end_info_stat.0 ≡ TslStatus.unused
        → close_end_info st db.cur_sec db.last_time db ≡ (ok tt, record db { storage = c4.1 })
    unfolding close_end_info write_end_info branch try
    close_end_info_lem free =
        let a : (db.cur_sec.addr + 17) % 2 ^ 32 ≡ db.cur_sec.addr + 17 = omega arith in
        let b : (db.cur_sec.addr + 9) % 2 ^ 32 ≡ db.cur_sec.addr + 9 = omega arith in
        let c : (db.cur_sec.addr + 13) % 2 ^ 32 ≡ db.cur_sec.addr + 13 = omega arith in
        let first : TslStatus.eq db.cur_sec.end_info_stat.0 TslStatus.unused ≡ true =
          rw free refl in
        rw (first, a, b, c, w1.done, w2.done, w3.done, w4.done)
