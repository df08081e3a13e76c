-- ===== src/Tsdb/Append/Refines.antt =====
-- A sector as a list of logs: appending adds to the list, and the walk over the sector lists it.
use flash_db_rust.Base.{
  ℕ, suc, ◌+◌, ◌-◌, ◌*◌, ◌^◌, ◌≤◌, ◌<◌, ◌≡◌, refl, false, Result, ok, try, pure, Cmd, List, [], ◌∷◌,
  ◌++◌, ℤ, IsI32, arith, length, append_nil, append_assoc, reverse,
}
use flash_db_rust.Storage.{Storage}
use flash_db_rust.Storage.Laws.{IsByteArray}
use flash_db_rust.Tsdb.Types.{Tsl, Tsdb, Dir}
use flash_db_rust.Tsdb.Walk.{walk_tsls}
use flash_db_rust.Tsdb.Walk.Logs.{logs_up, walk_tsls-reverse}
use flash_db_rust.Tsdb.Query.{push}
use flash_db_rust.Tsdb.Append.{append_at, advance}
use flash_db_rust.Tsdb.Append.RoundTrip.{valid_tsl, log_at-IsLog}
use flash_db_rust.Tsdb.Append.Order.{IsRising}
use flash_db_rust.Tsdb.Append.Stored.{Stored, Stored-bounds}
use flash_db_rust.Tsdb.Append.Room.{IsOpen, append_at_lem, appended, appended-IsOpen}

-- The logs as they are read, with index records from `idx` up and data from `top` down.
unfoldable pub logs_of : ℕ → ℕ → List (ℤ × List ℕ) → List Tsl
logs_of idx top [] = []
logs_of idx top ((time, blob) ∷ logs) =
    valid_tsl idx (top - length blob) time blob ∷ logs_of (idx + 16) (top - length blob) logs

Stored-logs_up :
    (f : ℕ → ℕ) (max_len idx top : ℕ) (time : ℤ) (blob : List ℕ) (logs : List (ℤ × List ℕ))
    (idx' top' : ℕ)
    → top < 2 ^ 32
    → Stored f idx top ((time, blob) ∷ logs) idx' top'
    → (idx' ≡ idx + 16 * suc (length logs))
      × (logs_up f max_len idx (length logs) ≡ logs_of idx top ((time, blob) ∷ logs))
unfolding Stored logs_up logs_of
Stored-logs_up f max_len idx top time blob [] idx' top' small (p, t, l, rest) = (
  omega arith,
  rw (log_at-IsLog f max_len idx (top - length blob) time blob t (omega arith) (omega arith) l),
)
Stored-logs_up f max_len idx top time blob ((time', blob') ∷ logs) idx' top' small (p, t, l, rest) =
    let here =
      log_at-IsLog f max_len idx (top - length blob) time blob t (omega arith) (omega arith) l in
    let (e, tail) =
      Stored-logs_up f max_len (idx + 16) (top - length blob) time' blob' logs idx' top'
        (omega arith) rest in
    (omega arith, rw (here, tail))

-- Times that fit into an `i32`, as all that the code gets do.
unfoldable pub TimesFit : List (ℤ × List ℕ) → Type 0
TimesFit [] = Unit {0}
TimesFit ((time, blob) ∷ logs) = IsI32 time × TimesFit logs

-- The bytes that logs take.
unfoldable pub cost_of : List (ℤ × List ℕ) → ℕ
cost_of [] = 0
cost_of ((time, blob) ∷ logs) = 16 + length blob + cost_of logs

module _ {S T : Type 0} (st : Storage S) where
  -- Appends one log after the other.
  unfoldable pub append_all : List (ℤ × List ℕ) → Cmd (Tsdb S T) (Result (Unit {0}))
  append_all [] = pure (ok tt)
  append_all ((time, blob) ∷ logs) = try (append_at st blob time) λ _. append_all logs

  module _ (arr : IsByteArray st) where
    append_all-IsOpen :
        (db : Tsdb S T) (logs new : List (ℤ × List ℕ)) (room : ℕ)
        → IsOpen st arr db logs room
        → IsRising db.max_len db.last_time new
        → TimesFit new
        → cost_of new ≤ room
        → let (result, db') = append_all new db in
          (result ≡ ok tt) × IsOpen st arr db' (logs ++ new) (room - cost_of new)
    unfolding append_all IsRising TimesFit cost_of advance try
    append_all-IsOpen db logs [] room open_db rising small enough =
        let e : room - 0 ≡ room = omega arith in (refl, rw (append_nil logs, e) open_db)
    append_all-IsOpen db logs ((time, blob) ∷ new) room open_db (later, short, rising) (t, small)
          enough =
        let one = append_at_lem st arr db logs room blob time open_db (omega arith) short later in
        let open_db' = appended-IsOpen st arr db logs room blob time open_db (omega arith) t in
        let rest =
          append_all-IsOpen (appended st arr db blob time) (logs ++ (time, blob) ∷ []) new
            (room - (16 + length blob)) open_db' rising small (omega arith) in
        let left : room - (16 + length blob) - cost_of new
            ≡ room - (16 + length blob + cost_of new) =
          omega arith in
        let assoc : (logs ++ (time, blob) ∷ []) ++ new ≡ logs ++ (time, blob) ∷ new =
          append_assoc logs ((time, blob) ∷ []) new in
        rw (one, ← assoc, ← left) rest

    -- On a byte array, for an open sector that holds some logs, the walk forward over the current
    -- sector lists exactly these logs, each with its time, its length and the address of its
    -- data, the walk in reverse lists them in the opposite order, and neither changes anything.
    pub walk_tsls-IsOpen :
        (db : Tsdb S T) (logs : List (ℤ × List ℕ)) (room : ℕ)
        → IsOpen st arr db logs room
        → 0 < length logs
        → let sec = db.cur_sec in
          let listed = logs_of (sec.addr + 32) (sec.addr + db.sec_size) logs in
          (walk_tsls st Dir.fwd push sec (sec.addr + 32) [] db ≡ ((false, listed), db))
          × (walk_tsls st Dir.rev push sec sec.end_idx [] db ≡ ((false, reverse listed), db))
    walk_tsls-IsOpen db [] room open_db some_log = absurd (omega arith)
    walk_tsls-IsOpen db ((time, blob) ∷ logs) room open_db some_log =
        let sec = db.cur_sec in
        let last = open_db.ended (omega arith) in
        let b = Stored-bounds _ _ _ ((time, blob) ∷ logs) _ _ open_db.stored in
        let (e, same) =
          Stored-logs_up (arr.byte db.storage) db.max_len (sec.addr + 32) (sec.addr + db.sec_size)
            time blob logs sec.empty_idx sec.empty_data (omega arith) open_db.stored in
        let walk =
          walk_tsls-reverse st arr sec db (rw (open_db.using) refl) (length logs) (omega arith)
            (omega arith) (omega arith) in
        rw (← same) walk

    -- On a byte array, for an open sector with room for new logs, whose times fit 32 bits and
    -- rise from the last time on and whose data are no longer than the limit, appending them one
    -- after the other succeeds. The walk forward over the current sector then lists the logs it
    -- held before and after them the new ones, in order, and the walk in reverse the same logs in
    -- the opposite order.
    pub append_all-walk_tsls :
        (db : Tsdb S T) (logs new : List (ℤ × List ℕ)) (room : ℕ)
        → IsOpen st arr db logs room
        → IsRising db.max_len db.last_time new
        → TimesFit new
        → cost_of new ≤ room
        → 0 < length (logs ++ new)
        → let (result, db') = append_all new db in
          let sec = db'.cur_sec in
          let listed = logs_of (sec.addr + 32) (sec.addr + db'.sec_size) (logs ++ new) in
          (result ≡ ok tt)
          × (walk_tsls st Dir.fwd push sec (sec.addr + 32) [] db' ≡ ((false, listed), db'))
          × (walk_tsls st Dir.rev push sec sec.end_idx [] db' ≡ ((false, reverse listed), db'))
    append_all-walk_tsls db logs new room open_db rising small enough some_log =
        let (done, open_db') = append_all-IsOpen db logs new room open_db rising small enough in
        let (up, down) =
          walk_tsls-IsOpen (append_all new db).1 (logs ++ new) (room - cost_of new) open_db'
            some_log in
        (done, up, down)
