-- ===== src/Tsdb/Append/RoundTrip.antt =====
-- A log that `write_log` wrote is read back by `read_tsl`, with its data.
use flash_db_rust.Base.{
  try, ℕ, ◌+◌, ◌%◌, ◌^◌, ◌≤◌, ◌<◌, ◌≡◌, refl, ◌∙◌, sym, ap, ◌⊎◌, inl, inr, true, false, Result, ok,
  List, [], ◌∷◌, ℤ, IsI32, i32_inverse, word_of_i32, word_of_i32-lt, le_bytes_inverse, arith,
  length,
}
use flash_db_rust.Status.Laws.{status_byte}
use flash_db_rust.Def.TslStatus.{TslStatus}
use flash_db_rust.Storage.{Storage}
use flash_db_rust.Storage.Bytes.{slice, overlay, slice-append}
use flash_db_rust.Storage.Laws.{IsByteArray}
use flash_db_rust.Flash.{write_status, write_align}
use flash_db_rust.Flash.Laws.{get_status-status_byte}
use flash_db_rust.Flash.Wrote.{
  Wrote, write_lem, write_align_lem, write_status-Wrote, slice-Wrote_self, slice-Wrote_ne,
  byte-Wrote_ne,
}
use flash_db_rust.Tsdb.Types.{Tsl, Tsdb}
use flash_db_rust.Tsdb.Sector.{decode_tsl, read_tsl}
use flash_db_rust.Tsdb.Sector.Log.{log_at, read_tsl_lem}
use flash_db_rust.Tsdb.Append.{index_bytes, write_log}

-- A complete log: its index record at `idx`, with the state byte of a valid log, and its data.
pub record IsLog (f : ℕ → ℕ) (idx log : ℕ) (time : ℤ) (blob : List ℕ) : Type 0 where
  pub state : f idx ≡ status_byte 6 2
  pub index : slice f (idx + 4) 12 ≡ index_bytes time (length blob) log
  pub content : slice f log (length blob) ≡ blob

-- The log as it is read.
unfoldable pub valid_tsl : ℕ → ℕ → ℤ → List ℕ → Tsl
valid_tsl idx log time blob = record {
  status = TslStatus.write;
  time = time;
  log_len = length blob;
  addr_index = idx;
  addr_log = log;
}

pub log_at-IsLog :
    (f : ℕ → ℕ) (max_len idx log : ℕ) (time : ℤ) (blob : List ℕ)
    → IsI32 time
    → length blob < 2 ^ 32
    → log < 2 ^ 32
    → IsLog f idx log time blob
    → log_at f max_len idx ≡ valid_tsl idx log time blob
unfolding log_at decode_tsl valid_tsl index_bytes
log_at-IsLog f max_len idx log time blob t len small is_log =
    let bytes : slice f idx 16
        ≡ status_byte 6 2
          ∷ f (idx + 1)
          ∷ f (idx + 1 + 1)
          ∷ f (idx + 1 + 1 + 1)
          ∷ index_bytes time (length blob) log =
      sym (slice-append f idx 4 12) ∙ rw (is_log.index) (unfold slice in rw (is_log.state)) in
    let word = le_bytes_inverse (word_of_i32 time) (word_of_i32-lt time t) in
    let size : length blob % 2 ^ 32 ≡ length blob = omega arith in
    let same_len = le_bytes_inverse (length blob) len in
    let same_log = le_bytes_inverse log small in
    let state = get_status-status_byte 6 2 (omega arith) (omega arith) (omega arith) in
    rw (bytes, state, word, i32_inverse time t, size, same_len, same_log)

module _ {S T : Type 0} (st : Storage S) (arr : IsByteArray st) (idx log : ℕ) (blob : List ℕ)
    (time : ℤ) (db : Tsdb S T) where
  open arr use {capacity, byte}

  -- The medium after each of the writes of `write_log`.
  abbrev pub begun : Result (Unit {0}) × S
  begun = write_status st idx 6 1 false db.storage

  abbrev pub indexed : Result (Unit {0}) × S
  indexed = st.write (idx + 4) (index_bytes time (length blob) log) false begun.1

  abbrev pub filled : Result (Unit {0}) × S
  filled = write_align st log blob indexed.1

  abbrev pub valid : Result (Unit {0}) × S
  valid = write_status st idx 6 2 true filled.1

  module _ (apart : idx + 16 ≤ log) (small : log + length blob < 2 ^ 32)
      (fits : log + length blob ≤ capacity db.storage) where
    w1 : Wrote st arr db.storage begun idx (status_byte 6 1 ∷ [])
    w1 =
        write_status-Wrote st arr db.storage idx 6 1 false (omega arith) (omega arith) (omega arith)
          (omega arith) (omega arith)

    w2 : Wrote st arr begun.1 indexed (idx + 4) (index_bytes time (length blob) log)
    w2 =
        write_lem st arr begun.1 (idx + 4) (index_bytes time (length blob) log) false
          (unfold index_bytes in rw (w1.same) (omega arith))

    w3 : Wrote st arr indexed.1 filled log blob
    w3 = write_align_lem st arr indexed.1 log blob (rw (w2.same, w1.same) fits)

    w4 : Wrote st arr filled.1 valid idx (status_byte 6 2 ∷ [])
    w4 =
        write_status-Wrote st arr filled.1 idx 6 2 true (omega arith)
          (rw (w3.same, w2.same, w1.same) (omega arith)) (omega arith) (omega arith) (omega arith)

    pub capacity-valid : capacity valid.1 ≡ capacity db.storage
    capacity-valid = w4.same ∙ w3.same ∙ w2.same ∙ w1.same

    pub valid-IsLog : IsLog (byte valid.1) idx log time blob
    unfolding slice index_bytes
    valid-IsLog = record {
      state = w4.bytes idx ∙ (unfold overlay in ground arith);
      index =
          slice-Wrote_ne st arr _ _ idx _ w4 (idx + 4) 12 (inr (omega arith))
          ∙ slice-Wrote_ne st arr _ _ log blob w3 (idx + 4) 12 (inl (omega arith))
          ∙ slice-Wrote_self st arr _ _ (idx + 4) (index_bytes time (length blob) log) w2;
      content =
          slice-Wrote_ne st arr _ _ idx _ w4 log (length blob) (inr (omega arith))
          ∙ slice-Wrote_self st arr _ _ log blob w3;
    }

    -- Bytes outside the record and the data are as before.
    pub byte-valid :
        (x : ℕ)
        → (x < idx) ⊎ (idx + 16 ≤ x)
        → (x < log) ⊎ (log + length blob ≤ x)
        → byte db.storage x ≡ byte valid.1 x
    unfolding index_bytes
    byte-valid x clear apart = sym (
        byte-Wrote_ne st arr _ _ idx _ w4 x (omega arith)
        ∙ byte-Wrote_ne st arr _ _ log blob w3 x (omega arith)
        ∙ byte-Wrote_ne st arr _ _ (idx + 4) (index_bytes time (length blob) log) w2 x (omega arith)
        ∙ byte-Wrote_ne st arr _ _ idx _ w1 x (omega arith))

    pub write_log_lem : write_log st idx log blob time db ≡ (ok tt, record db { storage = valid.1 })
    unfolding write_log try
    write_log_lem =
        let a : (idx + 4) % 2 ^ 32 ≡ idx + 4 = omega arith in
        rw (a, w1.done, w2.done, w3.done, w4.done)

-- On a byte array that holds an index record and, behind it, data, `write_log` succeeds;
-- `read_tsl` then returns the valid log with its time, length and data address and changes
-- nothing, and the data stand at that address.
pub read_tsl-write_log :
    {S T : Type 0} (st : Storage S) (arr : IsByteArray st) (idx log : ℕ) (blob : List ℕ) (time : ℤ)
    (db : Tsdb S T)
    → idx + 16 ≤ log
    → log + length blob < 2 ^ 32
    → log + length blob ≤ arr.capacity db.storage
    → IsI32 time
    → let (result, db') = write_log st idx log blob time db in
      (result ≡ ok tt)
      × (read_tsl st idx db' ≡ (valid_tsl idx log time blob, db'))
      × (slice (arr.byte db'.storage) log (length blob) ≡ blob)
read_tsl-write_log st arr idx log blob time db apart small fits t =
    let is_log = valid-IsLog st arr idx log blob time db apart small fits in
    let after = record db { storage = (valid st arr idx log blob time db).1 } in
    let kept = capacity-valid st arr idx log blob time db apart small fits in
    let read = read_tsl_lem st arr idx after (rw kept (omega arith)) in
    let decoded =
      log_at-IsLog _ db.max_len idx log time blob t (omega arith) (omega arith) is_log in
    rw (write_log_lem st arr idx log blob time db apart small fits)
      (refl, read ∙ ap (λ (tsl : Tsl). (tsl, after)) decoded, is_log.content)
