-- ===== src/Tsdb/Query/Callback.antt =====
-- What the callback of an iteration gets: each log with its data, in the order of the list.
use flash_db_rust.Base.{
  ℕ, ◌+◌, ◌-◌, ◌≤◌, ◌<◌, ◌≡◌, refl, ap, subst, min, Bool, true, false, Cmd, branch, List, [], ◌∷◌,
  ℤ, arith, length, take, drop, replicate, if◌then◌else◌, append_nil, length-replicate,
}
use flash_db_rust.Storage.{Storage}
use flash_db_rust.Storage.Bytes.{slice}
use flash_db_rust.Storage.Laws.{IsByteArray}
use flash_db_rust.Tsdb.Types.{Tsl, Tsdb, Dir}
use flash_db_rust.Tsdb.Append.{read_log}
use flash_db_rust.Tsdb.Append.RoundTrip.{valid_tsl}
use flash_db_rust.Tsdb.Append.Stored.{Stored}
use flash_db_rust.Tsdb.Append.Room.{IsOpen}
use flash_db_rust.Tsdb.Append.Refines.{logs_of, walk_tsls-IsOpen}
use flash_db_rust.Tsdb.Walk.{walk_tsls}
use flash_db_rust.Tsdb.Query.{push, visit_logs}

take_all : {A : Type 0} (xs : List A) → take (length xs) xs ≡ xs
take_all [] = refl
take_all (x ∷ xs) = ap (λ ys. x ∷ ys) (take_all xs)

drop_all : {A : Type 0} (xs : List A) → drop (length xs) xs ≡ []
drop_all [] = refl
drop_all (x ∷ xs) = drop_all xs

module _ {X : Type 0} (visit : Tsl → List ℕ → Cmd X Bool) where
  -- The callback on each log with its data, until it asks to stop.
  unfoldable pub visit_all : ℕ → ℕ → List (ℤ × List ℕ) → X → X
  visit_all idx top [] x = x
  visit_all idx top ((time, blob) ∷ logs) x =
      let (stop, x') = visit (valid_tsl idx (top - length blob) time blob) blob x in
      let rest = visit_all (idx + 16) (top - length blob) logs x' in if stop then x' else rest

module _ {S T : Type 0} (st : Storage S) (arr : IsByteArray st) (db : Tsdb S T) where
  open arr use {capacity, byte, read_in}

  read_log_lem :
      (idx log : ℕ) (time : ℤ) (blob : List ℕ)
      → log + length blob ≤ capacity db.storage
      → slice (byte db.storage) log (length blob) ≡ blob
      → read_log st (valid_tsl idx log time blob) (replicate (length blob) 0) db
        ≡ ((length blob, blob), db)
  unfolding read_log valid_tsl
  read_log_lem idx log time blob fits content =
      let zeros : List ℕ = replicate (length blob) 0 in
      let size : length zeros ≡ length blob = length-replicate (length blob) 0 in
      let least : min (length blob) (length blob) ≡ length blob = omega arith in
      let all : take (length blob) zeros ≡ zeros =
        subst (λ n. take n zeros ≡ zeros) size (take_all zeros) in
      let none_left : drop (length blob) zeros ≡ [] =
        subst (λ n. drop n zeros ≡ []) size (drop_all zeros) in
      let read = read_in db.storage log zeros (rw size fits) in
      rw (size, least, all, none_left, read, size, content, append_nil blob)

  branch_if :
      {X : Type 0} (b : Bool) (m n : Cmd (Tsdb S T) X) (x y : X)
      → m db ≡ (x, db)
      → n db ≡ (y, db)
      → branch b m n db ≡ (if b then x else y, db)
  unfolding branch
  branch_if true m n x y h k = h
  branch_if false m n x y h k = k

  visit_logs-Stored :
      {X : Type 0} (visit : Tsl → List ℕ → Cmd X Bool) (idx top idx' top' : ℕ)
      (logs : List (ℤ × List ℕ)) (x : X)
      → Stored (byte db.storage) idx top logs idx' top'
      → top ≤ capacity db.storage
      → visit_logs st visit (logs_of idx top logs) x db ≡ (visit_all visit idx top logs x, db)
  unfolding visit_logs logs_of visit_all Stored valid_tsl
  visit_logs-Stored visit idx top idx' top' [] x h fits = refl
  visit_logs-Stored visit idx top idx' top' ((time, blob) ∷ logs) x (p, t, l, rest) fits =
      let read = read_log_lem idx (top - length blob) time blob (omega arith) l.content in
      let all = take_all blob in
      rw (read, all)
        (branch_if _ _ _ _ _ refl (
          visit_logs-Stored visit (idx + 16) (top - length blob) idx' top' logs _ rest
            (omega arith)))

  -- On a byte array, for an open sector that holds some logs, listing the current sector and then
  -- iterating over the list calls the callback on each log that was appended, with its time and
  -- its data, in order, until the callback asks to stop, and changes nothing.
  pub visit_logs-IsOpen :
      {X : Type 0} (visit : Tsl → List ℕ → Cmd X Bool) (logs : List (ℤ × List ℕ)) (room : ℕ) (x : X)
      → IsOpen st arr db logs room
      → 0 < length logs
      → let sec = db.cur_sec in
        let ((_, listed), db') = walk_tsls st Dir.fwd push sec (sec.addr + 32) [] db in
        visit_logs st visit listed x db'
        ≡ (visit_all visit (sec.addr + 32) (sec.addr + db.sec_size) logs x, db)
  visit_logs-IsOpen visit logs room x open_db some_log =
      let (walk, _) = walk_tsls-IsOpen st arr db logs room open_db some_log in
      rw walk (visit_logs-Stored visit _ _ _ _ logs x open_db.stored open_db.fits)
