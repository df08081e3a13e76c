-- ===== src/Tsdb/Frame.antt =====
-- What the operations of a database leave alone: the geometry, the options and the time of the
-- last log.
use flash_db_rust.Base.{
  ℕ, zero, suc, ◌≡◌, ◌∙◌, refl, Bool, false, Option, none, some, List, Cmd, Result, ok, err, on_ok,
  try, branch_either, replicate, ℤ,
}
use flash_db_rust.Storage.{Storage}
use flash_db_rust.Tsdb.Types.{TsdbSecInfo, Tsdb, blank_sector}
use flash_db_rust.Tsdb.Sector.{
  measure_tsls, read_tsl, after_header, read_sector_info, format_sector,
}
use flash_db_rust.Tsdb.Append.{
  write_log, write_tsl, write_end_info, close_end_info, enter_sector, enter_next, close_sector,
  start_sector, update_sec_status,
}

module _ {S T : Type 0} where
  -- The second database differs from the first at most in its medium, its oldest sector, its
  -- current sector and its clock.
  pub record Same (db db' : Tsdb S T) : Type 0 where
    pub sec_size : db'.sec_size ≡ db.sec_size
    pub max_size : db'.max_size ≡ db.max_size
    pub init_ok : db'.init_ok ≡ db.init_ok
    pub max_len : db'.max_len ≡ db.max_len
    pub rollover : db'.rollover ≡ db.rollover
    pub last_time : db'.last_time ≡ db.last_time

  pub Same-refl : (db : Tsdb S T) → Same db db
  Same-refl db = record {
    sec_size = refl;
    max_size = refl;
    init_ok = refl;
    max_len = refl;
    rollover = refl;
    last_time = refl;
  }

  pub Same-trans : (db db' db'' : Tsdb S T) → Same db db' → Same db' db'' → Same db db''
  Same-trans db db' db'' h k = record {
    sec_size = k.sec_size ∙ h.sec_size;
    max_size = k.max_size ∙ h.max_size;
    init_ok = k.init_ok ∙ h.init_ok;
    max_len = k.max_len ∙ h.max_len;
    rollover = k.rollover ∙ h.rollover;
    last_time = k.last_time ∙ h.last_time;
  }

  pub touch-Same :
      (s : S) (oldest : ℕ) (cur : TsdbSecInfo) (db : Tsdb S T)
      → Same db (record db { storage = s; oldest_addr = oldest; cur_sec = cur })
  touch-Same s oldest cur db = record {
    sec_size = refl;
    max_size = refl;
    init_ok = refl;
    max_len = refl;
    rollover = refl;
    last_time = refl;
  }

  -- A call in which each step keeps a database the same does, whichever step fails.
  pub try-Same :
      {A B : Type 0} (m : Cmd (Tsdb S T) (Result A)) (f : A → Cmd (Tsdb S T) (Result B))
      (db : Tsdb S T)
      → Same db (m db).1
      → ((a : A) (db' : Tsdb S T) → Same db' (f a db').1)
      → Same db (try m f db).1
  unfolding try
  try-Same {A} m f db h k = go (m db).0
    where
      go : (r : Result A) → Same db (on_ok r f (m db).1).1
      go (ok a) = Same-trans db _ _ h (k a (m db).1)
      go (err e) = h

module _ {S T : Type 0} (st : Storage S) where
  pub format_sector-Same : (addr : ℕ) (db : Tsdb S T) → Same db (format_sector st addr db).1
  unfolding format_sector
  format_sector-Same addr db =
      try-Same _ _ db (touch-Same _ _ _ db)
        λ _ db1. try-Same _ _ db1 (touch-Same _ _ _ db1) λ _ db2. touch-Same _ _ _ db2

  write_log-Same :
      (idx log : ℕ) (blob : List ℕ) (time : ℤ) (db : Tsdb S T)
      → Same db (write_log st idx log blob time db).1
  unfolding write_log
  write_log-Same idx log blob time db = try-Same _ _ db (touch-Same _ _ _ db) λ _ db1.
      try-Same _ _ db1 (touch-Same _ _ _ db1)
        λ _ db2. try-Same _ _ db2 (touch-Same _ _ _ db2) λ _ db3. touch-Same _ _ _ db3

  pub write_tsl-Same :
      (blob : List ℕ) (time : ℤ) (db : Tsdb S T) → Same db (write_tsl st blob time db).1
  unfolding write_tsl
  write_tsl-Same blob time db = write_log-Same _ _ blob time db

  write_end_info-Same :
      (status_addr time_addr idx_addr : ℕ) (last : ℤ) (idx : ℕ) (db : Tsdb S T)
      → Same db (write_end_info st status_addr time_addr idx_addr last idx db).1
  unfolding write_end_info
  write_end_info-Same status_addr time_addr idx_addr last idx db =
      try-Same _ _ db (touch-Same _ _ _ db) λ _ db1.
        try-Same _ _ db1 (touch-Same _ _ _ db1)
          λ _ db2. try-Same _ _ db2 (touch-Same _ _ _ db2) λ _ db3. touch-Same _ _ _ db3

  close_end_info-Same :
      (sec : TsdbSecInfo) (last : ℤ) (db : Tsdb S T) → Same db (close_end_info st sec last db).1
  unfolding close_end_info
  close_end_info-Same sec last db =
      let P : Result (Unit {0}) × Tsdb S T → Type 0 = λ p. Same db p.1 in
      branch_either P _ _ (λ _. write_end_info-Same _ _ _ last _ db)
        λ _. branch_either P _ _ (λ _. write_end_info-Same _ _ _ last _ db) λ _. Same-refl db

  measure_tsls-Same :
      (fuel addr : ℕ) (sector : TsdbSecInfo) (db : Tsdb S T)
      → Same db (measure_tsls st fuel addr sector db).1
  unfolding measure_tsls read_tsl
  measure_tsls-Same zero addr sector db = Same-refl db
  measure_tsls-Same (suc fuel) addr sector db =
      let db1 : Tsdb S T = (read_tsl st addr db).1 in
      let step : Same db db1 = touch-Same _ _ _ db in
      branch_either (λ (p : (Result (Unit {0}) × TsdbSecInfo) × Tsdb S T). Same db p.1) _ _
        (λ _. step)
        λ _.
          branch_either (λ (p : (Result (Unit {0}) × TsdbSecInfo) × Tsdb S T). Same db p.1) _ _
            (λ _. Same-trans db db1 _ step (measure_tsls-Same fuel _ _ db1)) λ _. step

  after_header-Same :
      (traversal : Bool) (r : Result (Unit {0})) (sector : TsdbSecInfo) (db : Tsdb S T)
      → Same db (after_header st traversal r sector db).1
  unfolding after_header
  after_header-Same traversal (err e) sector db = Same-refl db
  after_header-Same traversal (ok _) sector db =
      branch_either (λ (p : (Result (Unit {0}) × TsdbSecInfo) × Tsdb S T). Same db p.1) _ _
        (λ _. measure_tsls-Same _ _ _ db) λ _. Same-refl db

  pub read_sector_info-Same :
      (addr : ℕ) (sector : TsdbSecInfo) (traversal : Bool) (db : Tsdb S T)
      → Same db (read_sector_info st addr sector traversal db).1
  unfolding read_sector_info
  read_sector_info-Same addr sector traversal db =
      let s : S = (st.read addr (replicate 32 0) db.storage).1 in
      Same-trans db _ _ (touch-Same s _ _ db)
        (after_header-Same traversal _ _ (record db { storage = s }))

  enter_sector-Same : (addr : ℕ) (db : Tsdb S T) → Same db (enter_sector st addr db).1
  unfolding enter_sector
  enter_sector-Same addr db =
      let db1 : Tsdb S T = (read_sector_info st addr blank_sector false db).1 in
      let step : Same db db1 = read_sector_info-Same addr blank_sector false db in
      branch_either (λ (p : Result (Unit {0}) × Tsdb S T). Same db p.1) _ _
        (λ _. Same-trans db db1 _ step (touch-Same _ _ _ db1))
        λ _. Same-trans db db1 _ step (
          Same-trans db1 _ _ (touch-Same _ _ _ db1) (
            try-Same _ _ _ (format_sector-Same addr _) λ _ db2.
              Same-trans db2 _ _ (read_sector_info-Same addr blank_sector false db2)
                (touch-Same _ _ _ _)))

  enter_next-Same : (next : Option ℕ) (db : Tsdb S T) → Same db (enter_next st next db).1
  unfolding enter_next
  enter_next-Same none db = Same-refl db
  enter_next-Same (some addr) db = enter_sector-Same addr db

  close_sector-Same : (db : Tsdb S T) → Same db (close_sector st db).1
  unfolding close_sector
  close_sector-Same db = try-Same _ _ db (close_end_info-Same db.cur_sec db.last_time db) λ _ db1.
      try-Same _ _ db1 (touch-Same _ _ _ db1)
        λ _ db2. Same-trans db2 _ _ (touch-Same _ _ _ db2) (enter_next-Same _ _)

  start_sector-Same : (time : ℤ) (db : Tsdb S T) → Same db (start_sector st time db).1
  unfolding start_sector
  start_sector-Same time db =
      branch_either (λ (p : Result (Unit {0}) × Tsdb S T). Same db p.1) _ _
        (λ _.
          Same-trans db _ _ (touch-Same _ _ _ db)
            (try-Same _ _ _ (touch-Same _ _ _ _) λ _ db1. touch-Same _ _ _ db1))
        λ _. Same-refl db

  pub update_sec_status-Same :
      (n : ℕ) (time : ℤ) (db : Tsdb S T) → Same db (update_sec_status st n time db).1
  unfolding update_sec_status
  update_sec_status-Same n time db =
      let P : Result (Unit {0}) × Tsdb S T → Type 0 = λ p. Same db p.1 in
      branch_either P _ _
        (λ _. try-Same _ _ db (close_sector-Same db) λ _ db1. start_sector-Same time db1)
        λ _. branch_either P _ _ (λ _. Same-refl db) λ _. start_sector-Same time db
