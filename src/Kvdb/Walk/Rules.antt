-- ===== src/Kvdb/Walk/Rules.antt =====
-- Rules for the two loops: what a walk returns, from what its body does.
use flash_db_rust.Base.{ℕ, zero, suc, ◌≡◌, Bool, true, Cmd, Result, branch_either}
use flash_db_rust.Storage.{Storage}
use flash_db_rust.Kvdb.Types.{Kv, KvSecInfo, Kvdb}
use flash_db_rust.Kvdb.Record.{read_kv}
use flash_db_rust.Kvdb.Walk.{Visit, sector_loop, walk_sectors, kv_loop, walk_kvs}

module _ {S A : Type 0} (body : ℕ → A → Cmd (Kvdb S) (Visit A)) (R : A → Type 0)
    (keep : (addr : ℕ) (acc : A) (db : Kvdb S) → R acc → R (body addr acc db).0.acc) where
  -- What every visit keeps true of the walk's variables holds of its result.
  sector_loop_inv :
      (fuel addr traversed : ℕ) (acc : A) (db : Kvdb S)
      → R acc
      → R (sector_loop body fuel addr traversed acc db).0
  unfolding sector_loop
  sector_loop_inv zero addr traversed acc db h = h
  sector_loop_inv (suc fuel) addr traversed acc db h =
      let visited = keep addr acc db h in
      branch_either (λ (t : A × Kvdb S). R t.0) _ _ (λ _. visited)
        λ _. sector_loop_inv fuel _ _ _ _ visited

  pub walk_sectors_inv :
      (start : ℕ) (acc : A) (db : Kvdb S) → R acc → R (walk_sectors body start acc db).0
  unfolding walk_sectors
  walk_sectors_inv start acc db h = sector_loop_inv _ start 0 acc db h

module _ {S A : Type 0} (st : Storage S)
    (body : Result (Unit {0}) → Kv → A → Cmd (Kvdb S) (Bool × A)) (Q : Kv → A → Type 0)
    (found : (start : Kv) (acc : A) (db : Kvdb S)
      → let (r, kv) = (read_kv st start db).0 in
        let (stop, acc') = (body r kv acc (read_kv st start db).1).0 in
        stop ≡ true → Q kv acc') where
  -- A walk that was stopped ended at a node, just read, at which the body stops.
  kv_loop_stopped :
      (fuel : ℕ) (sector : KvSecInfo) (kv : Kv) (acc : A) (db : Kvdb S)
      → let (stop, kv', acc') = (kv_loop st body fuel sector kv acc db).0 in
        stop ≡ true → Q kv' acc'
  unfolding kv_loop
  kv_loop_stopped zero sector kv acc db = λ h. cc
  kv_loop_stopped (suc fuel) sector kv acc db =
      branch_either (λ (t : (Bool × Kv × A) × Kvdb S). t.0.0 ≡ true → Q t.0.1 t.0.2) _ _
        (λ e _. found kv acc db e)
        λ _.
          branch_either (λ (t : (Bool × Kv × A) × Kvdb S). t.0.0 ≡ true → Q t.0.1 t.0.2) _ _
            (λ _ h. cc) λ _. kv_loop_stopped fuel sector _ _ _

  pub walk_kvs_stopped :
      (sector : KvSecInfo) (kv : Kv) (acc : A) (db : Kvdb S)
      → let (stop, kv', acc') = (walk_kvs st body sector kv acc db).0 in stop ≡ true → Q kv' acc'
  unfolding walk_kvs
  walk_kvs_stopped sector kv acc db = kv_loop_stopped _ sector kv acc db
