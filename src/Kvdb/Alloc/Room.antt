-- ===== src/Kvdb/Alloc/Room.antt =====
-- A sector that `alloc_scan` returns has room for the node.
use flash_db_rust.Base.{
  ℕ, ◌+◌, ◌<◌, ◌≡◌, ap, subst, Bool, true, false, Option, none, some, Bool-cases, inl, inr,
  pos_part, ℤ, pos, negsuc, ltb_ℤ, branch_either, if◌then◌else◌, arith,
}
use flash_db_rust.Def.StoreStatus.{SectorStoreStatus}
use flash_db_rust.Def.DirtyStatus
use flash_db_rust.Def.DirtyStatus.{SectorDirtyStatus}
use flash_db_rust.Storage.{Storage}
use flash_db_rust.Kvdb.Types.{KvSecInfo, Kvdb, sec_remain_threshold}
use flash_db_rust.Kvdb.Walk.{Visit}
use flash_db_rust.Kvdb.Walk.Rules.{walk_sectors_inv}
use flash_db_rust.Kvdb.Alloc.{has_room, alloc_visit, alloc_scan}

-- A good sector with more room than the threshold besides the node, and not being collected.
unfoldable pub IsRoomy : ℕ → KvSecInfo → Type 0
IsRoomy kv_size s =
    (s.check_ok ≡ true)
    × (kv_size + sec_remain_threshold < pos_part s.remain)
    × (DirtyStatus.eq s.dirty SectorDirtyStatus.gc ≡ false)

ltb_ℤ→lt : (n : ℕ) (r : ℤ) → ltb_ℤ (pos n) r ≡ true → n < pos_part r
ltb_ℤ→lt n (pos m) h = ground arith
ltb_ℤ→lt n (negsuc m) h = absurd (ground arith)

has_room-IsRoomy :
    (s : KvSecInfo) (kv_size : ℕ) (gc_request : Bool)
    → has_room s kv_size gc_request ≡ true
    → IsRoomy kv_size s
unfolding has_room IsRoomy
has_room-IsRoomy s kv_size gc_request h =
    (ground arith, ltb_ℤ→lt _ s.remain (ground arith), ground arith)

of_some : {A : Type 0} → A → Option A → A
of_some a none = a
of_some a (some b) = b

chosen :
    (s t : KvSecInfo) (kv_size : ℕ) (gc_request : Bool)
    → (if has_room s kv_size gc_request then some s else none) ≡ some t
    → IsRoomy kv_size t
unfolding of_some
chosen s t kv_size gc_request h = elim (Bool-cases (has_room s kv_size gc_request)) [
  | inl room ↦
      let same : some s ≡ some t = rw room at h in
      subst (IsRoomy kv_size) (ap (of_some s) same) (has_room-IsRoomy s kv_size gc_request room)
  | inr full ↦ let never : none ≡ some t = rw full at h in absurd (ground arith)
]

module _ {S : Type 0} (st : Storage S) (want : SectorStoreStatus) (kv_size : ℕ) where
  alloc_visit-room :
      (addr : ℕ) (acc : Option KvSecInfo) (db : Kvdb S) (s : KvSecInfo)
      → (alloc_visit st want kv_size addr acc db).0.acc ≡ some s
      → IsRoomy kv_size s
  unfolding alloc_visit
  alloc_visit-room addr acc db s =
      branch_either
        (λ (t : Visit (Option KvSecInfo) × Kvdb S). t.0.acc ≡ some s → IsRoomy kv_size s) _ _
        (λ _ h. chosen _ s kv_size _ h) (λ _ h. absurd (ground arith))

  -- On any backend and any contents, a sector that `alloc_scan` returns has a valid header, more
  -- bytes left than the node and the reserve for one more header with a name, and is not being
  -- collected.
  pub alloc_scan-IsRoomy :
      (db : Kvdb S) (s : KvSecInfo) → (alloc_scan st want kv_size db).0 ≡ some s → IsRoomy kv_size s
  unfolding alloc_scan
  alloc_scan-IsRoomy db s =
      walk_sectors_inv (alloc_visit st want kv_size) (λ t. t ≡ some s → IsRoomy kv_size s)
        (λ addr acc db' _. alloc_visit-room addr acc db' s) db.oldest_addr none db
        (λ h. absurd (ground arith))
