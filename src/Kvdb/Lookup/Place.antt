-- ===== src/Kvdb/Lookup/Place.antt =====
-- kvdb.rs: the first sector in use, and where it has room for a node.
use flash_db_rust.Base.{
  ℕ, ◌+◌, ◌≤◌, ◌<◌, ◌≡◌, refl, ◌⊎◌, inl, inr, Bool, true, false, List, [], ◌∷◌, ◌&&◌, ◌||◌, arith,
  if◌then◌else◌, Result, ok, err, subst, pos, ltb_ℤ, is_ok,
}
use flash_db_rust.Def.StoreStatus
use flash_db_rust.Def.StoreStatus.{SectorStoreStatus}
use flash_db_rust.Def.DirtyStatus
use flash_db_rust.Def.DirtyStatus.{SectorDirtyStatus}
use flash_db_rust.Kvdb.Types.{KvSecInfo, sec_remain_threshold}
use flash_db_rust.Kvdb.Sector.{decode_sector}
use flash_db_rust.Kvdb.Alloc.{has_room}
use flash_db_rust.Kvdb.Lookup.{Node, Nodes, Nodes-bounds}
use flash_db_rust.Kvdb.Lookup.Rule.{Ring, header, is_used, following}

abbrev pub using : (ℕ → ℕ) → ℕ → Bool
using f addr = StoreStatus.eq (header f addr).1.store SectorStoreStatus.using

-- The sector at `addr` is in use and not being collected, its nodes reach up to `end`, and behind
-- them are `size` bytes and those of one more header with a name.
pub record Room (f : ℕ → ℕ) (sec size addr : ℕ) (n : Node) (nodes : List Node) (end : ℕ)
    : Type 0 where
  pub good : is_used (header f addr) ≡ true
  pub store : using f addr ≡ true
  pub dirty :
      (DirtyStatus.eq (header f addr).1.dirty SectorDirtyStatus.clean
        || DirtyStatus.eq (header f addr).1.dirty SectorDirtyStatus.dirty)
      ≡ true
  pub stored : Nodes f (addr + 16) (n ∷ nodes) end
  pub erased : (x : ℕ) → end ≤ x → x < addr + sec → f x ≡ 0xff
  pub room : end + size + sec_remain_threshold < addr + sec

-- The first sector in use, from `addr` on, is the one at `place`, and it has room.
unfoldable pub Place : (ℕ → ℕ) → ℕ → ℕ → ℕ → List (List Node) → ℕ → ℕ → ℕ → Type 0
Place f sec max size [] addr place end = ⊥
Place f sec max size ([] ∷ sectors) addr place end =
    (using f addr ≡ false) × Place f sec max size sectors (following sec max addr) place end
Place f sec max size ((n ∷ nodes) ∷ sectors) addr place end =
    ((addr ≡ place) × Room f sec size addr n nodes end)
    ⊎ ((using f addr ≡ false) × Place f sec max size sectors (following sec max addr) place end)

pub decode_ok :
    (addr : ℕ) (hdr : List ℕ) (sector : KvSecInfo)
    → is_ok (decode_sector addr hdr sector).0 ≡ true
    → ((decode_sector addr hdr sector).0 ≡ ok tt)
      × ((decode_sector addr hdr sector).1.check_ok ≡ true)
unfolding decode_sector
decode_ok addr hdr sector h = ground arith

-- What is decoded does not depend on the descriptor before.
pub decode_again :
    (addr : ℕ) (hdr : List ℕ) (sector sector' : KvSecInfo)
    → decode_sector addr hdr sector ≡ decode_sector addr hdr sector'
unfolding decode_sector
decode_again addr hdr sector sector' = refl

pub used-ok : (t : Result (Unit {0}) × KvSecInfo) → is_used t ≡ true → is_ok t.0 ≡ true
used-ok (ok _, s) h = refl
used-ok (err e, s) h = absurd (ground arith)

pub room_lem :
    (s : KvSecInfo) (size left : ℕ) (gc_request : Bool)
    → s.check_ok ≡ true
    → (DirtyStatus.eq s.dirty SectorDirtyStatus.clean
        || DirtyStatus.eq s.dirty SectorDirtyStatus.dirty)
      ≡ true
    → gc_request ≡ false
    → s.remain ≡ pos left
    → size + sec_remain_threshold < left
    → has_room s size gc_request ≡ true
unfolding has_room
room_lem s size left gc_request check dirty quiet e room =
    let fits : ltb_ℤ (pos (size + sec_remain_threshold)) (pos left) ≡ true = ground arith in
    rw (check, e, fits) (ground arith)

abbrev pub count : KvSecInfo → ℕ → ℕ → ℕ × ℕ
count s empty using =
    if s.check_ok && StoreStatus.eq s.store SectorStoreStatus.empty
    then (empty + 1, using)
    else if s.check_ok && StoreStatus.eq s.store SectorStoreStatus.using
    then (empty, using + 1)
    else (empty, using)

pub counted : (s : KvSecInfo) (e u : ℕ) → 0 < u → 0 < (count s e u).1
counted s e u h = ground arith

pub counted_using :
    (s : KvSecInfo) (e u : ℕ)
    → s.check_ok ≡ true
    → StoreStatus.eq s.store SectorStoreStatus.using ≡ true
    → 0 < (count s e u).1
counted_using s e u check h = ground arith

pub pair_eq : {A B : Type 0} (t : A × B) (a : A) (b : B) → t.0 ≡ a → t.1 ≡ b → t ≡ (a, b)
pair_eq (x, y) a b p q = rw (p, q) refl

pub Place-bounds :
    (f : ℕ → ℕ) (sec max size place end addr : ℕ) (sectors : List (List Node))
    → Ring f sec max addr sectors
    → Place f sec max size sectors addr place end
    → (place + 16 ≤ end)
      × (end + size + sec_remain_threshold < place + sec)
      × (place + sec ≤ max)
      × (using f place ≡ true)
unfolding Ring Place
Place-bounds f sec max size place end addr [] ring at = absurd at
Place-bounds f sec max size place end addr ([] ∷ sectors) (holds, inside, rest) (other, later) =
    Place-bounds f sec max size place end (following sec max addr) sectors rest later
Place-bounds f sec max size place end addr ((n ∷ nodes) ∷ sectors) (holds, inside, rest)
      (inr (other, later)) =
    Place-bounds f sec max size place end (following sec max addr) sectors rest later
Place-bounds f sec max size place end addr ((n ∷ nodes) ∷ sectors) (holds, inside, rest)
      (inl (here, r)) =
    let low = Nodes-bounds f (addr + 16) (n ∷ nodes) end r.stored in
    let room = r.room in
    (omega arith, omega arith, omega arith, subst (λ a. using f a ≡ true) here r.store)
