-- ===== src/Kvdb/Lookup/Rule.antt =====
-- kvdb.rs: the ring of sectors with the nodes that each holds, and a rule for walks over it.
use flash_db_rust.Base.{
  branch, ℕ, zero, suc, ◌+◌, ◌*◌, ◌%◌, ◌^◌, ◌≤◌, ◌<◌, ◌≡◌, refl, Bool, true, false, List, [], ◌∷◌,
  ◌++◌, ◌&&◌, ◌||◌, arith, length, ltb, ◌==◌, if◌then◌else◌, is_ok, Bool-cases, inl, inr, Result,
  Cmd,
}
use flash_db_rust.Def.{failed_addr}
use flash_db_rust.Storage.Bytes.{slice}
use flash_db_rust.Kvdb.Types.{KvSecInfo, Kvdb, blank_sector, sector_not_combined}
use flash_db_rust.Kvdb.Sector.{decode_sector, get_next_sector_addr}
use flash_db_rust.Kvdb.Walk.{Visit, sector_loop}
use flash_db_rust.Kvdb.Find.{in_use}
use flash_db_rust.Kvdb.Lookup.{Node, Nodes}

-- The header of a sector, as it is decoded
abbrev pub header : (ℕ → ℕ) → ℕ → Result (Unit {0}) × KvSecInfo
header f addr = decode_sector addr (slice f addr 16) blank_sector

abbrev pub is_used : Result (Unit {0}) × KvSecInfo → Bool
is_used (r, s) = is_ok r && in_use s

-- The nodes of the sector at `addr`: none where it is not in use, and else at least one, behind
-- each other, with an erased tail that has room for two headers.
unfoldable pub Holds : (ℕ → ℕ) → ℕ → ℕ → List Node → Type 0
Holds f sec addr [] =
    ((header f addr).1.combined ≡ sector_not_combined) × (is_used (header f addr) ≡ false)
Holds f sec addr (n ∷ nodes) =
    ((header f addr).1.combined ≡ sector_not_combined)
    × (is_used (header f addr) ≡ true)
    × ((end : ℕ) × Nodes f (addr + 16) (n ∷ nodes) end
        × (end + 48 ≤ addr + sec)
        × ((x : ℕ) → end ≤ x → x < addr + sec → f x ≡ 0xff))

-- The sector after the one at `addr`
abbrev pub following : ℕ → ℕ → ℕ → ℕ
following sec max addr = if ltb (addr + sec) max then addr + sec else 0

-- The sectors from `addr` on, round the end of the medium.
unfoldable pub Ring : (ℕ → ℕ) → ℕ → ℕ → ℕ → List (List Node) → Type 0
Ring f sec max addr [] = Unit
Ring f sec max addr (nodes ∷ sectors) =
    Holds f sec addr nodes × (addr + sec ≤ max) × Ring f sec max (following sec max addr) sectors

abbrev pub concat : List (List Node) → List Node
concat [] = []
concat (nodes ∷ sectors) = nodes ++ concat sectors

pub header-addr : (f : ℕ → ℕ) (addr : ℕ) → (header f addr).1.addr ≡ addr
unfolding decode_sector
header-addr f addr = ground arith

pub or_true : (b : Bool) → (b || true) ≡ true
or_true true = refl
or_true false = refl

module _ (f : ℕ → ℕ) (sec max : ℕ) (small : max + sec + 32 < 2 ^ 32) (wide : 16 ≤ sec) where
  pub Holds-combined :
      (addr : ℕ) (nodes : List Node)
      → Holds f sec addr nodes
      → (header f addr).1.combined ≡ sector_not_combined
  unfolding Holds
  Holds-combined addr [] h = h.0
  Holds-combined addr (n ∷ nodes) h = h.0

  pub next_lem :
      (addr traversed : ℕ) (sector : KvSecInfo)
      → sector.addr ≡ addr
      → sector.combined ≡ sector_not_combined
      → addr + sec ≤ max
      → traversed + sec ≤ max
      → get_next_sector_addr sec max sector traversed
        ≡ (if ltb (addr + sec) max then addr + sec else 0)
  unfolding get_next_sector_addr
  next_lem addr traversed sector at combined inside more =
      let a : (traversed + sec) % 2 ^ 32 ≡ traversed + sec = omega arith in
      let b : (addr + sec) % 2 ^ 32 ≡ addr + sec = omega arith in
      rw (combined, at, a, b) (ground arith)

  pub last_lem :
      (traversed : ℕ) (sector : KvSecInfo)
      → sector.combined ≡ sector_not_combined
      → traversed ≡ max
      → get_next_sector_addr sec max sector traversed ≡ failed_addr
  unfolding get_next_sector_addr
  last_lem traversed sector combined done =
      let a : (traversed + sec) % 2 ^ 32 ≡ traversed + sec = omega arith in
      rw (combined, a) (ground arith)

module _ {S A : Type 0} (body : ℕ → A → Cmd (Kvdb S) (Visit A)) (db : Kvdb S) (f : ℕ → ℕ)
    (small : db.max_size + db.sec_size + 32 < 2 ^ 32) (wide : 16 ≤ db.sec_size)
    (P : List (List Node) → ℕ → A → Type 0) (Q : A → Type 0)
    (visit : (addr : ℕ) (nodes : List Node) (sectors : List (List Node)) (acc : A)
      → P (nodes ∷ sectors) addr acc
      → Holds f db.sec_size addr nodes
      → addr + db.sec_size ≤ db.max_size
      → let (v, db') = body addr acc db in
        (db' ≡ db)
        × (v.sector.addr ≡ addr)
        × (v.sector.combined ≡ sector_not_combined)
        × (v.stop ≡ true → Q v.acc)
        × (v.stop ≡ false → P sectors (following db.sec_size db.max_size addr) v.acc))
    (last : (addr : ℕ) (acc : A) → P [] addr acc → Q acc) where
  -- A walk over a ring whose body changes nothing: what each visit hands on, and what the walk
  -- returns. The walk ends at the first visit that stops, or after the last sector.
  pub Ring-rule :
      (fuel addr traversed : ℕ) (nodes : List Node) (sectors : List (List Node)) (acc : A)
      → length sectors < fuel
      → traversed + db.sec_size + length sectors * db.sec_size ≡ db.max_size
      → Ring f db.sec_size db.max_size addr (nodes ∷ sectors)
      → P (nodes ∷ sectors) addr acc
      → let (out, db') = sector_loop body fuel addr traversed acc db in (db' ≡ db) × Q out
  unfolding sector_loop Ring branch
  Ring-rule zero addr traversed nodes sectors acc enough total ring p = absurd (omega arith)
  Ring-rule (suc fuel) addr traversed nodes [] acc enough total (holds, inside, rest) p =
      let (same, at, combined, hit, miss) = visit addr nodes [] acc p holds inside in
      let sum : (traversed + db.sec_size) % 2 ^ 32 ≡ traversed + db.sec_size = omega arith in
      let end =
        last_lem f db.sec_size db.max_size small wide (traversed + db.sec_size)
          (body addr acc db).0.sector combined (omega arith) in
      elim (Bool-cases (body addr acc db).0.stop) [
        | inl e ↦ rw (sum, same, e) (refl, hit e)
        | inr e ↦ rw (sum, same, end, or_true) (refl, last _ _ (miss e))
      ]
  Ring-rule (suc fuel) addr traversed nodes (more ∷ sectors) acc enough total (holds, inside, rest)
        p =
      let (same, at, combined, hit, miss) = visit addr nodes (more ∷ sectors) acc p holds inside in
      let sum : (traversed + db.sec_size) % 2 ^ 32 ≡ traversed + db.sec_size = omega arith in
      let rounds : suc (length sectors) * db.sec_size ≡ db.sec_size + length sectors * db.sec_size =
        omega arith in
      let next =
        next_lem f db.sec_size db.max_size small wide addr (traversed + db.sec_size)
          (body addr acc db).0.sector at combined inside (omega arith) in
      let go : (following db.sec_size db.max_size addr == failed_addr) ≡ false = ground arith in
      elim (Bool-cases (body addr acc db).0.stop) [
        | inl e ↦ rw (sum, same, e) (refl, hit e)
        | inr e ↦
            rw (sum, same, next, e, go)
              (Ring-rule fuel (following db.sec_size db.max_size addr) (traversed + db.sec_size)
                more sectors (body addr acc db).0.acc (omega arith) (omega arith) rest (miss e))
      ]
