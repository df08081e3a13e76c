-- ===== src/Kvdb/Create/Delete.antt =====
-- Deleting a node on a byte array: it stays readable, and no longer matches its key.
use flash_db_rust.Base.{
  try, ℕ, ◌+◌, ◌-◌, ◌%◌, ◌^◌, ◌≤◌, ◌<◌, ◌≡◌, refl, ◌∙◌, ap, subst, inl, inr, Bool, true, false, not,
  List, [], ◌∷◌, Result, ok, arith, length, Bool-cases, ◌==◌, branch, if◌then◌else◌,
}
use flash_db_rust.Def.{align_down}
use flash_db_rust.Status.{get_status}
use flash_db_rust.Status.Laws.{status_byte}
use flash_db_rust.Storage.{Storage}
use flash_db_rust.Storage.Bytes.{overlay}
use flash_db_rust.Storage.Laws.{IsByteArray}
use flash_db_rust.Flash.{write_status}
use flash_db_rust.Flash.Laws.{read_status_lem, get_status-status_byte}
use flash_db_rust.Kvdb.Types.{Kv, Kvdb}
use flash_db_rust.Kvdb.Record.{read_kv}
use flash_db_rust.Kvdb.Find.{matches, mark_dirty, delete_at}
use flash_db_rust.Kvdb.Create.Node.{IsNode, read_node, read_kv-IsNode}
use flash_db_rust.Flash.Wrote.{Wrote, write_status-Wrote, slice-Wrote_ne}

module _ {S : Type 0} (st : Storage S) (arr : IsByteArray st) where
  open arr use {capacity, byte}

  -- A write in front of a node's second word leaves the node.
  IsNode-Wrote :
      (s : S) (after : Result (Unit {0}) × S) (a addr : ℕ) (buf key value : List ℕ)
      → Wrote st arr s after a buf
      → a + length buf ≤ addr + 4
      → IsNode (byte s) addr key value
      → IsNode (byte after.1) addr key value
  IsNode-Wrote s after a addr buf key value w h node = record {
    header = slice-Wrote_ne st arr s after a buf w (addr + 4) 20 (inr h) ∙ node.header;
    name =
        slice-Wrote_ne st arr s after a buf w (addr + 24) (length key) (inr (omega arith))
        ∙ node.name;
    content =
        slice-Wrote_ne st arr s after a buf w (addr + 24 + length key) (length value)
          (inr (omega arith))
        ∙ node.content;
  }

  -- A medium that still has the node, its state and its size.
  record Keeps (s s' : S) (addr : ℕ) (key value : List ℕ) : Type 0 where
    node : IsNode (byte s') addr key value
    state : byte s' addr ≡ byte s addr
    size : capacity s' ≡ capacity s

  mark_dirty_lem :
      (db : Kvdb S) (addr : ℕ) (key value : List ℕ)
      → addr < 2 ^ 32
      → addr + 1 ≤ capacity db.storage
      → align_down addr db.sec_size + 2 ≤ addr
      → IsNode (byte db.storage) addr key value
      → (s : S) × (mark_dirty st addr db ≡ (ok tt, record db { storage = s }))
        × Keeps db.storage s addr key value
  unfolding mark_dirty try
  mark_dirty_lem db addr key value small fits past node =
      let flag : ℕ = align_down addr db.sec_size + 1 in
      let wrap : (align_down addr db.sec_size + 1) % 2 ^ 32 ≡ flag = omega arith in
      let got =
        read_status_lem st arr db.storage flag 4 (omega arith) (omega arith) (omega arith) in
      elim (Bool-cases (get_status (byte db.storage flag ∷ []) 4 == 1)) [
        | inl clean ↦
            let after = write_status st flag 4 2 true db.storage in
            let w =
              write_status-Wrote st arr db.storage flag 4 2 true (omega arith) (omega arith)
                (omega arith) (omega arith) (omega arith) in
            (
              after.1,
              rw (wrap, got, clean) (unfold branch in rw (w.done)),
              record {
                node = IsNode-Wrote db.storage after flag addr _ key value w (omega arith) node;
                state = w.bytes addr ∙ (unfold overlay in ground arith);
                size = w.same;
              },
            )
        | inr other ↦ (
          db.storage,
          rw (wrap, got, other) (unfold branch in refl),
          record { node = node; state = refl; size = refl },
        )
      ]

-- The state that each way of deleting sets.
abbrev pub deleted_state : Bool → ℕ
deleted_state complete_del = if complete_del then 4 else 3

matches-deleted :
    (kv : Kv) (complete_del : Bool) (key value : List ℕ)
    → matches key (read_node kv (deleted_state complete_del) key value) ≡ false
unfolding matches read_node
matches-deleted kv true key value = refl
matches-deleted kv false key value = refl

-- The first write of `delete_at`.
programmed :
    {S : Type 0} (st : Storage S) (arr : IsByteArray st) (db : Kvdb S) (addr : ℕ)
    (complete_del : Bool)
    → addr < 2 ^ 32
    → addr + 1 ≤ arr.capacity db.storage
    → (s : S) × (delete_at st addr complete_del db
        ≡ mark_dirty st addr (record db { storage = s; last_is_complete_del = not complete_del }))
      × Wrote st arr db.storage (ok tt, s) addr (status_byte 6 (deleted_state complete_del) ∷ [])
unfolding delete_at try
programmed st arr db addr true small fits =
    let w =
      write_status-Wrote st arr db.storage addr 6 4 true small fits (omega arith) (omega arith)
        (omega arith) in
    (
      (write_status st addr 6 4 true db.storage).1,
      rw (w.done),
      record { done = refl; same = w.same; bytes = w.bytes },
    )
programmed st arr db addr false small fits =
    let w =
      write_status-Wrote st arr db.storage addr 6 3 false small fits (omega arith) (omega arith)
        (omega arith) in
    (
      (write_status st addr 6 3 false db.storage).1,
      rw (w.done),
      record { done = refl; same = w.same; bytes = w.bytes },
    )

-- On a byte array, for a complete node behind its sector's status bytes, with a key of at most 63
-- bytes, inside the medium and no longer than the database, both ways of deleting
-- succeed; `read_kv` then still returns the node with its key and lengths, in the state deleted or
-- about to be deleted, and that node no longer matches its key.
pub read_kv-delete_at :
    {S : Type 0} (st : Storage S) (arr : IsByteArray st) (kv : Kv) (complete_del : Bool)
    (key value : List ℕ) (db : Kvdb S)
    → length key ≤ 63
    → length kv.name ≡ 64
    → kv.addr_start + 24 + length key + length value < 2 ^ 32
    → kv.addr_start + 24 + length key + length value ≤ arr.capacity db.storage
    → 24 + length key + length value ≤ db.max_size
    → db.max_size < 2 ^ 32 - 1
    → align_down kv.addr_start db.sec_size + 2 ≤ kv.addr_start
    → IsNode (arr.byte db.storage) kv.addr_start key value
    → let (result, db') = delete_at st kv.addr_start complete_del db in
      let got = read_node kv (deleted_state complete_del) key value in
      (result ≡ ok tt) × (read_kv st kv db' ≡ ((ok tt, got), db')) × (matches key got ≡ false)
read_kv-delete_at st arr kv complete_del key value db short room small fits max below past node =
    let (s, first, w) =
      programmed st arr db kv.addr_start complete_del (omega arith) (omega arith) in
    let db1 = record db { storage = s; last_is_complete_del = not complete_del } in
    let node1 =
      IsNode-Wrote st arr db.storage (ok tt, s) kv.addr_start kv.addr_start _ key value w
        (omega arith) node in
    let (s2, second, kept) =
      mark_dirty_lem st arr db1 kv.addr_start key value (omega arith) (rw (w.same) (omega arith))
        past node1 in
    let here : overlay (arr.byte db.storage) kv.addr_start
          (status_byte 6 (deleted_state complete_del) ∷ []) kv.addr_start
        ≡ status_byte 6 (deleted_state complete_del) =
      unfold overlay in ground arith in
    let state =
      ap (λ b. get_status (b ∷ []) 6) (kept.state ∙ w.bytes kv.addr_start ∙ here)
      ∙ get_status-status_byte 6 (deleted_state complete_del) (omega arith) (omega arith)
          (ground arith) in
    let read_db = record db1 { storage = s2 } in
    let read =
      read_kv-IsNode st arr kv key value read_db short room small (rw (kept.size, w.same) fits) max
        below (kept.node) in
    rw (first, second)
      (
        refl,
        subst (λ i. read_kv st kv read_db ≡ ((ok tt, read_node kv i key value), read_db)) state
            read,
        matches-deleted kv complete_del key value,
      )
