-- ===== src/Kvdb/Create/Write.antt =====
-- `write_node` on a byte array leaves a complete node, and so what is written is read back.
use flash_db_rust.Base.{
  try, ℕ, ◌+◌, ◌%◌, ◌^◌, ◌≤◌, ◌<◌, ◌≡◌, subst, refl, ◌∙◌, inl, inr, sym, ◌⊎◌, true, false, List, [],
  ◌∷◌, Result, try, ok, arith, length, drop, u32,
}
use flash_db_rust.Status.Laws.{status_byte}
use flash_db_rust.Storage.{Storage}
use flash_db_rust.Storage.Bytes.{slice, overlay}
use flash_db_rust.Storage.Laws.{IsByteArray}
use flash_db_rust.Flash.{write_status, write_align}
use flash_db_rust.Flash.Wrote.{
  Wrote, write_lem, write_align_lem, write_status-Wrote, slice-Wrote_self, slice-Wrote_ne,
  byte-Wrote_ne,
}
use flash_db_rust.Kvdb.Types.{Kvdb}
use flash_db_rust.Kvdb.Create.{node_len, kv_header, write_kv_hdr, write_node}
use flash_db_rust.Kvdb.Create.Node.{IsNode}

length-header : (n : ℕ) (key value : List ℕ) → length (drop 4 (kv_header n key value)) ≡ 20
unfolding kv_header
length-header n key value = refl

module _ {S : Type 0} (st : Storage S) (arr : IsByteArray st) (addr : ℕ) (key value : List ℕ)
    (db : Kvdb S) where
  open arr use {capacity, byte}

  -- The medium after each of the writes of `write_node`.
  abbrev pub hdr : List ℕ
  hdr = drop 4 (kv_header (node_len (u32 (length key)) (u32 (length value))) key value)

  abbrev pub begun : Result (Unit {0}) × S
  begun = write_status st addr 6 1 false db.storage

  abbrev pub headed : Result (Unit {0}) × S
  headed = st.write (addr + 4) hdr false begun.1

  abbrev pub named : Result (Unit {0}) × S
  named = write_align st (addr + 24) key headed.1

  abbrev pub filled : Result (Unit {0}) × S
  filled = write_align st (addr + 24 + length key) value named.1

  abbrev pub valid : Result (Unit {0}) × S
  valid = write_status st addr 6 2 true filled.1

  module _ (small : addr + 24 + length key + length value < 2 ^ 32)
      (fits : addr + 24 + length key + length value ≤ capacity db.storage) where
    w1 : Wrote st arr db.storage begun addr (status_byte 6 1 ∷ [])
    w1 =
        write_status-Wrote st arr db.storage addr 6 1 false (omega arith) (omega arith)
          (omega arith) (omega arith) (omega arith)

    w2 : Wrote st arr begun.1 headed (addr + 4) hdr
    w2 = write_lem st arr begun.1 (addr + 4) hdr false (rw (length-header, w1.same) (omega arith))

    w3 : Wrote st arr headed.1 named (addr + 24) key
    w3 = write_align_lem st arr headed.1 (addr + 24) key (rw (w2.same, w1.same) (omega arith))

    w4 : Wrote st arr named.1 filled (addr + 24 + length key) value
    w4 =
        write_align_lem st arr named.1 (addr + 24 + length key) value
          (rw (w3.same, w2.same, w1.same) fits)

    w5 : Wrote st arr filled.1 valid addr (status_byte 6 2 ∷ [])
    w5 =
        write_status-Wrote st arr filled.1 addr 6 2 true (omega arith)
          (rw (w4.same, w3.same, w2.same, w1.same) (omega arith)) (omega arith) (omega arith)
          (omega arith)

    pub capacity-valid : capacity valid.1 ≡ capacity db.storage
    capacity-valid = w5.same ∙ w4.same ∙ w3.same ∙ w2.same ∙ w1.same

    pub status-valid : byte valid.1 addr ≡ status_byte 6 2
    status-valid = w5.bytes addr ∙ (unfold overlay in ground arith)

    pub valid-IsNode : IsNode (byte valid.1) addr key value
    valid-IsNode = record {
      header =
          slice-Wrote_ne st arr _ _ addr _ w5 (addr + 4) 20 (inr (omega arith))
          ∙ slice-Wrote_ne st arr _ _ _ value w4 (addr + 4) 20 (inl (omega arith))
          ∙ slice-Wrote_ne st arr _ _ _ key w3 (addr + 4) 20 (inl (omega arith))
          ∙ subst (λ n. slice (byte headed.1) (addr + 4) n ≡ hdr)
              (length-header (node_len (u32 (length key)) (u32 (length value))) key value)
              (slice-Wrote_self st arr _ _ (addr + 4) hdr w2);
      name =
          slice-Wrote_ne st arr _ _ addr _ w5 (addr + 24) (length key) (inr (omega arith))
          ∙ slice-Wrote_ne st arr _ _ _ value w4 (addr + 24) (length key) (inl (omega arith))
          ∙ slice-Wrote_self st arr _ _ (addr + 24) key w3;
      content =
          slice-Wrote_ne st arr _ _ addr _ w5 (addr + 24 + length key) (length value)
            (inr (omega arith))
          ∙ slice-Wrote_self st arr _ _ (addr + 24 + length key) value w4;
    }

    -- Bytes outside the node are as before.
    pub byte-valid :
        (x : ℕ)
        → (x < addr) ⊎ (addr + 24 + length key + length value ≤ x)
        → byte db.storage x ≡ byte valid.1 x
    byte-valid x outside =
        let len = length-header (node_len (u32 (length key)) (u32 (length value))) key value in
        sym (
          byte-Wrote_ne st arr _ _ addr _ w5 x (omega arith)
          ∙ byte-Wrote_ne st arr _ _ _ value w4 x (omega arith)
          ∙ byte-Wrote_ne st arr _ _ _ key w3 x (omega arith)
          ∙ byte-Wrote_ne st arr _ _ (addr + 4) hdr w2 x (omega arith)
          ∙ byte-Wrote_ne st arr _ _ addr _ w1 x (omega arith))

    pub write_node_lem : write_node st addr key value db ≡ (ok tt, record db { storage = valid.1 })
    unfolding write_node write_kv_hdr try
    write_node_lem =
        let a : (addr + 4) % 2 ^ 32 ≡ addr + 4 = omega arith in
        let b : (addr + 24) % 2 ^ 32 ≡ addr + 24 = omega arith in
        let c : ((addr + 24) % 2 ^ 32 + length key % 2 ^ 32) % 2 ^ 32 ≡ addr + 24 + length key =
          omega arith in
        rw (a, c, b, w1.done, w2.done, w3.done, w4.done, w5.done)
