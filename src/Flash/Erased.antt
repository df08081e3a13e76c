-- ===== src/Flash/Erased.antt =====
-- `continue_ff_addr` on a byte array: the chunked scan finds where the erased tail begins.
use flash_db_rust.Base.{
  ℕ, zero, suc, ◌+◌, ◌-◌, ◌%◌, ◌^◌, ◌≤◌, ◌<◌, ◌≡◌, ◌≢◌, ◌∙◌, refl, sym, ap, ◌⊎◌, inl, inr, true,
  false, not, ◌&&◌, Bool-cases, List, [], ◌∷◌, ◌++◌, arith, length, take, drop, replicate,
  length-append, length-take, length-drop, leb, ltb, ◌==◌, if◌then◌else◌,
}
use flash_db_rust.Storage.{Storage}
use flash_db_rust.Storage.Bytes.{slice, slice-append, length-slice}
use flash_db_rust.Storage.Laws.{IsByteArray}
use flash_db_rust.Flash.{ff_scan, ff_loop, continue_ff_addr}

-- From `r` to `end` all bytes are erased, and no address between `start` and `r` would do.
pub record IsErasedTail (f : ℕ → ℕ) (start end r : ℕ) : Type 0 where
  pub lower : start ≤ r
  pub upper : r ≤ end
  pub erased : (a : ℕ) → r ≤ a → a < end → f a ≡ 0xff
  pub least : (r ≡ start) ⊎ (f (r - 1) ≢ 0xff)

-- A scan may be cut in two.
ff_scan-append :
    (pos : ℕ) (xs ys : List ℕ) (last addr : ℕ)
    → ff_scan pos (xs ++ ys) last addr
      ≡ ff_scan (pos + length xs) ys (ff_scan pos xs last addr).0 (ff_scan pos xs last addr).1
unfolding ff_scan
ff_scan-append pos [] ys last addr = let e : pos + 0 ≡ pos = omega arith in rw e
ff_scan-append pos (x ∷ xs) ys last addr =
    let e : pos + suc (length xs) ≡ pos + 1 + length xs = omega arith in
    rw e (ff_scan-append (pos + 1) xs ys x _)

scan_cut :
    (f : ℕ → ℕ) (start r m last addr : ℕ)
    → ff_scan
        (start + r)
        (slice f (start + r) m)
        (ff_scan start (slice f start r) last addr).0
        (ff_scan start (slice f start r) last addr).1
      ≡ ff_scan start (slice f start (r + m)) last addr
scan_cut f start r m last addr =
    let both = ff_scan-append start (slice f start r) (slice f (start + r) m) last addr in
    let size = length-slice f start r in sym (rw (← slice-append f start r m) (rw size at both))

-- What a scan has established before address `pos`: an erased tail if the last byte was erased.
Scanned : (ℕ → ℕ) → ℕ → ℕ → ℕ → ℕ → Type 0
Scanned f start pos last addr =
    ((last ≡ 0xff) × (addr < pos) × IsErasedTail f start pos addr)
    ⊎ ((last ≢ 0xff) × ((pos ≡ start) ⊎ (f (pos - 1) ≡ last)))

extend :
    (f : ℕ → ℕ) (start pos addr : ℕ)
    → IsErasedTail f start pos addr
    → f pos ≡ 0xff
    → IsErasedTail f start (pos + 1) addr
extend f start pos addr tail e = record {
  lower = tail.lower;
  upper = omega (arith, tail.upper);
  erased = λ a p q. ground (arith, tail.erased a);
  least = tail.least;
}

begin :
    (f : ℕ → ℕ) (start pos last : ℕ)
    → start ≤ pos
    → f pos ≡ 0xff
    → last ≢ 0xff
    → (pos ≡ start) ⊎ (f (pos - 1) ≡ last)
    → IsErasedTail f start (pos + 1) pos
begin f start pos last h e ne before = record {
  lower = h;
  upper = omega arith;
  erased = λ a p q. let same : a ≡ pos = omega arith in rw same e;
  least = elim before [ inl s ↦ inl s | inr b ↦ inr (rw b ne) ];
}

scan_byte :
    (f : ℕ → ℕ) (start pos last addr : ℕ)
    → start ≤ pos
    → Scanned f start pos last addr
    → Scanned f start (pos + 1) (f pos) (if not (last == 0xff) && f pos == 0xff then pos else addr)
unfolding Scanned
scan_byte f start pos last addr h p = elim (Bool-cases (f pos == 0xff)) [
  | inr other ↦ let here : pos + 1 - 1 ≡ pos = omega arith in inr (ground arith, inr (rw here))
  | inl erased ↦
      let e : f pos ≡ 0xff = ground arith in
      elim p [
        | inl (l, below, tail) ↦
            let stays : (if not (last == 0xff) && f pos == 0xff then pos else addr) ≡ addr =
              ground arith in
            rw stays (inl (e, omega arith, extend f start pos addr tail e))
        | inr (ne, before) ↦
            let moves : (if not (last == 0xff) && f pos == 0xff then pos else addr) ≡ pos =
              ground arith in
            rw moves (inl (e, omega arith, begin f start pos last h e ne before))
      ]
]

scan_slice :
    (f : ℕ → ℕ) (start pos n last addr : ℕ)
    → start ≤ pos
    → Scanned f start pos last addr
    → Scanned f start
        (pos + n)
        (ff_scan pos (slice f pos n) last addr).0
        (ff_scan pos (slice f pos n) last addr).1
unfolding ff_scan slice
scan_slice f start pos zero last addr h p = let e : pos + 0 ≡ pos = omega arith in rw e p
scan_slice f start pos (suc n) last addr h p =
    let e : pos + suc n ≡ pos + 1 + n = omega arith in
    rw e
      (scan_slice f start (pos + 1) n (f pos) _ (omega arith) (scan_byte f start pos last addr h p))

-- At the end of the range the choice that `continue_ff_addr` makes is right.
finish :
    (f : ℕ → ℕ) (start end last addr : ℕ)
    → start < end
    → Scanned f start end last addr
    → IsErasedTail f start end (if last == 0xff then addr else end)
unfolding Scanned
finish f start end last addr below (inl (l, lt, tail)) = rw l tail
finish f start end last addr below (inr (ne, before)) =
    let other : (last == 0xff) ≡ false = ground arith in
    let b : f (end - 1) ≡ last = elim before [ inl s ↦ absurd (omega arith) | inr b ↦ b ] in
    rw other (record {
      lower = omega arith;
      upper = omega arith;
      erased = λ a p q. absurd (omega arith);
      least = inr (rw b ne);
    })

module _ {S : Type 0} (st : Storage S) (arr : IsByteArray st) where
  open arr use {capacity, byte, read_in}

  -- One round, on a chunk of `r` bytes.
  ff_loop_round :
      (s : S) (fuel : ℕ) (buf : List ℕ) (start end last addr r : ℕ)
      → length buf ≡ 32
      → start < end
      → start + 32 < 2 ^ 32
      → (if leb (start + 32) end then 32 else end - start) ≡ r
      → r ≤ 32
      → start + r ≤ capacity s
      → ff_loop st (suc fuel) buf start end last addr s
        ≡ ff_loop st fuel
            (slice (byte s) start r ++ drop r buf)
            (start + 32)
            end
            (ff_scan start (slice (byte s) start r) last addr).0
            (ff_scan start (slice (byte s) start r) last addr).1
            s
  unfolding ff_loop
  ff_loop_round s fuel buf start end last addr r b below small chunk le c =
      let wrap : (start + 32) % 2 ^ 32 ≡ start + 32 = omega arith in
      let test : ltb start end ≡ true = ground arith in
      let size : length (take r buf) ≡ r = omega (arith, length-take r buf) in
      let got = read_in s start (take r buf) (rw size c) in rw (test, wrap, chunk, got, size)

  refill :
      (s : S) (buf : List ℕ) (start r : ℕ)
      → length buf ≡ 32
      → r ≤ 32
      → length (slice (byte s) start r ++ drop r buf) ≡ 32
  refill s buf start r b le = omega (
    arith,
    length-append (slice (byte s) start r) (drop r buf),
    length-slice (byte s) start r,
    length-drop r buf,
  )

  -- The chunks add up to one scan of the whole range.
  ff_loop-scan :
      (s : S) (fuel : ℕ) (buf : List ℕ) (start end last addr : ℕ)
      → length buf ≡ 32
      → end ≤ start + fuel
      → end + 32 < 2 ^ 32
      → end ≤ capacity s
      → ff_loop st fuel buf start end last addr s
        ≡ (ff_scan start (slice (byte s) start (end - start)) last addr, s)
  ff_loop-scan s zero buf start end last addr b f small c =
      let e : end - start ≡ 0 = omega arith in rw e (unfold ff_loop slice ff_scan in refl)
  ff_loop-scan s (suc fuel) buf start end last addr b f small c =
      elim (Bool-cases (ltb start end)) [
        | inr over ↦
            let e : end - start ≡ 0 = ground arith in
            unfold ff_loop in rw (over, e) (unfold slice ff_scan in refl)
        | inl below ↦ elim (Bool-cases (leb (start + 32) end)) [
          | inl whole ↦
              let r : (if leb (start + 32) end then 32 else end - start) ≡ 32 = rw whole in
              let e : 32 + (end - (start + 32)) ≡ end - start = ground arith in
              ff_loop_round s fuel buf start end last addr 32 b (ground arith) (ground arith) r
                (omega arith) (ground arith)
              ∙ ff_loop-scan s fuel (slice (byte s) start 32 ++ drop 32 buf) (start + 32) end _ _
                  (refill s buf start 32 b (omega arith)) (omega arith) small c
              ∙ ap (λ (t : ℕ × ℕ). (t, s))
                  (scan_cut (byte s) start 32 (end - (start + 32)) last addr
                    ∙ ap (λ m. ff_scan start (slice (byte s) start m) last addr) e)
          | inr part ↦
              let r : (if leb (start + 32) end then 32 else end - start) ≡ end - start = rw part in
              let e : end - (start + 32) ≡ 0 = ground arith in
              ff_loop_round s fuel buf start end last addr (end - start) b (ground arith)
                (ground arith) r (ground arith) (ground arith)
              ∙ ff_loop-scan s fuel (slice (byte s) start (end - start) ++ drop (end - start) buf)
                  (start + 32) end _ _ (refill s buf start (end - start) b (ground arith))
                  (ground arith) small c
              ∙ rw e (unfold slice ff_scan in refl)
        ]
      ]

  -- On a byte array that holds the non-empty range, the result is where its erased tail begins:
  -- `end` if the last byte is not erased, and nothing on the medium changes.
  pub continue_ff_addr-IsErasedTail :
      (s : S) (start end : ℕ)
      → start < end
      → end + 32 < 2 ^ 32
      → end ≤ capacity s
      → IsErasedTail (byte s) start end (continue_ff_addr st start end s).0
        × ((continue_ff_addr st start end s).1 ≡ s)
  unfolding continue_ff_addr
  continue_ff_addr-IsErasedTail s start end below small c =
      let l =
        ff_loop-scan s (end - start) (replicate 32 0) start end 0 start (omega arith) (omega arith)
          small c in
      let e : start + (end - start) ≡ end = omega arith in
      let found = rw e at (
        scan_slice (byte s) start start (end - start) 0 start (omega arith)
          (unfold Scanned in inr (omega arith, inl refl))) in
      rw l (finish (byte s) start end _ _ below found, refl)
