-- ===== src/Storage/Ram/Laws.antt =====
-- `RamStorage` is an array of bytes.
use flash_db_rust.Base.{
  ℕ, zero, suc, ◌+◌, ◌-◌, ◌≤◌, ◌<◌, ◌≡◌, refl, true, sym, ◌∙◌, ap, List, [], ◌∷◌, ◌++◌, arith,
  length, get_or, get_or_ext, take, drop, replicate, length-append, length-take, length-drop,
  length-replicate, ltb, if◌then◌else◌,
}
use flash_db_rust.Storage.Bytes.{slice, overlay, length-slice, get_or-slice}
use flash_db_rust.Storage.Laws.{IsByteArray}
use flash_db_rust.Storage.Ram.{RamStorage, read, write, erase, ram}

get_or-append :
    (xs ys : List ℕ) (i : ℕ)
    → get_or (xs ++ ys) i 0
      ≡ (if ltb i (length xs) then get_or xs i 0 else get_or ys (i - length xs) 0)
get_or-append [] ys i = ground arith
get_or-append (x ∷ xs) ys zero = ground arith
get_or-append (x ∷ xs) ys (suc i) = ground (arith, get_or-append xs ys i)

get_or-take : (n : ℕ) (xs : List ℕ) (i : ℕ) → i < n → get_or (take n xs) i 0 ≡ get_or xs i 0
get_or-take zero xs i h = absurd (omega arith)
get_or-take (suc n) [] i h = refl
get_or-take (suc n) (x ∷ xs) zero h = refl
get_or-take (suc n) (x ∷ xs) (suc i) h = get_or-take n xs i (omega arith)

get_or-drop : (n : ℕ) (xs : List ℕ) (i : ℕ) → get_or (drop n xs) i 0 ≡ get_or xs (n + i) 0
get_or-drop zero xs i = ap (λ j. get_or xs j 0) (omega arith)
get_or-drop (suc n) [] i = refl
get_or-drop (suc n) (x ∷ xs) i =
    let e : suc n + i ≡ suc (n + i) = omega arith in rw e (get_or-drop n xs i)

abbrev pub byte : RamStorage → ℕ → ℕ
byte s a = get_or s.mem a 0

-- The three parts that a write leaves, read at an address.
pub splice :
    (mem buf : List ℕ) (start a : ℕ)
    → start + length buf ≤ length mem
    → get_or (take start mem ++ (buf ++ drop (start + length buf) mem)) a 0
      ≡ overlay (λ a. get_or mem a 0) start buf a
unfolding overlay
splice mem buf start a h = ground (
  arith,
  get_or-append (take start mem) (buf ++ drop (start + length buf) mem) a,
  get_or-append buf (drop (start + length buf) mem) (a - start),
  length-take start mem,
  get_or-take start mem a,
  get_or-drop (start + length buf) mem (a - start - length buf),
)

pub length-splice :
    (mem buf : List ℕ) (start : ℕ)
    → start + length buf ≤ length mem
    → length (take start mem ++ (buf ++ drop (start + length buf) mem)) ≡ length mem
length-splice mem buf start h = omega (
  arith,
  length-append (take start mem) (buf ++ drop (start + length buf) mem),
  length-append buf (drop (start + length buf) mem),
  length-take start mem,
  length-drop (start + length buf) mem,
)

pub take-drop-slice :
    (mem : List ℕ) (start n : ℕ)
    → start + n ≤ length mem
    → take n (drop start mem) ≡ slice (λ a. get_or mem a 0) start n
take-drop-slice mem start n h =
    get_or_ext 0 _ _
      (omega (
        arith,
        length-take n (drop start mem),
        length-drop start mem,
        length-slice (λ a. get_or mem a 0) start n,
      ))
      λ i lt.
        let lt' : i < n = omega (arith, length-take n (drop start mem)) in
        get_or-take n (drop start mem) i lt'
        ∙ get_or-drop start mem i
        ∙ sym (get_or-slice (λ a. get_or mem a 0) start n i lt')

pub length_erased : (size : ℕ) → length (replicate {A = ℕ} size 0xff) ≡ size
length_erased size = length-replicate size 0xff

pub erase-write :
    (s : RamStorage) (addr size : ℕ)
    → (erase addr size s).1 ≡ (write addr (replicate size 0xff) true s).1
unfolding erase write
erase-write s addr size = ground (arith, length_erased size)

take_all : (mem : List ℕ) → take (length mem) mem ≡ mem
take_all [] = refl
take_all (b ∷ mem) = ap (◌∷◌ b) (take_all mem)

unfoldable pub ram_array : IsByteArray ram
unfolding read write erase
ram_array = record {
  capacity = λ s. length s.mem;
  byte = byte;
  read_in = λ s addr buf h. ground (arith, take-drop-slice s.mem addr (length buf) h);
  read_out = λ s addr buf h. ground arith;
  write_in = λ s addr buf sync h. ground arith;
  byte-write = λ s addr buf sync a h. ground (arith, splice s.mem buf addr a h);
  capacity-write = λ s addr buf sync. ground (arith, length-splice s.mem buf addr);
  write_out = λ s addr buf sync h. ground arith;
  erase_in = λ s addr size h. ground arith;
  byte-erase = λ s addr size a h.
      let fits : addr + length (replicate {A = ℕ} size 0xff) ≤ length s.mem = rw length_erased h in
      rw (erase-write s addr size) (ground (arith, splice s.mem (replicate size 0xff) addr a fits));
  capacity-erase = λ s addr size.
      rw (erase-write s addr size) (ground (arith, length-splice s.mem (replicate size 0xff) addr));
  erase_out = λ s addr size h. ground arith;
}

pub capacity-ram_array : (s : RamStorage) → ram_array.capacity s ≡ length s.mem
unfolding ram_array
capacity-ram_array s = refl

-- A vector of bytes does what the engine relies on, with its length as the capacity: within it a
-- read returns the bytes and changes nothing, a write and an erase replace just their range;
-- beyond it each fails with its error and changes nothing.
ram-IsByteArray :
    (arr : IsByteArray ram) × ((s : RamStorage) → arr.capacity s ≡ length s.mem)
    × ((s : RamStorage) → slice (arr.byte s) 0 (length s.mem) ≡ s.mem)
unfolding ram_array
ram-IsByteArray = (
  ram_array,
  λ s. refl,
  λ s. sym (take-drop-slice s.mem 0 (length s.mem) (omega arith)) ∙ take_all s.mem,
)
