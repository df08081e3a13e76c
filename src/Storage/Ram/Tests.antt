-- ===== src/Storage/Ram/Tests.antt =====
-- A small `RamStorage` at work.
use flash_db_rust.Base.{◌≡◌, refl, true, [], ◌∷◌, ok, err, write_err, read_err}
use flash_db_rust.Storage.Ram.{from_bytes, new, read, write, erase}

write_middle : write 1 (7 ∷ 8 ∷ []) true (new 4) ≡ (ok tt, from_bytes (0xff ∷ 7 ∷ 8 ∷ 0xff ∷ []))
unfolding write new
write_middle = refl

write_past_end : write 3 (7 ∷ 8 ∷ []) true (new 4) ≡ (err write_err, new 4)
unfolding write new
write_past_end = refl

read_past_end : read 4 (0 ∷ []) (new 4) ≡ ((err read_err, 0 ∷ []), new 4)
unfolding read new
read_past_end = refl

erase_one : erase 0 1 (from_bytes (1 ∷ 2 ∷ [])) ≡ (ok tt, from_bytes (0xff ∷ 2 ∷ []))
unfolding erase
erase_one = refl
