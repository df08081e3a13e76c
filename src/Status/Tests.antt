-- ===== src/Status/Tests.antt =====
-- The bit patterns that status.rs names.
use flash_db_rust.Base.{◌≡◌, refl, [], ◌∷◌, none, some, arith, bit_and}
use flash_db_rust.Status.{set_status, get_status}
use flash_db_rust.Status.Laws.{status_byte, get_status-set_status, status_byte-subset}

pre_write_pattern : set_status (0 ∷ []) 6 1 ≡ (some 0, 0x7f ∷ [])
unfolding set_status
pre_write_pattern = refl

unused_pattern : set_status (0 ∷ []) 6 0 ≡ (none, 0xff ∷ [])
unfolding set_status
unused_pattern = refl

get_status-set_status_example : get_status (set_status (0 ∷ []) 6 4).1 6 ≡ 4
get_status-set_status_example = get_status-set_status (0 ∷ []) 6 4 (omega arith) (omega arith)

status_byte-subset_example : bit_and (status_byte 6 2) (status_byte 6 3) ≡ status_byte 6 3
status_byte-subset_example = status_byte-subset 6 2 3 (omega arith) (omega arith) (omega arith)
