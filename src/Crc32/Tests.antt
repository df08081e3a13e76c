-- ===== src/Crc32/Tests.antt =====
-- Test vectors for crc32.rs
use flash_db_rust.Base.{ℕ, List, [], ◌∷◌, ◌≡◌, ◌≢◌, refl, arith}
use flash_db_rust.Crc32.{calc_crc32}
use flash_db_rust.Crc32.Reference.Detect.{calc_crc32-ne}
use flash_db_rust.Crc32.Reference.{bitwise_crc32, calc_crc32-bitwise, calc_crc32-append}

abbrev digits : List ℕ
digits = b'1' ∷ b'2' ∷ b'3' ∷ b'4' ∷ b'5' ∷ b'6' ∷ b'7' ∷ b'8' ∷ b'9' ∷ []

-- The check value of CRC-32.
known_vector : calc_crc32 0 digits ≡ 0xcbf4_3926
unfolding calc_crc32
known_vector = refl

calc_crc32-bitwise_example : calc_crc32 0 digits ≡ bitwise_crc32 0 digits
calc_crc32-bitwise_example = calc_crc32-bitwise 0 digits (omega arith)

calc_crc32-append_example :
    calc_crc32 0 (1 ∷ 2 ∷ 3 ∷ []) ≡ calc_crc32 (calc_crc32 0 (1 ∷ [])) (2 ∷ 3 ∷ [])
calc_crc32-append_example = calc_crc32-append 0 (1 ∷ []) (2 ∷ 3 ∷ [])

calc_crc32-ne_example : calc_crc32 0 (7 ∷ 1 ∷ 9 ∷ []) ≢ calc_crc32 0 (7 ∷ 2 ∷ 9 ∷ [])
calc_crc32-ne_example =
    calc_crc32-ne 0 1 2 (7 ∷ []) (9 ∷ []) (omega arith) (omega arith) (omega arith) (omega arith)
