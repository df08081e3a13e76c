-- ===== src/Status.antt =====
-- status.rs: a status as a bitmap in which each further state clears one more high bit.
pub mod Laws
pub mod Tests
use flash_db_rust.Base.{
  ℕ, zero, suc, ◌+◌, ◌-◌, ◌/◌, ◌%◌, ◌^◌, Option, none, some, List, ◌++◌, bit_and, get_or, set, drop,
  replicate, ltb, ◌==◌, if◌then◌else◌,
}
use flash_db_rust.Def.{status_table_size}

-- The table comes back beside the result, since the Rust function fills it in place.
unfoldable pub set_status : List ℕ → ℕ → ℕ → Option ℕ × List ℕ
set_status table status_num status_index =
    let size = status_table_size status_num in
    let erased = replicate size 0xff ++ drop size table in
    let byte_index = (status_index - 1) / 8 in
    if ltb 0 status_index
    then (
      some byte_index,
      set erased byte_index
          (bit_and (get_or erased byte_index 0) (0x00ff / 2 ^ (status_index % 8))),
    )
    else (none, erased)

-- The loop of `get_status`, which counts the states above the current one in `i`.
pub status_loop : List ℕ → ℕ → ℕ → ℕ
status_loop table zero i = i
status_loop table (suc sn) i =
    if bit_and (get_or table (sn / 8) 0) (0x80 / 2 ^ (sn % 8)) == 0x00
    then i
    else status_loop table sn (i + 1)

unfoldable pub get_status : List ℕ → ℕ → ℕ
unfolding status_loop
get_status table status_num = let bak = status_num - 1 in bak - status_loop table bak 0
