-- ===== src/Flash/Tests.antt =====
-- flash.rs on a small `RamStorage`.
use flash_db_rust.Base.{◌≡◌, refl, true, [], ◌∷◌, arith, replicate, ◌++◌, ok}
use flash_db_rust.Status.{set_status}
use flash_db_rust.Storage.Ram.{RamStorage, from_bytes, ram, write}
use flash_db_rust.Storage.Ram.Laws.{ram_array, capacity-ram_array}
use flash_db_rust.Flash.{write_status, read_status, continue_ff_addr, program_table}
use flash_db_rust.Flash.Laws.{read_status-write_status}
use flash_db_rust.Flash.Erased.{IsErasedTail, continue_ff_addr-IsErasedTail}

abbrev medium : RamStorage
medium = from_bytes (replicate 40 7 ++ replicate 8 0xff)

valid_node :
    write_status ram 1 6 2 true (from_bytes (0xff ∷ 0xff ∷ []))
    ≡ (ok tt, from_bytes (0xff ∷ 0x3f ∷ []))
unfolding write_status program_table set_status write
valid_node = refl

read_status-write_status_example :
    (read_status ram 4 6 (write_status ram 4 6 2 true medium).1).0 ≡ 2
read_status-write_status_example =
    read_status-write_status ram ram_array medium 4 6 2 true (omega arith)
      (omega (arith, capacity-ram_array medium)) (omega arith) (omega arith) (omega arith)

continue_ff_addr-IsErasedTail_example :
    IsErasedTail (ram_array.byte medium) 3 48 (continue_ff_addr ram 3 48 medium).0
    × ((continue_ff_addr ram 3 48 medium).1 ≡ medium)
continue_ff_addr-IsErasedTail_example =
    continue_ff_addr-IsErasedTail ram ram_array medium 3 48 (omega arith) (omega arith)
      (omega (arith, capacity-ram_array medium))
