-- ===== src/Def/KvStatus.antt =====
-- def.rs: `KvStatus`
use flash_db_rust.Base.{ℕ, zero, suc, Bool, ◌==◌}

pub data KvStatus : Type 0 where
  unused pre_write write pre_delete deleted err_hdr : KvStatus

abbrev pub from_index : ℕ → KvStatus
from_index zero = unused
from_index (suc zero) = pre_write
from_index (suc (suc zero)) = write
from_index (suc (suc (suc zero))) = pre_delete
from_index (suc (suc (suc (suc zero)))) = deleted
from_index (suc (suc (suc (suc (suc i))))) = err_hdr

-- `status as usize`
abbrev pub index : KvStatus → ℕ
index unused = 0
index pre_write = 1
index write = 2
index pre_delete = 3
index deleted = 4
index err_hdr = 5

abbrev pub eq : KvStatus → KvStatus → Bool
eq a b = index a == index b
