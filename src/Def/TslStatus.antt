-- ===== src/Def/TslStatus.antt =====
-- def.rs: `TslStatus`
use flash_db_rust.Base.{ℕ, zero, suc, Bool, ◌==◌}

pub data TslStatus : Type 0 where
  unused pre_write write user_status1 deleted user_status2 : TslStatus

abbrev pub from_index : ℕ → TslStatus
from_index zero = unused
from_index (suc zero) = pre_write
from_index (suc (suc zero)) = write
from_index (suc (suc (suc zero))) = user_status1
from_index (suc (suc (suc (suc zero)))) = deleted
from_index (suc (suc (suc (suc (suc i))))) = user_status2

abbrev pub index : TslStatus → ℕ
index unused = 0
index pre_write = 1
index write = 2
index user_status1 = 3
index deleted = 4
index user_status2 = 5

abbrev pub eq : TslStatus → TslStatus → Bool
eq a b = index a == index b
