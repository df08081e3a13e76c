-- ===== src/Def/StoreStatus.antt =====
-- def.rs: `SectorStoreStatus`
use flash_db_rust.Base.{ℕ, zero, suc, Bool, ◌==◌}

pub data SectorStoreStatus : Type 0 where
  unused empty using full : SectorStoreStatus

abbrev pub from_index : ℕ → SectorStoreStatus
from_index zero = unused
from_index (suc zero) = empty
from_index (suc (suc zero)) = using
from_index (suc (suc (suc zero))) = full
from_index (suc (suc (suc (suc i)))) = unused

-- `status as usize`
abbrev pub index : SectorStoreStatus → ℕ
index unused = 0
index empty = 1
index using = 2
index full = 3

abbrev pub eq : SectorStoreStatus → SectorStoreStatus → Bool
eq a b = index a == index b
