-- ===== src/Def/DirtyStatus.antt =====
-- def.rs: `SectorDirtyStatus`
use flash_db_rust.Base.{ℕ, zero, suc, Bool, ◌==◌}

-- `clean` and `dirty` are the source's `False` and `True`.
pub data SectorDirtyStatus : Type 0 where
  unused clean dirty gc : SectorDirtyStatus

abbrev pub from_index : ℕ → SectorDirtyStatus
from_index zero = unused
from_index (suc zero) = clean
from_index (suc (suc zero)) = dirty
from_index (suc (suc (suc zero))) = gc
from_index (suc (suc (suc (suc i)))) = unused

-- `status as usize`
abbrev pub index : SectorDirtyStatus → ℕ
index unused = 0
index clean = 1
index dirty = 2
index gc = 3

abbrev pub eq : SectorDirtyStatus → SectorDirtyStatus → Bool
eq a b = index a == index b
