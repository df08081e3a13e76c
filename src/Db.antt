-- ===== src/Db.antt =====
-- db.rs: the geometry checks, and the default key-value pairs.
pub mod Geometry
pub mod Tests
use flash_db_rust.Base.{
  ℕ, ◌-◌, ◌/◌, ◌%◌, List, ◌||◌, not, bit_and, ltb, ◌==◌, if◌then◌else◌, Result, ok, err,
  init_failed,
}

unfoldable pub validate_geometry : ℕ → ℕ → Result (Unit {0})
validate_geometry sec_size max_size =
    if sec_size == 0 || max_size == 0
    then err init_failed
    else if not (bit_and sec_size (sec_size - 1) == 0)
    then err init_failed
    else if not (max_size % sec_size == 0)
    then err init_failed
    else if ltb (max_size / sec_size) 2
    then err init_failed
    else ok tt

pub record DefaultKv : Type 0 where
  pub key : List ℕ
  pub value : List ℕ
