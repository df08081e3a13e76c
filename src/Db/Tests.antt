-- ===== src/Db/Tests.antt =====
-- Geometries that db.rs accepts and refuses.
use flash_db_rust.Base.{ℕ, ◌*◌, ◌^◌, ◌≤◌, ◌≡◌, ◌↔◌, refl, ok, err, init_failed}
use flash_db_rust.Db.{validate_geometry}
use flash_db_rust.Db.Geometry.{validate_geometry-ok_iff}

odd_sector : validate_geometry 1000 4000 ≡ err init_failed
unfolding validate_geometry
odd_sector = refl

-- A sector smaller than its header passes the checks.
tiny_sector : validate_geometry 8 16 ≡ ok tt
unfolding validate_geometry
tiny_sector = refl

validate_geometry-ok_iff_example :
    (validate_geometry 4096 16384 ≡ ok tt)
    ↔ ((k : ℕ) × (n : ℕ) × (4096 ≡ 2 ^ k) × (16384 ≡ n * 4096) × (2 ≤ n))
validate_geometry-ok_iff_example = validate_geometry-ok_iff 4096 16384
