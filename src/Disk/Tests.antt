-- ===== src/Disk/Tests.antt =====
-- A check that finds too little space, one whose last statement fails, and a choice of a mount.
use tinytop.Prelude.{
  ◌≡◌, refl, ◌≤◌, ℕ, true, false, some, List, [], ◌∷◌, ok, err, sqlx, Bool, Listed, length,
}
use tinytop.Prelude.Int.{ℤ, pos}
use tinytop.Prelude.Text.{Text, text_eq}
use tinytop.Retention.Defs.{default_ladder}
use tinytop.Store.Exec.{World}
use tinytop.Store.Rows.{Db, empty_db}
use tinytop.Disk.Defs.{
  DiskCheckReport, breached, apply_disk_measurement, apply_body, apply_in_transaction, starts_with,
  free_bytes_from_mounts, longest, clamp_bytes,
}
use tinytop.Disk.Markers.{
  IsMarked, IsReported, apply_disk_measurement-ok, apply_disk_measurement-IsMarked,
}
use tinytop.Disk.Mounts.{free_bytes_from_mounts-IsLongest}

abbrev fresh : List Bool → World (Db ℕ)
fresh faults = record { db = empty_db; faults = faults }

abbrev size : Db ℕ → ℤ
size db = pos 4_096

abbrev low_report : DiskCheckReport
low_report = record {
  path = [];
  free_bytes = pos 1_000;
  min_free_bytes = pos 5_368_709_120;
  database_bytes = pos 4_096;
  pressure = true;
  transition = breached;
}

low_run :
    (apply_disk_measurement size [] (some 1_000) default_ladder (pos 60) (fresh [])).0
    ≡ ok low_report
unfolding apply_disk_measurement apply_in_transaction apply_body clamp_bytes
low_run = refl

apply_disk_measurement-ok_example :
    IsReported default_ladder 1_000
      (pos 60)
      empty_db
      (apply_disk_measurement size [] (some 1_000) default_ladder (pos 60) (fresh [])).1.db
      low_report
apply_disk_measurement-ok_example =
    apply_disk_measurement-ok size [] default_ladder (pos 60) 1_000 (fresh []) low_report low_run

-- the write of the marker fails
abbrev faulty : List Bool
faulty = false ∷ false ∷ false ∷ false ∷ false ∷ true ∷ []

failed_run :
    (apply_disk_measurement size [] (some 1_000) default_ladder (pos 60) (fresh faulty)).0
    ≡ err sqlx
unfolding apply_disk_measurement apply_in_transaction apply_body clamp_bytes
failed_run = refl

apply_disk_measurement-IsMarked_example :
    IsMarked (apply_disk_measurement size [] (some 1_000) default_ladder (pos 60) (fresh [])).1.db
apply_disk_measurement-IsMarked_example =
    apply_disk_measurement-IsMarked size [] default_ladder (pos 60) (some 1_000) (fresh []) refl

-- the root, and a mount below it
abbrev mounts : List (List Text × ℕ)
mounts = ([], 100) ∷ ((104 ∷ []) ∷ [], 200) ∷ []

abbrev database : List Text
database = (104 ∷ []) ∷ (100 ∷ []) ∷ []

chosen : free_bytes_from_mounts database mounts ≡ some 200
unfolding free_bytes_from_mounts longest starts_with text_eq
chosen = refl

free_bytes_from_mounts-IsLongest_example :
    (mount : List Text) × Listed (mount, 200) mounts
    × (starts_with database mount ≡ true)
    × ((other : List Text) (space : ℕ)
        → Listed (other, space) mounts
        → starts_with database other ≡ true
        → length other ≤ length mount)
free_bytes_from_mounts-IsLongest_example =
    free_bytes_from_mounts-IsLongest database mounts 200 chosen

root_contains : starts_with database [] ≡ true
unfolding starts_with
root_contains = refl
