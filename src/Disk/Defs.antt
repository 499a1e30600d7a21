-- ===== src/Disk/Defs.antt =====
-- The definitions of disk.rs. The measurement is an argument, as in the source; SQLite's size of the
-- database is a parameter. A path is the list of its components.
use tinytop.Prelude.{
  ℕ, ◌+◌, ◌-◌, ◌/◌, ◌^◌, min, Bool, true, false, ◌&&◌, leb, Option, none, some, List, [], ◌∷◌,
  length, keep_if, if◌then◌else◌, unwrap_or, disk_check,
}
use tinytop.Prelude.Int.{ℤ, pos, ltb_ℤ, i64_top}
use tinytop.Prelude.Text.{Text, text_eq}
use tinytop.Retention.Defs.{DiskPressureState, no_pressure, RetentionLadder}
use tinytop.Store.Exec.{Exec, pure, raise, query, update, transaction, ◌>>=◌, ◌>>◌}
use tinytop.Store.Rows.{Db, disk_pressure_marker, disk_recovered_marker}

pub data DiskTransition : Type 0 where
  unchanged breached recovered : DiskTransition

pub record DiskCheckReport : Type 0 where
  pub path : List Text
  pub free_bytes : ℤ
  pub min_free_bytes : ℤ
  pub database_bytes : ℤ
  pub pressure : Bool
  pub transition : DiskTransition

unfoldable pub transition_of : Bool → Bool → DiskTransition
transition_of false true = breached
transition_of true false = recovered
transition_of false false = unchanged
transition_of true true = unchanged

-- `since_ms` of the new state
unfoldable pub since : Bool → DiskPressureState → ℤ → Option ℤ
since pressure previous now_ms =
    if pressure then (if previous.active then previous.since_ms else some now_ms) else none

-- `bytes.min(i64::MAX as u64) as i64`
unfoldable pub clamp_bytes : ℕ → ℤ
clamp_bytes bytes = pos (min bytes i64_top)

module _ {F : Type 0} where
  -- the marker of a transition; the newest marker is first
  unfoldable pub record_transition : DiskTransition → ℤ → Exec (Db F) (Unit {0})
  record_transition unchanged now_ms = pure tt
  record_transition breached now_ms =
      update (λ db. record db { app_events = disk_pressure_marker now_ms ∷ db.app_events })
  record_transition recovered now_ms =
      update (λ db. record db { app_events = disk_recovered_marker now_ms ∷ db.app_events })

  -- what `apply_disk_measurement` does in its transaction
  unfoldable pub apply_body : ℤ → ℤ → ℤ → Exec (Db F) DiskTransition
  unfolding transition_of since record_transition
  apply_body free_bytes min_free_bytes now_ms = do
    let pressure = ltb_ℤ free_bytes min_free_bytes
    stored ← query (λ db. db.disk_pressure)
    let previous = unwrap_or no_pressure stored
    let transition = transition_of previous.active pressure
    update (λ db. record db {
      disk_pressure = some record {
        active = pressure;
        since_ms = since pressure previous now_ms;
        free_bytes = free_bytes;
        min_free_bytes = min_free_bytes;
      };
    })
    update (λ db. record db { last_disk_check_ms = some now_ms })
    record_transition transition now_ms
    pure transition

  -- the part of `apply_disk_measurement` after the size of the database is read
  unfoldable pub apply_in_transaction : List Text → ℤ → ℤ → ℤ → ℤ → Exec (Db F) DiskCheckReport
  unfolding apply_body
  apply_in_transaction path free_bytes min_free_bytes now_ms size = do
    transition ← transaction (apply_body free_bytes min_free_bytes now_ms)
    pure record {
      path = path;
      free_bytes = free_bytes;
      min_free_bytes = min_free_bytes;
      database_bytes = size;
      pressure = ltb_ℤ free_bytes min_free_bytes;
      transition = transition;
    }

  -- `none` is a measurement that failed
  unfoldable pub apply_disk_measurement :
      (Db F → ℤ) → List Text → Option ℕ → RetentionLadder → ℤ → Exec (Db F) DiskCheckReport
  unfolding apply_in_transaction clamp_bytes
  apply_disk_measurement database_bytes path none ladder now_ms = raise disk_check
  apply_disk_measurement database_bytes path (some bytes) ladder now_ms = do
    size ← query database_bytes
    apply_in_transaction path (clamp_bytes bytes) ladder.disk_check.min_free_bytes now_ms size

-- `path.starts_with(mount_point)`
unfoldable pub starts_with : List Text → List Text → Bool
starts_with path [] = true
starts_with [] (m ∷ ms) = false
starts_with (p ∷ ps) (m ∷ ms) = text_eq p m && starts_with ps ms

-- `max_by_key` on the number of components: the last of several maxima
unfoldable pub longest : List (List Text × ℕ) → Option (List Text × ℕ)
longest [] = none
longest ((mount, space) ∷ rest) = elim (longest rest) [
  | none ↦ some (mount, space)
  | some other ↦ if leb (length mount) (length other.0) then some other else some (mount, space)
]

unfoldable pub free_bytes_from_mounts : List Text → List (List Text × ℕ) → Option ℕ
unfolding longest
free_bytes_from_mounts path mounts = elim (longest (keep_if (λ m. starts_with path m.0) mounts)) [
  | none ↦ none
  | some m ↦ some m.1
]

-- `u64::MAX`
abbrev pub u64_top : ℕ
u64_top = 2 ^ 64 - 1

unfoldable pub required_pre_image_bytes : ℕ → ℕ
required_pre_image_bytes database_bytes = min (database_bytes + database_bytes / 5) u64_top

unfoldable pub has_pre_image_headroom : ℕ → ℕ → Bool
unfolding required_pre_image_bytes
has_pre_image_headroom database_bytes free_bytes =
    leb (required_pre_image_bytes database_bytes) free_bytes
