-- ===== src/Maintenance/Frames.antt =====
-- The steps of a tick that leave the tables of the tiers above L1, the archive and the watermarks
-- alone; expiring L4 leaves the L2 and L3 tables and the watermarks.
use tinytop.Prelude.{
  ◌≡◌, ◌∙◌, refl, Bool, true, false, inl, inr, Option, List, if◌then◌else◌, Result-cases, arith,
}
use tinytop.Prelude.Int.{ℤ}
use tinytop.Retention.Defs.{LadderConfig}
use tinytop.Tiers.Defs.{TierBucket}
use tinytop.Store.Exec.{World, Exec, transaction, ◌>>=◌}
use tinytop.Store.Rows.{Db}
use tinytop.Store.Tables.{prune_raw_history, prune_gpu_history, prune_sensor_history}
use tinytop.Maintenance.Defs.{
  MaintenanceReport, Progress, Step, attempt, take_pending, persist_l3, persist_l4,
}
use tinytop.Maintenance.Prune.{prune_l1, prune_gpu, prune_sensors}
use tinytop.Maintenance.Keeps.{transaction-Keeps}

-- the tables that a prune of L2 or L3 depends on
pub record LowerTables (F : Type 0) : Type 0 where
  pub l2_rows : List (TierBucket F)
  pub l3_rows : List (TierBucket F)
  pub l3_watermark : Option ℤ
  pub l4_watermark : Option ℤ

pub record Tables (F : Type 0) : Type 0 where
  pub lower : LowerTables F
  pub l4_rows : List (TierBucket F)
  pub archived_rows : List (TierBucket F)

-- the report after a batch of orphans
module _ {F : Type 0} where
  abbrev pub lower_tables : Db F → LowerTables F
  lower_tables db = record {
    l2_rows = db.metric_rollups_1m;
    l3_rows = db.metric_rollups_5m;
    l3_watermark = db.l3_folded_until_ms;
    l4_watermark = db.l4_folded_until_ms;
  }

  abbrev pub tables : Db F → Tables F
  tables db = record {
    lower = lower_tables db;
    l4_rows = db.metric_rollups_1h;
    archived_rows = db.archive_file.rows;
  }

  abbrev pub LeavesLower : {A : Type 0} → Exec (Db F) A → Type 0
  LeavesLower m = (w : World (Db F)) → lower_tables (m w).1.db ≡ lower_tables w.db

  abbrev pub StepLeavesLower : Step F → Type 0
  StepLeavesLower s =
      (p : Progress) (w : World (Db F)) → lower_tables (s p w).1.db ≡ lower_tables w.db

  -- an action that leaves the tables
  abbrev pub Leaves : {A : Type 0} → Exec (Db F) A → Type 0
  Leaves m = (w : World (Db F)) → tables (m w).1.db ≡ tables w.db

  abbrev pub StepLeaves : Step F → Type 0
  StepLeaves s = (p : Progress) (w : World (Db F)) → tables (s p w).1.db ≡ tables w.db

  pub attempt-Leaves :
      {A : Type 0} (m : Exec (Db F) A) (note : A → MaintenanceReport → MaintenanceReport)
      → Leaves m
      → StepLeaves (attempt m note)
  unfolding attempt
  attempt-Leaves m note k p w = elim (Result-cases (m w).0) [
    | inl (a, e) ↦ ground (arith, k w)
    | inr (x, e) ↦ ground (arith, k w)
  ]

  pub take_pending-Leaves : StepLeaves take_pending
  unfolding take_pending attempt
  take_pending-Leaves p w = ground arith

  pub persist_l3-Leaves : (b : Bool) → StepLeaves (persist_l3 b)
  unfolding persist_l3 attempt
  persist_l3-Leaves b p w = ground arith

  pub persist_l4-Leaves : (b : Bool) → StepLeaves (persist_l4 b)
  unfolding persist_l4 attempt
  persist_l4-Leaves b p w = ground arith

  module _ (config : LadderConfig) (now : ℤ) where
    pub prune_l1-Leaves : StepLeaves (prune_l1 config now)
    unfolding prune_l1 attempt prune_raw_history
    prune_l1-Leaves p w = ground arith

    pub prune_gpu-Leaves : StepLeaves (prune_gpu config now)
    unfolding prune_gpu attempt prune_gpu_history
    prune_gpu-Leaves p w = ground arith

    pub prune_sensors-Leaves : StepLeaves (prune_sensors config now)
    unfolding prune_sensors attempt prune_sensor_history
    prune_sensors-Leaves p w = ground arith

  pub bind-Leaves :
      {A B : Type 0} (m : Exec (Db F) A) (f : A → Exec (Db F) B)
      → Leaves m
      → ((a : A) → Leaves (f a))
      → Leaves (m >>= f)
  bind-Leaves m f km kf w = elim (Result-cases (m w).0) [
    | inl (a, e) ↦ ground (arith, km w, kf a (m w).1)
    | inr (x, e) ↦ ground (arith, km w)
  ]

  pub transaction-Leaves : {A : Type 0} (m : Exec (Db F) A) → Leaves m → Leaves (transaction m)
  transaction-Leaves m k w =
      transaction-Keeps (λ db. tables db ≡ tables w.db) m (λ v h. k v ∙ h) w refl

  pub if-Leaves :
      {A : Type 0} (b : Bool) (m k : Exec (Db F) A)
      → Leaves m
      → Leaves k
      → Leaves (if b then m else k)
  if-Leaves true m k hm hk = hm
  if-Leaves false m k hm hk = hk
