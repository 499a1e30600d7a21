-- ===== src/Transfer/Deletes.antt =====
-- What the counts of a plan are of: the rows that the steps of a tick delete.
use tinytop.Prelude.{
  ℕ, zero, suc, ◌+◌, ◌≤◌, ◌≡◌, refl, Bool, true, false, Option, none, some, List, [], ◌∷◌, length,
  ok, arith, sym, ap, ◌∙◌, ltb, min, Bool-cases, Result-cases, inl, inr, if◌then◌else◌,
}
use mathlib.Core.Path.{subst}
use tinytop.Prelude.Int.{ℤ, pos, ltb_ℤ, min_ℤ, saturating_sub}
use tinytop.Retention.Defs.{to_ladder_config, LadderConfig, ArchiveSettings}
use tinytop.Settings.Dashboard.{DashboardSettings}
use tinytop.Tiers.Defs.{Tier, l2, l3, l4, TierBucket}
use tinytop.Store.Exec.{World, Exec, pure}
use tinytop.Store.Rows.{Db}
use tinytop.Store.Tables.{
  count_where, delete_where, ends_by, table, prune_raw_history, prune_rollups, prune_gpu_history,
  prune_sensor_history,
}
use tinytop.Store.Detail.{
  prune_fast_loop, prune_fast_batch, prune_process_fast_history, process_fast_prune_batch, add_u64,
}
use tinytop.Store.Detail.Laws.{old, prune_process_fast_history-ok}
use tinytop.Maintenance.Defs.{Progress, MaintenanceReport, attempt}
use tinytop.Maintenance.Prune.{
  ArchiveMove, prune_l1, prune_gpu, prune_sensors, prune_fast, prune_l2, prune_l3_if, prune_l3,
  expire_l4, l2_cutoff, l3_cutoff,
}
use tinytop.Transfer.Defs.{WouldDelete}
use tinytop.Transfer.Plan.{would_delete, finite}
use tinytop.Transfer.Counts.{there_count, kept_count, calm, ok_inj, counts_of, would_delete-counts}

-- `n` rows go
abbrev pub Takes : {A : Type 0} → ℕ → List A → List A → Type 0
Takes n before after = length before ≡ n + length after

abbrev pub TakesUpTo : {A : Type 0} → ℕ → List A → List A → Type 0
TakesUpTo n before after = length before ≤ n + length after

length-delete_where :
    {A : Type 0} (q : A → Bool) (rows : List A)
    → Takes (count_where q rows) rows (delete_where q rows)
unfolding count_where delete_where
length-delete_where q [] = refl
length-delete_where q (r ∷ rows) = ground (arith, length-delete_where q rows)

-- a narrower condition deletes fewer rows
length-delete_where_le :
    {A : Type 0} (q q' : A → Bool)
    → ((r : A) → q' r ≡ true → q r ≡ true)
    → (rows : List A) → TakesUpTo (count_where q rows) rows (delete_where q' rows)
unfolding count_where delete_where
length-delete_where_le q q' narrow [] = omega arith
length-delete_where_le q q' narrow (r ∷ rows) =
    ground (arith, narrow r, length-delete_where_le q q' narrow rows)

-- the count of a table is of what a prune takes from it, and zero where the table is not there
abbrev pub IfThere : Bool → ℕ → List ℤ → List ℤ → Type 0
IfThere true n before after = Takes n before after
IfThere false n before after = n ≡ 0

if_there :
    (there : Bool) (q : ℤ → Bool) (rows : List ℤ)
    → IfThere there (there_count there (count_where q rows)) rows (delete_where q rows)
unfolding there_count
if_there true q rows = length-delete_where q rows
if_there false q rows = refl

module _ {F : Type 0} where
  either_ok :
      (b : Bool) (m m' : Exec (Db F) ℕ) (w : World (Db F))
      → (n : ℕ) × ((m w).0 ≡ ok n)
      → (n : ℕ) × ((m' w).0 ≡ ok n)
      → (n : ℕ) × (((if b then m else m') w).0 ≡ ok n)
  either_ok true m m' w h h' = h
  either_ok false m m' w h h' = h'

  -- the loop over the fast rows does not fail
  prune_fast_loop-calm :
      (fuel : ℕ) (cutoff : ℤ) (total : ℕ) (db : Db F)
      → (n : ℕ) × ((prune_fast_loop fuel cutoff total (calm db)).0 ≡ ok n)
  unfolding prune_fast_loop prune_fast_batch
  prune_fast_loop-calm zero cutoff total db = (total, refl)
  prune_fast_loop-calm (suc fuel) cutoff total db =
      let n = min process_fast_prune_batch (count_where (old cutoff) db.process_samples_fast) in
      let after = (prune_fast_batch cutoff (calm db)).1.db in
      either_ok (ltb n process_fast_prune_batch) (pure (add_u64 total n))
        (prune_fast_loop fuel cutoff (add_u64 total n)) (calm after) (add_u64 total n, refl)
        (prune_fast_loop-calm fuel cutoff (add_u64 total n) after)

  prune_process_fast_history-calm :
      (cutoff : ℤ) (db : Db F) → (n : ℕ) × ((prune_process_fast_history cutoff (calm db)).0 ≡ ok n)
  unfolding prune_process_fast_history
  prune_process_fast_history-calm cutoff db =
      prune_fast_loop-calm (suc (length db.process_samples_fast)) cutoff 0 db

  attempt-db :
      {A : Type 0} (m : Exec (Db F) A) (note : A → MaintenanceReport → MaintenanceReport)
      (p : Progress) (w : World (Db F))
      → (attempt m note p w).1.db ≡ (m w).1.db
  unfolding attempt
  attempt-db m note p w = elim (Result-cases (m w).0) [
    | inl (a, e) ↦ rw (attempt, e) refl
    | inr (x, e) ↦ rw (attempt, e) refl
  ]

  prune_fast-process_samples_fast :
      (config : LadderConfig) (now : ℤ) (p : Progress) (db : Db F)
      → (prune_fast config now p (calm db)).1.db.process_samples_fast
        ≡ delete_where
            (old (saturating_sub now config.process_fast_keep_ms))
            db.process_samples_fast
  unfolding prune_fast
  prune_fast-process_samples_fast config now p db =
      let cutoff = saturating_sub now config.process_fast_keep_ms in
      let (n, e) = prune_process_fast_history-calm cutoff db in
      ap (λ x. x.process_samples_fast)
        (attempt-db (prune_process_fast_history cutoff)
          (λ count r. record r { process_fast_rows = count }) p (calm db))
      ∙ prune_process_fast_history-ok cutoff n (calm db) e

  -- a plan's count of a tier with an age is of what its prune at that age deletes
  abbrev pub AtAge : Tier → Option ℤ → ℤ → ℕ → Db F → Type 0
  AtAge tier none now n db = n ≡ 0
  AtAge tier (some keep) now n db =
      Takes n (table tier db)
        (table tier (prune_rollups tier (saturating_sub now keep) (calm db)).1.db)

  -- what the counts of a plan are of: the steps of a tick at `now`, with the watermarks `v3` and `v4`,
  -- and the prunes at the ages themselves
  pub record IsPruned (config : LadderConfig) (archive : ArchiveSettings) (move : ArchiveMove F)
      (now : ℤ) (p : Progress) (v3 v4 : Option ℤ) (db : Db F) (counts : WouldDelete) : Type 0 where
    pub takes_l1 :
        Takes counts.l1_rows db.metric_samples (prune_l1 config now p (calm db)).1.db.metric_samples
    pub l2_at_age : AtAge l2 (some config.l2_keep_ms) now counts.l2_buckets db
    pub takes_l2 :
        TakesUpTo counts.l2_buckets db.metric_rollups_1m
          (prune_l2 config now v3 v4 p (calm db)).1.db.metric_rollups_1m
    pub l3_at_age : AtAge l3 config.l3 now counts.l3_buckets db
    pub takes_l3 :
        TakesUpTo counts.l3_buckets db.metric_rollups_5m
          (prune_l3 config now v4 p (calm db)).1.db.metric_rollups_5m
    pub takes_l4 :
        Takes counts.l4_buckets db.metric_rollups_1h
          (expire_l4 move config
            (record archive { queryable = false })
            now
            p
            (calm db)).1.db.metric_rollups_1h
    pub takes_fast :
        Takes counts.process_fast_rows db.process_samples_fast
          (prune_fast config now p (calm db)).1.db.process_samples_fast
    pub takes_gpu :
        IfThere db.optional_tables.gpu_samples counts.gpu_sample_rows db.gpu_samples
          (prune_gpu config now p (calm db)).1.db.gpu_samples
    pub takes_sensors :
        IfThere db.optional_tables.sensor_samples counts.sensor_sample_rows db.sensor_samples
          (prune_sensors config now p (calm db)).1.db.sensor_samples

  ends_by-min :
      (tier : Tier) (a b : ℤ) (r : TierBucket F)
      → ends_by tier (min_ℤ a b) r ≡ true
      → ends_by tier a r ≡ true
  unfolding ends_by min_ℤ
  ends_by-min tier a b r h = ground arith

  kept_count-AtAge :
      (o : Option ℤ) (now : ℤ) (db : Db F) → AtAge l3 o now (kept_count l3 now o db) db
  unfolding kept_count prune_rollups table
  kept_count-AtAge none now db = refl
  kept_count-AtAge (some keep) now db =
      length-delete_where (ends_by l3 (saturating_sub now keep)) db.metric_rollups_5m

  prune_l3_if-TakesUpTo :
      (config : LadderConfig) (now : ℤ) (v4 o : Option ℤ) (p : Progress) (db : Db F)
      → TakesUpTo
          (kept_count l3 now o db)
          db.metric_rollups_5m
          (prune_l3_if config now v4 o p (calm db)).1.db.metric_rollups_5m
  unfolding kept_count prune_l3_if attempt prune_rollups l3_cutoff table
  prune_l3_if-TakesUpTo config now v4 none p db = omega arith
  prune_l3_if-TakesUpTo config now v4 (some keep) p db =
      length-delete_where_le (ends_by l3 (saturating_sub now keep))
        (ends_by l3 (l3_cutoff config now keep v4)) (ends_by-min l3 (saturating_sub now keep) _)
        db.metric_rollups_5m

  expire_l4-Takes :
      (o : Option ℤ) (config : LadderConfig) (archive : ArchiveSettings) (move : ArchiveMove F)
      (now : ℤ) (p : Progress) (db : Db F)
      → config.l4 ≡ o
      → Takes
          (kept_count l4 now (finite o) db)
          db.metric_rollups_1h
          (expire_l4 move config
            (record archive { queryable = false })
            now
            p
            (calm db)).1.db.metric_rollups_1h
  unfolding kept_count finite expire_l4 attempt prune_rollups table
  expire_l4-Takes none config archive move now p db e = rw e (omega arith)
  expire_l4-Takes (some keep) config archive move now p db e =
      elim (Bool-cases (ltb_ℤ (pos 0) keep)) [
        | inl h ↦
            rw (e, h)
              (length-delete_where (ends_by l4 (saturating_sub now keep)) db.metric_rollups_1h)
        | inr h ↦ rw (e, h) (omega arith)
      ]

  -- When no statement fails, the counts of a plan are of exactly what the steps of a tick with the
  -- candidate's settings delete of the samples, the fast process rows and, where the expiry does not
  -- archive, the hours, whether L4 is off, for ever or for a time; and of the GPU and the sensor samples
  -- where the database has their tables, else zero. Of the buckets of L2 and L3 they are of exactly
  -- what the prunes at the tiers' ages delete, with zero for an L3 that is off, and of no fewer than the
  -- tick deletes, whatever the watermarks of the tiers above.
  pub would_delete-prunes :
      (s : DashboardSettings) (move : ArchiveMove F) (now : ℤ) (p : Progress) (v3 v4 : Option ℤ)
      (db : Db F) (counts : WouldDelete)
      → (would_delete s now (calm db)).0 ≡ ok counts
      → IsPruned
          (to_ladder_config s.retention_ladder s.poll_interval_ms)
          s.retention_ladder.archive
          move
          now
          p
          v3
          v4
          db
          counts
  unfolding counts_of prune_l1 prune_l2 prune_l3 prune_gpu prune_sensors attempt prune_raw_history
      prune_rollups prune_gpu_history prune_sensor_history l2_cutoff table
  would_delete-prunes s move now p v3 v4 db counts h =
      let config = to_ladder_config s.retention_ladder s.poll_interval_ms in
      let young = saturating_sub now config.l1_keep_ms in
      let minutes = saturating_sub now config.l2_keep_ms in
      subst (IsPruned config s.retention_ladder.archive move now p v3 v4 db)
        (ok_inj (sym (ap (λ r. r.0) (would_delete-counts s now db)) ∙ h))
        record {
          takes_l1 = length-delete_where (λ r. ltb_ℤ r.captured_at_ms young) db.metric_samples;
          l2_at_age = length-delete_where (ends_by l2 minutes) db.metric_rollups_1m;
          takes_l2 =
              length-delete_where_le (ends_by l2 minutes) (ends_by l2 (l2_cutoff config now v3 v4))
                (ends_by-min l2 minutes _) db.metric_rollups_1m;
          l3_at_age = kept_count-AtAge config.l3 now db;
          takes_l3 = prune_l3_if-TakesUpTo config now v4 config.l3 p db;
          takes_l4 = expire_l4-Takes config.l4 config s.retention_ladder.archive move now p db refl;
          takes_fast = rw (prune_fast-process_samples_fast config now p db) (
              length-delete_where (old (saturating_sub now config.process_fast_keep_ms))
                db.process_samples_fast);
          takes_gpu = if_there db.optional_tables.gpu_samples (λ t. ltb_ℤ t young) db.gpu_samples;
          takes_sensors =
              if_there db.optional_tables.sensor_samples (λ t. ltb_ℤ t young) db.sensor_samples;
        }
