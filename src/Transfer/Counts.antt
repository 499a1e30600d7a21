-- ===== src/Transfer/Counts.antt =====
-- The counts of a plan, when every statement succeeds.
use tinytop.Prelude.{ℕ, ◌≡◌, refl, Bool, true, false, Option, none, some, [], ok, arith}
use tinytop.Prelude.Int.{ℤ, ltb_ℤ, saturating_sub}
use tinytop.Retention.Defs.{to_ladder_config}
use tinytop.Settings.Dashboard.{DashboardSettings}
use tinytop.Tiers.Defs.{Tier, l2, l3, l4}
use tinytop.Store.Exec.{World}
use tinytop.Store.Rows.{Db}
use tinytop.Store.Tables.{count_where, ends_by, table}
use tinytop.Transfer.Defs.{WouldDelete}
use tinytop.Transfer.Plan.{would_delete, count_if_kept, finite}

unfoldable pub there_count : Bool → ℕ → ℕ
there_count true n = n
there_count false n = 0

pub ok_inj : {A : Type 0} {a b : A} → ok a ≡ ok b → a ≡ b
ok_inj h = cc

module _ {F : Type 0} where
  -- no statement fails
  abbrev pub calm : Db F → World (Db F)
  calm db = record { db = db; faults = [] }

  unfoldable pub kept_count : Tier → ℤ → Option ℤ → Db F → ℕ
  kept_count tier now none db = 0
  kept_count tier now (some keep) db =
      count_where (ends_by tier (saturating_sub now keep)) (table tier db)

  count_if_kept-l3 :
      (now : ℤ) (o : Option ℤ) (db : Db F)
      → count_if_kept l3 now o (calm db) ≡ (ok (kept_count l3 now o db), calm db)
  unfolding count_if_kept kept_count
  count_if_kept-l3 now none db = refl
  count_if_kept-l3 now (some keep) db = refl

  count_if_kept-l4 :
      (now : ℤ) (o : Option ℤ) (db : Db F)
      → count_if_kept l4 now o (calm db) ≡ (ok (kept_count l4 now o db), calm db)
  unfolding count_if_kept kept_count
  count_if_kept-l4 now none db = refl
  count_if_kept-l4 now (some keep) db = refl

  -- the counts, when every statement succeeds
  unfoldable pub counts_of : DashboardSettings → ℤ → Db F → WouldDelete
  counts_of s now db =
      let config = to_ladder_config s.retention_ladder s.poll_interval_ms in
      let young = saturating_sub now config.l1_keep_ms in
      record {
        l1_rows = count_where (λ r. ltb_ℤ r.captured_at_ms young) db.metric_samples;
        l2_buckets = count_where (ends_by l2 (saturating_sub now config.l2_keep_ms)) (table l2 db);
        l3_buckets = kept_count l3 now config.l3 db;
        l4_buckets = kept_count l4 now (finite config.l4) db;
        process_fast_rows =
            count_where
              (λ r. ltb_ℤ r.captured_at_ms (saturating_sub now config.process_fast_keep_ms))
              db.process_samples_fast;
        gpu_sample_rows =
            there_count db.optional_tables.gpu_samples
              (count_where (λ t. ltb_ℤ t young) db.gpu_samples);
        sensor_sample_rows =
            there_count db.optional_tables.sensor_samples
              (count_where (λ t. ltb_ℤ t young) db.sensor_samples);
      }

  pub would_delete-counts :
      (s : DashboardSettings) (now : ℤ) (db : Db F)
      → would_delete s now (calm db) ≡ (ok (counts_of s now db), calm db)
  unfolding would_delete counts_of there_count
  would_delete-counts s now db =
      let config = to_ladder_config s.retention_ladder s.poll_interval_ms in
      ground (arith, count_if_kept-l3 now config.l3 db, count_if_kept-l4 now (finite config.l4) db)
