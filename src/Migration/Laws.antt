-- ===== src/Migration/Laws.antt =====
-- What the body of the transaction of the migration to v6 leaves.
use tinytop.Prelude.{
  ℕ, ◌≡◌, ◌∙◌, refl, sym, ap, Bool, Option, none, some, List, [], ◌∷◌, ◌++◌, All, map, length,
  ProcessTables, fast_table, minute_table, migration, unexpected_version,
}
use mathlib.Core.Path.{subst}
use tinytop.Prelude.Int.{ℤ, pos, eqb_ℤ, eqb_ℤ_iff}
use tinytop.Store.Triple.{Triple, pure-Triple, raise-Triple, if-Triple, given-Triple, bind-Triple}
use tinytop.Migration.Schema.{
  TableRows, Statement, updates, adds_marker, rows_of, with_triggers, ProcessSample, SchemaDb,
  from_v5, SchemaMarker, table_of, change_table, v5_columns, v6_columns, add_marker, set_version,
}
use tinytop.Migration.Defs.{
  count_unverified, count_rows, set_cpu_rank, add_column, add_swap_bytes, add_cpu_rank,
  add_memory_rank, backfill, migrate_from_v5, SchemaV6Counts,
  migrate_v5_to_v6_holding_the_write_lock,
}
use tinytop.Migration.Steps.{
  At, Any, query-Triple, update-Triple, then-Triple, migrated_db, with_columns, Verified,
  migrate_table-Triple,
}
use tinytop.Migration.Checks.{
  Small, IsRanked, check_columns-Triple, refuse-Triple, count_unverified-IsRanked,
}

-- what a row becomes: without the new columns, and then with its rank by CPU
abbrev pub cleared_row : ProcessSample → ProcessSample
cleared_row r = record r { swap_bytes = none; cpu_rank = none; memory_rank = none }

abbrev pub ranked_row : ProcessSample → ProcessSample
ranked_row r = record r { swap_bytes = none; cpu_rank = some r.rank; memory_rank = none }

-- the rows after the update of the fast table, of the minute table, and after the marker, with what the
-- triggers do at each
abbrev pub after_fast : SchemaDb → TableRows
after_fast d =
    let r = rows_of d in
    d.triggers (updates fast_table) (record r { fast_rows = map cleared_row r.fast_rows })
      (record r { fast_rows = map ranked_row r.fast_rows })

abbrev pub after_minute : SchemaDb → TableRows
after_minute d =
    let r = after_fast d in
    d.triggers (updates minute_table) (record r { minute_rows = map cleared_row r.minute_rows })
      (record r { minute_rows = map ranked_row r.minute_rows })

abbrev pub after_marker : ℤ → SchemaDb → TableRows
after_marker now_ms d =
    let r = after_minute d in
    d.triggers adds_marker r (record r {
      events =
          r.events ++ from_v5 now_ms (length (after_fast d).fast_rows) (length r.minute_rows) ∷ [];
    })

-- as many rows as before, each with its rank
abbrev pub IsVerified : List ProcessSample → List ProcessSample → Type 0
IsVerified before after = (length after ≡ length before) × All IsRanked after

pub record Migrated (now_ms : ℤ) (before after : SchemaDb) : Type 0 where
  pub was_v5 : before.user_version ≡ pos 5
  pub is_v6 : after.user_version ≡ pos 6
  pub had_columns : (t : ProcessTables) → (table_of t before).columns ≡ v5_columns t
  pub has_columns : (t : ProcessTables) → (table_of t after).columns ≡ v5_columns t ++ v6_columns
  pub small : (t : ProcessTables) → Small (table_of t before).rows
  pub fast_verified : IsVerified before.process_samples_fast.rows (after_fast before).fast_rows
  pub minute_verified : IsVerified (after_fast before).minute_rows (after_minute before).minute_rows
  pub left : rows_of after ≡ after_marker now_ms before

for_both : (P : ProcessTables → Type 0) → P fast_table → P minute_table → (t : ProcessTables) → P t
for_both P f m fast_table = f
for_both P f m minute_table = m

abbrev done : ℤ → ℕ → ℕ → SchemaDb → SchemaDb
done now n m d =
    set_version (pos 6)
      (add_marker (from_v5 now n m) (migrated_db minute_table (migrated_db fast_table d)))

cleared_rows :
    (rows : List ProcessSample)
    → map
        (λ (r : ProcessSample). record r { memory_rank = none })
        (map
          (λ (r : ProcessSample). record r { cpu_rank = none })
          (map (λ (r : ProcessSample). record r { swap_bytes = none }) rows))
      ≡ map cleared_row rows
cleared_rows [] = refl
cleared_rows (r ∷ rows) = ap (λ rs. cleared_row r ∷ rs) (cleared_rows rows)

ranked_rows_eq :
    (rows : List ProcessSample) → map set_cpu_rank (map cleared_row rows) ≡ map ranked_row rows
unfolding set_cpu_rank
ranked_rows_eq [] = refl
ranked_rows_eq (r ∷ rows) = ap (λ rs. ranked_row r ∷ rs) (ranked_rows_eq rows)

fast_stage : (d : SchemaDb) → rows_of (migrated_db fast_table d) ≡ after_fast d
unfolding migrated_db with_columns with_triggers change_table add_swap_bytes add_cpu_rank
    add_memory_rank add_column backfill
fast_stage d =
    rw (cleared_rows d.process_samples_fast.rows, ranked_rows_eq d.process_samples_fast.rows) refl

-- of the second table, from any rows
minute_stage :
    (d : SchemaDb)
    → rows_of (migrated_db minute_table d)
      ≡ d.triggers
          (updates minute_table)
          (record (rows_of d) { minute_rows = map cleared_row d.process_samples.rows })
          (record (rows_of d) { minute_rows = map ranked_row d.process_samples.rows })
unfolding migrated_db with_columns with_triggers change_table add_swap_bytes add_cpu_rank
    add_memory_rank add_column backfill
minute_stage d =
    rw (cleared_rows d.process_samples.rows, ranked_rows_eq d.process_samples.rows) refl

same_triggers : (t : ProcessTables) (d : SchemaDb) → (migrated_db t d).triggers ≡ d.triggers
unfolding migrated_db with_columns with_triggers change_table
same_triggers fast_table d = refl
same_triggers minute_table d = refl

both_stages :
    (d : SchemaDb) → rows_of (migrated_db minute_table (migrated_db fast_table d)) ≡ after_minute d
both_stages d =
    minute_stage (migrated_db fast_table d)
    ∙ ap
        (λ (tr : Statement → TableRows → TableRows → TableRows).
          tr (updates minute_table)
            (record (rows_of (migrated_db fast_table d)) {
              minute_rows = map cleared_row (migrated_db fast_table d).process_samples.rows;
            })
            (record (rows_of (migrated_db fast_table d)) {
              minute_rows = map ranked_row (migrated_db fast_table d).process_samples.rows;
            }))
        (same_triggers fast_table d)
    ∙ ap
        (λ r.
          d.triggers (updates minute_table)
            (record r { minute_rows = map cleared_row r.minute_rows })
            (record r { minute_rows = map ranked_row r.minute_rows }))
        (fast_stage d)

fast_count :
    (d : SchemaDb)
    → count_rows (table_of fast_table (migrated_db fast_table d)) ≡ length (after_fast d).fast_rows
unfolding count_rows table_of
fast_count d = ap (λ r. length r.fast_rows) (fast_stage d)

minute_count :
    (d : SchemaDb)
    → count_rows (table_of minute_table (migrated_db minute_table (migrated_db fast_table d)))
      ≡ length (after_minute d).minute_rows
unfolding count_rows table_of
minute_count d = ap (λ r. length r.minute_rows) (both_stages d)

marker_stage :
    (marker : SchemaMarker) (d : SchemaDb)
    → rows_of (set_version (pos 6) (add_marker marker d))
      ≡ d.triggers adds_marker
          (rows_of d)
          (record (rows_of d) { events = d.app_events ++ marker ∷ [] })
unfolding add_marker with_triggers
marker_stage marker d = refl

module _ (busy : Bool) (now_ms : ℤ) (d : SchemaDb) where
  abbrev d1 : SchemaDb
  d1 = migrated_db fast_table d

  abbrev d2 : SchemaDb
  d2 = migrated_db minute_table d1

  done_rows :
      (n m : ℕ)
      → n ≡ length (after_fast d).fast_rows
      → m ≡ length (after_minute d).minute_rows
      → rows_of (done now_ms n m d) ≡ after_marker now_ms d
  done_rows n m en em =
      let tr = same_triggers minute_table d1 ∙ same_triggers fast_table d in
      marker_stage (from_v5 now_ms n m) d2
      ∙ ap
          (λ (t : Statement → TableRows → TableRows → TableRows).
            t adds_marker (rows_of d2)
              (record (rows_of d2) { events = d2.app_events ++ from_v5 now_ms n m ∷ [] }))
          tr
      ∙ ap
          (λ r.
            d.triggers adds_marker r (record r { events = r.events ++ from_v5 now_ms n m ∷ [] }))
          (both_stages d)
      ∙ ap
          (λ k. d.triggers adds_marker (after_minute d) (record (after_minute d) {
            events = (after_minute d).events ++ from_v5 now_ms k m ∷ [];
          }))
          en
      ∙ ap
          (λ k. d.triggers adds_marker (after_minute d) (record (after_minute d) {
            events =
                (after_minute d).events ++ from_v5 now_ms (length (after_fast d).fast_rows) k ∷ [];
          }))
          em

  done_columns :
      (n m : ℕ) (t : ProcessTables)
      → (table_of t d).columns ≡ v5_columns t
      → (table_of t (done now_ms n m d)).columns ≡ v5_columns t ++ v6_columns
  unfolding table_of add_marker migrated_db with_columns with_triggers change_table add_swap_bytes
      add_cpu_rank add_memory_rank add_column backfill
  done_columns n m fast_table e = rw e refl
  done_columns n m minute_table e = rw e refl

  done-Migrated :
      (n m : ℕ)
      → d.user_version ≡ pos 5
      → ((t : ProcessTables) → (table_of t d).columns ≡ v5_columns t)
      → ((t : ProcessTables) → Small (table_of t d).rows)
      → Verified fast_table d n
      → Verified minute_table d1 m
      → Migrated now_ms d (done now_ms n m d)
  unfolding table_of count_rows count_unverified
  done-Migrated n m v c s vf vm = record {
    was_v5 = v;
    is_v6 = refl;
    had_columns = c;
    has_columns = λ t. done_columns n m t (c t);
    small = s;
    fast_verified =
        subst (λ r. IsVerified d.process_samples_fast.rows r.fast_rows) (fast_stage d)
          (
            vf.same_count,
            count_unverified-IsRanked d1.process_samples_fast.rows vf.none_unverified,
          );
    minute_verified =
        subst (λ r. IsVerified r.minute_rows (after_minute d).minute_rows) (fast_stage d)
          (subst (λ r. IsVerified d1.process_samples.rows r.minute_rows) (both_stages d)
            (vm.same_count, count_unverified-IsRanked d2.process_samples.rows vm.none_unverified));
    left = done_rows n m (vf.counted ∙ fast_count d) (vm.counted ∙ minute_count d);
  }

  -- what the body of the transaction leaves
  abbrev pub Body : Option SchemaV6Counts → SchemaDb → Type 0
  Body none db = (d.user_version ≡ pos 6) × At d db
  Body (some counts) db = Migrated now_ms d db

  migrate_from_v5-Triple :
      d.user_version ≡ pos 5 → Triple (At d) (migrate_from_v5 busy now_ms) Body Any
  unfolding migrate_from_v5
  migrate_from_v5-Triple v =
      let d' = migrated_db fast_table d in
      then-Triple _ _ (check_columns-Triple fast_table d) λ _ cf.
        then-Triple _ _ (check_columns-Triple minute_table d) λ _ cm.
          then-Triple _ _ (refuse-Triple fast_table d) λ _ sf.
            then-Triple _ _ (refuse-Triple minute_table d) λ _ sm.
              then-Triple _ _ (migrate_table-Triple busy fast_table d) λ n vf.
                then-Triple _ _ (migrate_table-Triple busy minute_table d') λ m vm.
                  bind-Triple _ _ (update-Triple (add_marker (from_v5 now_ms n m)) _) λ _.
                    bind-Triple _ _ (update-Triple (set_version (pos 6)) _) λ _.
                      pure-Triple (some record { fast_rows = n; minute_rows = m }) λ db h.
                        subst (Migrated now_ms d) (sym h) (
                          done-Migrated n m v
                            (for_both (λ t. (table_of t d).columns ≡ v5_columns t) cf cm)
                            (for_both (λ t. Small (table_of t d).rows) sf sm) vf vm)

  pub holding-Triple : Triple (At d) (migrate_v5_to_v6_holding_the_write_lock busy now_ms) Body Any
  unfolding migrate_v5_to_v6_holding_the_write_lock
  holding-Triple = bind-Triple _ _ (query-Triple (λ db. db.user_version) d) λ version.
      given-Triple _ λ e.
        if-Triple (eqb_ℤ version (pos 5)) _ _
          (λ five. migrate_from_v5-Triple (sym e ∙ (eqb_ℤ_iff version (pos 5)).0 five))
          (λ _.
            if-Triple (eqb_ℤ version (pos 6)) _ _
              (λ six. pure-Triple none (λ db h. (sym e ∙ (eqb_ℤ_iff version (pos 6)).0 six, h)))
              (λ _. raise-Triple (migration (unexpected_version version)) (λ db h. tt)))
