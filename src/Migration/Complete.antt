-- ===== src/Migration/Complete.antt =====
-- A file at v5 that is as the agent writes it is migrated, where no statement fails.
use tinytop.Prelude.{
  ℕ, ◌≡◌, ◌∙◌, refl, ap, Bool, true, ltb, Option, none, some, List, [], ◌∷◌, map, keep_if, length,
  arith, Result, ok, err, ProcessTables, fast_table, minute_table,
}
use tinytop.Prelude.Text.{Text, text_eq_iff}
use tinytop.Prelude.Int.{ℤ, pos, eqb_ℤ_iff}
use tinytop.Store.Exec.{World, Exec, update, pure, ◌>>=◌}
use tinytop.Migration.Schema.{
  TableRows, Statement, updates, with_triggers, ProcessSample, SchemaDb, table_of, change_table,
  v5_columns, from_v5, add_marker, set_version,
}
use tinytop.Migration.Defs.{
  SchemaV6Counts, same_columns, check_columns, captures, row_count, oversize_counts,
  oversize_captures, max_top_process_count, refuse_captures_larger_than_the_cpu_list, is_rank,
  is_unverified, set_cpu_rank, add_column, add_swap_bytes, add_cpu_rank, add_memory_rank, backfill,
  or_refuse, count_rows, count_unverified, check_counts, verify_table, migrate_table,
  migrate_from_v5, migrate_v5_to_v6_holding_the_write_lock, migrated, end_v6, begin_v6, locked_v6,
  migrate_v5_to_v6,
}
use tinytop.Migration.Steps.{migrated_db, with_columns}
use tinytop.Migration.Checks.{Small}

abbrev unfailing : SchemaDb → World SchemaDb
unfailing d = record { db = d; faults = [] }

-- a step that succeeds, and then the rest
step-some :
    {A B : Type 0} {a : A} {r : Result B × World SchemaDb} (d d' : SchemaDb) (m : Exec SchemaDb A)
    (f : A → Exec SchemaDb B)
    → m (unfailing d) ≡ (ok a, unfailing d')
    → f a (unfailing d') ≡ r
    → (m >>= f) (unfailing d) ≡ r
step-some {B} d d' m f e k =
    ap (λ p. elim p.0 as (λ _. Result B × World SchemaDb) [ ok b ↦ f b p.1 | err x ↦ (err x, p.1) ])
      e
    ∙ k

same_columns_self : (ts : List Text) → same_columns ts ts ≡ true
unfolding same_columns
same_columns_self [] = refl
same_columns_self (t ∷ ts) = rw ((text_eq_iff t t).1 refl, same_columns_self ts) refl

check_columns-some :
    (t : ProcessTables) (d : SchemaDb)
    → (table_of t d).columns ≡ v5_columns t
    → check_columns t (unfailing d) ≡ (ok tt, unfailing d)
unfolding check_columns
check_columns-some t d e = rw (e, same_columns_self (v5_columns t)) refl

none_big :
    (rows : List ProcessSample) (ts : List ℤ)
    → Small rows
    → keep_if (ltb max_top_process_count) (map (row_count rows) ts) ≡ []
none_big rows [] s = refl
none_big rows (t ∷ ts) s = rw (none_big rows ts s) (ground (arith, s t))

refuse-some :
    (t : ProcessTables) (d : SchemaDb)
    → Small (table_of t d).rows
    → refuse_captures_larger_than_the_cpu_list t (unfailing d) ≡ (ok tt, unfailing d)
unfolding refuse_captures_larger_than_the_cpu_list oversize_captures oversize_counts
refuse-some t d s = rw (none_big (table_of t d).rows (captures (table_of t d).rows) s) refl

-- no trigger changes what a statement leaves
abbrev pub Untriggered : SchemaDb → Type 0
Untriggered d =
    (statement : Statement) (before after : TableRows) → d.triggers statement before after ≡ after

counted :
    (rows : List ProcessSample)
    → length (
        map set_cpu_rank (
          map
            (λ (r : ProcessSample). record r { memory_rank = none })
            (map
              (λ (r : ProcessSample). record r { cpu_rank = none })
              (map (λ (r : ProcessSample). record r { swap_bytes = none }) rows))))
      ≡ length rows
counted [] = refl
counted (r ∷ rows) = rw (counted rows) refl

rank_self : (rank : ℤ) → is_rank rank (some rank) ≡ true
rank_self rank = (eqb_ℤ_iff rank rank).1 refl

all_ranked :
    (rows : List ProcessSample)
    → length (
        keep_if is_unverified (
          map set_cpu_rank (
            map
              (λ (r : ProcessSample). record r { memory_rank = none })
              (map
                (λ (r : ProcessSample). record r { cpu_rank = none })
                (map (λ (r : ProcessSample). record r { swap_bytes = none }) rows)))))
      ≡ 0
unfolding is_unverified set_cpu_rank
all_ranked [] = refl
all_ranked (r ∷ rows) = rw (rank_self r.rank) (all_ranked rows)

migrated_count :
    (t : ProcessTables) (d : SchemaDb)
    → Untriggered d
    → count_rows (table_of t (migrated_db t d)) ≡ count_rows (table_of t d)
unfolding count_rows table_of migrated_db with_columns with_triggers change_table add_swap_bytes
    add_cpu_rank add_memory_rank add_column backfill
migrated_count fast_table d u =
    rw (u (updates fast_table) _ _) (counted d.process_samples_fast.rows)
migrated_count minute_table d u = rw (u (updates minute_table) _ _) (counted d.process_samples.rows)

migrated_verified :
    (t : ProcessTables) (d : SchemaDb)
    → Untriggered d
    → count_unverified (table_of t (migrated_db t d)) ≡ 0
unfolding count_unverified table_of migrated_db with_columns with_triggers change_table
    add_swap_bytes add_cpu_rank add_memory_rank add_column backfill
migrated_verified fast_table d u =
    rw (u (updates fast_table) _ _) (all_ranked d.process_samples_fast.rows)
migrated_verified minute_table d u =
    rw (u (updates minute_table) _ _) (all_ranked d.process_samples.rows)

verify_table-some :
    (t : ProcessTables) (d : SchemaDb) (n : ℕ)
    → count_unverified (table_of t d) ≡ 0
    → count_rows (table_of t d) ≡ n
    → verify_table t n (unfailing d) ≡ (ok n, unfailing d)
unfolding verify_table check_counts
verify_table-some t d n z e = rw (z, e) (ground arith)

migrate_table-some :
    (busy : Bool) (t : ProcessTables) (d : SchemaDb)
    → Untriggered d
    → migrate_table busy t (unfailing d)
      ≡ (ok (count_rows (table_of t d)), unfailing (migrated_db t d))
unfolding migrate_table or_refuse migrated_db with_columns
migrate_table-some busy t d u =
    verify_table-some t (migrated_db t d) (count_rows (table_of t d)) (migrated_verified t d u)
      (migrated_count t d u)

-- a file that the agent left at v5
pub record IsV5 (d : SchemaDb) : Type 0 where
  pub version : d.user_version ≡ pos 5
  pub columns : (t : ProcessTables) → (table_of t d).columns ≡ v5_columns t
  pub small : (t : ProcessTables) → Small (table_of t d).rows
  pub untriggered : Untriggered d

module _ (busy : Bool) (now_ms : ℤ) (d : SchemaDb) (v : IsV5 d) where
  abbrev fast_done : SchemaDb
  fast_done = migrated_db fast_table d

  other-Untriggered : Untriggered fast_done
  unfolding migrated_db with_columns with_triggers change_table
  other-Untriggered = v.untriggered

  abbrev both_done : SchemaDb
  both_done = migrated_db minute_table fast_done

  abbrev fast_rows : ℕ
  fast_rows = count_rows (table_of fast_table d)

  abbrev minute_rows : ℕ
  minute_rows = count_rows (table_of minute_table fast_done)

  -- what is left of `migrate_from_v5` after each of its steps
  abbrev after_tables : ℕ → ℕ → Exec SchemaDb (Option SchemaV6Counts)
  after_tables n m = update (add_marker (from_v5 now_ms n m)) >>= λ _.
      update (set_version (pos 6)) >>= λ _. pure (some record { fast_rows = n; minute_rows = m })

  abbrev after_fast : ℕ → Exec SchemaDb (Option SchemaV6Counts)
  after_fast n = migrate_table busy minute_table >>= after_tables n

  abbrev after_counts : Unit {0} → Exec SchemaDb (Option SchemaV6Counts)
  after_counts done = migrate_table busy fast_table >>= after_fast

  abbrev after_fast_counts : Unit {0} → Exec SchemaDb (Option SchemaV6Counts)
  after_fast_counts done = refuse_captures_larger_than_the_cpu_list minute_table >>= after_counts

  abbrev after_checks : Unit {0} → Exec SchemaDb (Option SchemaV6Counts)
  after_checks done = refuse_captures_larger_than_the_cpu_list fast_table >>= after_fast_counts

  abbrev after_fast_check : Unit {0} → Exec SchemaDb (Option SchemaV6Counts)
  after_fast_check done = check_columns minute_table >>= after_checks

  from_v5-some : migrate_from_v5 busy now_ms (unfailing d) ≡ (
    ok (some record { fast_rows = fast_rows; minute_rows = minute_rows }),
    unfailing (set_version (pos 6) (add_marker (from_v5 now_ms fast_rows minute_rows) both_done)),
  )
  unfolding migrate_from_v5
  from_v5-some =
      step-some d d (check_columns fast_table) after_fast_check
        (check_columns-some fast_table d (v.columns fast_table))
        (step-some d d (check_columns minute_table) after_checks
          (check_columns-some minute_table d (v.columns minute_table))
          (step-some d d (refuse_captures_larger_than_the_cpu_list fast_table) after_fast_counts
            (refuse-some fast_table d (v.small fast_table))
            (step-some d d (refuse_captures_larger_than_the_cpu_list minute_table) after_counts
              (refuse-some minute_table d (v.small minute_table))
              (step-some d fast_done (migrate_table busy fast_table) after_fast
                (migrate_table-some busy fast_table d v.untriggered)
                (step-some fast_done both_done (migrate_table busy minute_table)
                  (after_tables fast_rows)
                  (migrate_table-some busy minute_table fast_done other-Untriggered) refl)))))

  holding-some :
      migrate_v5_to_v6_holding_the_write_lock busy now_ms (unfailing d)
      ≡ migrate_from_v5 busy now_ms (unfailing d)
  unfolding migrate_v5_to_v6_holding_the_write_lock
  holding-some = rw ((eqb_ℤ_iff d.user_version (pos 5)).1 v.version) refl

-- A file as the agent leaves it at v5, without a trigger that changes what the statements leave
-- and without a capture of more than 50 rows, is migrated to v6 if no statement fails.
pub migrate_v5_to_v6-some :
    (busy : Bool) (now_ms : ℤ) (d : SchemaDb)
    → IsV5 d
    → (migrate_v5_to_v6 busy now_ms record { db = d; faults = [] }).0 ≡ ok migrated
unfolding migrate_v5_to_v6 begin_v6 locked_v6 end_v6
migrate_v5_to_v6-some busy now_ms d v =
    rw (holding-some busy now_ms d v, from_v5-some busy now_ms d v) refl
