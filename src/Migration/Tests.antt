-- ===== src/Migration/Tests.antt =====
-- A file at v5 with two fast rows, migrated.
use tinytop.Prelude.{
  ◌≡◌, ◌≤◌, refl, true, false, none, [], ◌∷◌, ok, err, migration, locked, fast_table, minute_table,
  arith, Bool-cases, inl, inr,
}
use tinytop.Prelude.Int.{ℤ, pos, eqb_ℤ}
use tinytop.Store.Exec.{World}
use tinytop.Migration.Schema.{ProcessSample, SchemaDb, table_of, v5_columns}
use tinytop.Migration.Defs.{row_count, migrated, migrate_v5_to_v6}
use tinytop.Migration.Outcomes.{Done, migrate_v5_to_v6-ok, migrate_v5_to_v6-err}
use tinytop.Migration.Complete.{IsV5, migrate_v5_to_v6-some}

abbrev row_at : ℤ → ProcessSample
row_at rank = record {
  captured_at_ms = pos 60_000;
  rank = rank;
  pid = pos 7;
  swap_bytes = none;
  cpu_rank = none;
  memory_rank = none;
}

abbrev file : SchemaDb
file = record {
  user_version = pos 5;
  process_samples_fast = record {
    columns = v5_columns fast_table;
    rows = row_at (pos 1) ∷ row_at (pos 2) ∷ [];
  };
  process_samples = record { columns = v5_columns minute_table; rows = [] };
  sensor_tables = true;
  app_events = [];
  triggers = λ statement before after. after;
}

file-IsV5 : IsV5 file
unfolding table_of row_count
file-IsV5 = record {
  version = refl;
  columns = λ t. elim t as (λ k. (table_of k file).columns ≡ v5_columns k) [
    | fast_table ↦ refl
    | minute_table ↦ refl
  ];
  small = λ t. elim t as (λ k. (time : ℤ) → row_count (table_of k file).rows time ≤ 50) [
    | fast_table ↦ λ time. elim (Bool-cases (eqb_ℤ time (pos 60_000))) [
      | inl e ↦ rw e (omega arith)
      | inr e ↦ rw e (omega arith)
    ]
    | minute_table ↦ λ time. omega arith
  ];
  untriggered = λ statement before after. refl;
}

abbrev opened : World SchemaDb
opened = record { db = file; faults = [] }

migrate_v5_to_v6-some_example : (migrate_v5_to_v6 false (pos 90_000) opened).0 ≡ ok migrated
migrate_v5_to_v6-some_example = migrate_v5_to_v6-some false (pos 90_000) file file-IsV5

file_migrated : (migrate_v5_to_v6 false (pos 90_000) opened).0 ≡ ok migrated
file_migrated = migrate_v5_to_v6-some false (pos 90_000) file file-IsV5

migrate_v5_to_v6-ok_example :
    Done (pos 90_000) migrated file (migrate_v5_to_v6 false (pos 90_000) opened).1.db
migrate_v5_to_v6-ok_example = migrate_v5_to_v6-ok false (pos 90_000) opened migrated file_migrated

-- the second statement, which is to take the lock, fails
abbrev contended : World SchemaDb
contended = record { db = file; faults = false ∷ true ∷ [] }

contended_fails : (migrate_v5_to_v6 true (pos 90_000) contended).0 ≡ err (migration locked)
unfolding migrate_v5_to_v6
contended_fails = refl

migrate_v5_to_v6-err_example : (migrate_v5_to_v6 true (pos 90_000) contended).1.db ≡ file
migrate_v5_to_v6-err_example =
    migrate_v5_to_v6-err true (pos 90_000) contended (migration locked) contended_fails
