-- ===== src/Migration/Steps.antt =====
-- What the statements of the migration to v6 leave, each from a database that is given.
use tinytop.Prelude.{
  ℕ, ◌≡◌, refl, migration, unverified, Bool, false, not, ◌||◌, ◌==◌, Result, StoreError, ok, err,
  ProcessTables, arith,
}
use tinytop.Store.Exec.{World, Exec, query, update, ◌>>=◌, ◌>>◌}
use tinytop.Store.Triple.{
  Triple, Ends, sql-Triple, pure-Triple, raise-Triple, if-Triple, given-Triple, bind-Triple,
}
use tinytop.Migration.Schema.{
  with_triggers, updates, SchemaDb, ProcessTable, table_of, change_table,
}
use tinytop.Migration.Defs.{
  or_refuse, add_swap_bytes, add_cpu_rank, add_memory_rank, backfill, count_rows, count_unverified,
  migrate_table, check_counts, verify_table,
}

module _ {S : Type 0} where
  abbrev pub At : S → S → Type 0
  At d db = db ≡ d

  -- nothing is said of a failure, after which the transaction is rolled back
  abbrev pub Any : StoreError → S → Type 0
  Any e db = Unit

  pub query-Triple :
      {A : Type 0} (f : S → A) (d : S) → Triple (At d) (query f) (λ a db. (a ≡ f d) × At d db) Any
  query-Triple f d = sql-Triple (λ db. (f db, db)) (λ db h. (rw h refl, h)) (λ db h. tt)

  pub update-Triple : (f : S → S) (d : S) → Triple (At d) (update f) (λ _. At (f d)) Any
  update-Triple f d = sql-Triple (λ db. (tt, f db)) (λ db h. rw h refl) (λ db h. tt)

  -- a step, and the next one with what the step found
  pub then-Triple :
      {A B : Type 0} {d d' : S} {X : A → Type 0} {Q : B → S → Type 0} (m : Exec S A)
      (f : A → Exec S B)
      → Triple (At d) m (λ a db. X a × At d' db) Any
      → ((a : A) → X a → Triple (At d') (f a) Q Any)
      → Triple (At d) (m >>= f) Q Any
  then-Triple m f t k = bind-Triple m f t λ a. given-Triple (f a) (k a)

or_refuse-Ends :
    (Q : Unit {0} → SchemaDb → Type 0) (busy : Bool) (r : Result (Unit {0})) (w : World SchemaDb)
    → Ends (r, w) Q Any
    → Ends (or_refuse busy (λ _. (r, w)) w) Q Any
unfolding or_refuse
or_refuse-Ends Q busy (ok tt) w h = h
or_refuse-Ends Q busy (err e) w h = tt

pub or_refuse-Triple :
    (f : SchemaDb → SchemaDb) (busy : Bool) (d : SchemaDb)
    → Triple (At d) (or_refuse busy (update f)) (λ _. At (f d)) Any
unfolding or_refuse
or_refuse-Triple f busy d = record {
  holds = λ db fs h.
      let w : World SchemaDb = record { db = db; faults = fs } in
      or_refuse-Ends (λ _. At (f d)) busy (update f w).0 (update f w).1
        ((update-Triple f d).holds db fs h);
}

-- the database after the columns are added
unfoldable pub with_columns : ProcessTables → SchemaDb → SchemaDb
unfolding add_swap_bytes add_cpu_rank add_memory_rank change_table
with_columns t d =
    change_table t add_memory_rank (change_table t add_cpu_rank (change_table t add_swap_bytes d))

-- and after the backfill with its triggers
unfoldable pub migrated_db : ProcessTables → SchemaDb → SchemaDb
unfolding with_columns backfill change_table with_triggers
migrated_db t d = with_triggers (updates t) (change_table t backfill) (with_columns t d)

-- what was checked of the table
pub record Verified (t : ProcessTables) (d : SchemaDb) (n : ℕ) : Type 0 where
  pub counted : n ≡ count_rows (table_of t (migrated_db t d))
  pub same_count : count_rows (table_of t (migrated_db t d)) ≡ count_rows (table_of t d)
  pub none_unverified : count_unverified (table_of t (migrated_db t d)) ≡ 0

verified :
    (t : ProcessTables) (d : SchemaDb) (before after wrong : ℕ)
    → before ≡ count_rows (table_of t d)
    → after ≡ count_rows (table_of t (migrated_db t d))
    → wrong ≡ count_unverified (table_of t (migrated_db t d))
    → (not (after == before) || not (wrong == 0)) ≡ false
    → Verified t d after
verified t d before after wrong b a u h = record {
  counted = a;
  same_count = ground (arith, b, a, h);
  none_unverified = ground (arith, u, h);
}

module _ (busy : Bool) (t : ProcessTables) (d : SchemaDb) where
  abbrev before : ProcessTable
  before = table_of t d

  four-Triple :
      Triple
        (At d)
        (or_refuse busy (update (change_table t add_swap_bytes))
          >> or_refuse busy (update (change_table t add_cpu_rank))
          >> or_refuse busy (update (change_table t add_memory_rank))
          >> or_refuse busy (update (with_triggers (updates t) (change_table t backfill))))
        (λ _. At (migrated_db t d))
        Any
  unfolding migrated_db with_columns
  four-Triple =
      bind-Triple _ _
        (bind-Triple _ _
          (bind-Triple _ _ (or_refuse-Triple (change_table t add_swap_bytes) busy d)
            (λ _. or_refuse-Triple (change_table t add_cpu_rank) busy _))
          (λ _. or_refuse-Triple (change_table t add_memory_rank) busy _))
        (λ _. or_refuse-Triple (with_triggers (updates t) (change_table t backfill)) busy _)

  check_counts-Triple :
      (rows_before rows_after rows_unverified : ℕ)
      → rows_before ≡ count_rows before
      → rows_after ≡ count_rows (table_of t (migrated_db t d))
      → rows_unverified ≡ count_unverified (table_of t (migrated_db t d))
      → Triple
          (At (migrated_db t d))
          (check_counts t rows_before rows_after rows_unverified)
          (λ n db. Verified t d n × At (migrated_db t d) db)
          Any
  unfolding check_counts
  check_counts-Triple rows_before rows_after rows_unverified b a u =
      if-Triple (not (rows_after == rows_before) || not (rows_unverified == 0)) _ _
        (λ _. raise-Triple (migration (unverified t)) (λ db h. tt))
        (λ c.
          pure-Triple rows_after
            (λ db h. (verified t d rows_before rows_after rows_unverified b a u c, h)))

  verify_table-Triple :
      (rows_before : ℕ)
      → rows_before ≡ count_rows before
      → Triple
          (At (migrated_db t d))
          (verify_table t rows_before)
          (λ n db. Verified t d n × At (migrated_db t d) db)
          Any
  unfolding verify_table
  verify_table-Triple rows_before b =
      bind-Triple _ _ (query-Triple (λ db. count_rows (table_of t db)) _) λ rows_after.
        given-Triple _ λ a.
          bind-Triple _ (check_counts t rows_before rows_after)
            (query-Triple (λ db. count_unverified (table_of t db)) _)
            λ rows_unverified.
              given-Triple (check_counts t rows_before rows_after rows_unverified)
                λ u. check_counts-Triple rows_before rows_after rows_unverified b a u

  pub migrate_table-Triple :
      Triple (At d) (migrate_table busy t) (λ n db. Verified t d n × At (migrated_db t d) db) Any
  unfolding migrate_table
  migrate_table-Triple =
      bind-Triple _ _ (query-Triple (λ db. count_rows (table_of t db)) d) λ rows_before.
        given-Triple _ λ b. bind-Triple _ _ four-Triple (λ _. verify_table-Triple rows_before b)
