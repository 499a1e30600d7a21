-- ===== src/Migration/Defs.antt =====
-- `migrate_v5_to_v6` of migration.rs.
use tinytop.Prelude.{
  ℕ, Bool, true, false, not, ◌&&◌, ◌||◌, ◌==◌, ltb, Option, none, some, is_some, List, [], ◌∷◌,
  ◌++◌, map, keep_if, any_of, length, reduce, max, if◌then◌else◌, Result, ok, err, ProcessTables,
  fast_table, minute_table, migration, locked, unexpected_version, unrecognised, oversized,
  statement_failed, unverified,
}
use tinytop.Prelude.Text.{Text, codes, text_eq}
use tinytop.Prelude.Int.{ℤ, pos, eqb_ℤ}
use tinytop.Store.Exec.{
  World, Exec, pure, raise, query, update, rollback, close_transaction, ◌>>=◌, ◌>>◌,
}
use tinytop.Migration.Schema.{
  with_triggers, updates, ProcessSample, ProcessTable, SchemaDb, table_of, change_table, v5_columns,
  set_version, apply_schema_v6, add_marker, from_v5,
}

-- `columns != expected_columns`, for equality
unfoldable pub same_columns : List Text → List Text → Bool
unfolding text_eq
same_columns [] [] = true
same_columns [] (t ∷ ts) = false
same_columns (s ∷ ss) [] = false
same_columns (s ∷ ss) (t ∷ ts) = text_eq s t && same_columns ss ts

unfoldable pub check_columns : ProcessTables → Exec SchemaDb (Unit {0})
unfolding table_of same_columns
check_columns table = query (λ db. (table_of table db).columns) >>= λ columns.
    if same_columns columns (v5_columns table)
    then pure tt
    else raise (migration (unrecognised table))

-- `MAX_TOP_PROCESS_COUNT`
abbrev pub max_top_process_count : ℕ
max_top_process_count = 50

-- the groups of `GROUP BY captured_at_ms`
unfoldable pub captures : List ProcessSample → List ℤ
captures [] = []
captures (row ∷ rows) =
    let rest = captures rows in
    if any_of (eqb_ℤ row.captured_at_ms) rest then rest else row.captured_at_ms ∷ rest

unfoldable pub row_count : List ProcessSample → ℤ → ℕ
row_count rows t = length (keep_if (λ r. eqb_ℤ t r.captured_at_ms) rows)

unfoldable pub oversize_counts : List ProcessSample → List ℕ
unfolding captures row_count
oversize_counts rows = keep_if (ltb max_top_process_count) (map (row_count rows) (captures rows))

-- `SELECT COUNT(*), MAX(row_count)`
unfoldable pub oversize_captures : List ProcessSample → ℕ × Option ℕ
unfolding oversize_counts
oversize_captures rows = (length (oversize_counts rows), reduce max (oversize_counts rows))

unfoldable pub refuse_captures_larger_than_the_cpu_list : ProcessTables → Exec SchemaDb (Unit {0})
unfolding oversize_captures table_of
refuse_captures_larger_than_the_cpu_list table =
    query (λ db. oversize_captures (table_of table db).rows) >>= λ found.
    if ltb 0 found.0 && is_some found.1 then raise (migration (oversized table)) else pure tt

-- what is told where a statement fails; `busy` is the answer of `is_database_busy` to the failure of
-- this run, since a run ends at its first one
unfoldable pub or_refuse : Bool → Exec SchemaDb (Unit {0}) → Exec SchemaDb (Unit {0})
or_refuse busy m w =
    let (r, w') = m w in
    elim r [
      | ok _ ↦ (ok tt, w')
      | err e ↦ (err (migration (if busy then locked else statement_failed)), w')
    ]

unfoldable pub add_column : Text → (ProcessSample → ProcessSample) → ProcessTable → ProcessTable
add_column column clear table = record table {
  columns = table.columns ++ column ∷ [];
  rows = map clear table.rows;
}

unfoldable pub add_swap_bytes : ProcessTable → ProcessTable
unfolding add_column
add_swap_bytes = add_column (codes "swap_bytes") (λ r. record r { swap_bytes = none })

unfoldable pub add_cpu_rank : ProcessTable → ProcessTable
unfolding add_column
add_cpu_rank = add_column (codes "cpu_rank") (λ r. record r { cpu_rank = none })

unfoldable pub add_memory_rank : ProcessTable → ProcessTable
unfolding add_column
add_memory_rank = add_column (codes "memory_rank") (λ r. record r { memory_rank = none })

unfoldable pub set_cpu_rank : ProcessSample → ProcessSample
set_cpu_rank r = record r { cpu_rank = some r.rank }

unfoldable pub backfill : ProcessTable → ProcessTable
unfolding set_cpu_rank
backfill table = record table { rows = map set_cpu_rank table.rows }

abbrev pub is_rank : ℤ → Option ℤ → Bool
is_rank rank none = false
is_rank rank (some cpu_rank) = eqb_ℤ cpu_rank rank

unfoldable pub is_unverified : ProcessSample → Bool
is_unverified r = not (is_rank r.rank r.cpu_rank) || is_some r.swap_bytes || is_some r.memory_rank

unfoldable pub count_rows : ProcessTable → ℕ
count_rows table = length table.rows

unfoldable pub count_unverified : ProcessTable → ℕ
unfolding is_unverified
count_unverified table = length (keep_if is_unverified table.rows)

unfoldable pub check_counts : ProcessTables → ℕ → ℕ → ℕ → Exec SchemaDb ℕ
check_counts table rows_before rows_after rows_unverified =
    if not (rows_after == rows_before) || not (rows_unverified == 0)
    then raise (migration (unverified table))
    else pure rows_after

-- the counts after the statements, and their check
unfoldable pub verify_table : ProcessTables → ℕ → Exec SchemaDb ℕ
unfolding table_of count_rows count_unverified check_counts
verify_table table rows_before = query (λ db. count_rows (table_of table db)) >>= λ rows_after.
    query (λ db. count_unverified (table_of table db)) >>= λ rows_unverified.
    check_counts table rows_before rows_after rows_unverified

unfoldable pub migrate_table : Bool → ProcessTables → Exec SchemaDb ℕ
unfolding with_triggers table_of change_table or_refuse add_swap_bytes add_cpu_rank add_memory_rank
    backfill count_rows verify_table
migrate_table busy table = query (λ db. count_rows (table_of table db)) >>= λ rows_before.
    or_refuse busy (update (change_table table add_swap_bytes))
    >> or_refuse busy (update (change_table table add_cpu_rank))
    >> or_refuse busy (update (change_table table add_memory_rank))
    >> or_refuse busy (update (with_triggers (updates table) (change_table table backfill)))
    >> verify_table table rows_before

pub record SchemaV6Counts : Type 0 where
  pub fast_rows : ℕ
  pub minute_rows : ℕ

-- from version 5, under the lock
unfoldable pub migrate_from_v5 : Bool → ℤ → Exec SchemaDb (Option SchemaV6Counts)
unfolding check_columns refuse_captures_larger_than_the_cpu_list migrate_table add_marker
migrate_from_v5 busy now_ms = check_columns fast_table >>= λ _. check_columns minute_table >>= λ _.
    refuse_captures_larger_than_the_cpu_list fast_table >>= λ _.
    refuse_captures_larger_than_the_cpu_list minute_table >>= λ _.
    migrate_table busy fast_table >>= λ fast_rows.
    migrate_table busy minute_table >>= λ minute_rows.
    update (add_marker (from_v5 now_ms fast_rows minute_rows)) >>= λ _.
    update (set_version (pos 6)) >>= λ _.
    pure (some record { fast_rows = fast_rows; minute_rows = minute_rows })

unfoldable pub migrate_v5_to_v6_holding_the_write_lock :
    Bool → ℤ → Exec SchemaDb (Option SchemaV6Counts)
unfolding migrate_from_v5
migrate_v5_to_v6_holding_the_write_lock busy now_ms =
    query (λ db. db.user_version) >>= λ user_version.
    if eqb_ℤ user_version (pos 5)
    then migrate_from_v5 busy now_ms
    else if eqb_ℤ user_version (pos 6)
    then pure none
    else raise (migration (unexpected_version user_version))

pub data SchemaV6Outcome : Type 0 where
  migrated already_migrated : SchemaV6Outcome

-- the end of the transaction that began with this database
unfoldable pub end_v6 :
    SchemaDb
    → Result (Option SchemaV6Counts)
    → World SchemaDb
    → Result SchemaV6Outcome × World SchemaDb
unfolding apply_schema_v6
end_v6 before (err e) w = rollback before e w
end_v6 before (ok none) w = (update (λ _. before) >> apply_schema_v6 >> pure already_migrated) w
end_v6 before (ok (some counts)) w = close_transaction before (ok migrated) w

-- `BEGIN IMMEDIATE`
unfoldable pub begin_v6 : Bool → Exec SchemaDb (Unit {0})
begin_v6 busy w =
    let (r, w') = update (λ db. db) w in
    elim r [ ok _ ↦ (ok tt, w') | err e ↦ (err (if busy then migration locked else e), w') ]

unfoldable pub locked_v6 : Bool → ℤ → Exec SchemaDb SchemaV6Outcome
unfolding migrate_v5_to_v6_holding_the_write_lock end_v6
locked_v6 busy now_ms w =
    let (r, w') = migrate_v5_to_v6_holding_the_write_lock busy now_ms w in end_v6 w.db r w'

-- `pool.acquire` is the first statement
unfoldable pub migrate_v5_to_v6 : Bool → ℤ → Exec SchemaDb SchemaV6Outcome
unfolding begin_v6 locked_v6
migrate_v5_to_v6 busy now_ms = update (λ db. db) >> begin_v6 busy >> locked_v6 busy now_ms
