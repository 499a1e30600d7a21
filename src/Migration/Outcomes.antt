-- ===== src/Migration/Outcomes.antt =====
-- What a migration to v6 did when it succeeds, and that one that fails did nothing.
use tinytop.Prelude.{
  ◌≡◌, ◌≢◌, refl, sym, Bool, true, false, Option, none, some, List, [], ◌∷◌, length, arith, Result,
  ok, err, StoreError, ProcessTables, fast_table, minute_table,
}
use mathlib.Core.Path.{subst}
use tinytop.Prelude.Text.{Text}
use tinytop.Prelude.Int.{ℤ, pos}
use tinytop.Store.Exec.{World, Exec, pure, update, close_transaction, transaction, ◌>>◌}
use tinytop.Store.Triple.{Triple, Ends, Ends-err, sql-Triple, pure-Triple, bind-Triple}
use tinytop.Migration.Schema.{
  ProcessTable, SchemaDb, table_of, change_table, create_if_missing, create_process_table,
  schema_v6_groups, apply_each, apply_schema_groups, apply_schema_v6,
}
use tinytop.Migration.Defs.{
  SchemaV6Counts, SchemaV6Outcome, migrated, already_migrated,
  migrate_v5_to_v6_holding_the_write_lock, end_v6, begin_v6, locked_v6, migrate_v5_to_v6,
}
use tinytop.Migration.Steps.{At, Any, update-Triple}
use tinytop.Migration.Laws.{Migrated, Body, holding-Triple}

-- an error leaves the database as it was
abbrev pub Back : SchemaDb → StoreError → SchemaDb → Type 0
Back d e db = db ≡ d

close-Ends :
    {B : Type 0} (Q : B → SchemaDb → Type 0) (before : SchemaDb) (b : B) (db : SchemaDb)
    (fs : List Bool)
    → Q b db
    → Ends (close_transaction before (ok b) record { db = db; faults = fs }) Q (Back before)
close-Ends Q before b db [] h = h
close-Ends Q before b db (true ∷ fs) h = refl
close-Ends Q before b db (false ∷ fs) h = h

closed-Ends :
    {A : Type 0} (Q : A → SchemaDb → Type 0) (before : SchemaDb) (r : Result A) (w : World SchemaDb)
    → Ends (r, w) Q Any
    → Ends (close_transaction before r w) Q (Back before)
closed-Ends Q before (ok a) w h = close-Ends Q before a w.db w.faults h
closed-Ends Q before (err e) w h = refl

transaction-Ends :
    {A : Type 0} (Q : A → SchemaDb → Type 0) (d : SchemaDb) (body : Exec SchemaDb A)
    (fs : List Bool)
    → Triple (At d) body Q Any
    → Ends (transaction body record { db = d; faults = fs }) Q (Back d)
transaction-Ends Q d body [] t =
    let w : World SchemaDb = record { db = d; faults = [] } in
    closed-Ends Q d (body w).0 (body w).1 (t.holds d [] refl)
transaction-Ends Q d body (true ∷ fs) t = refl
transaction-Ends Q d body (false ∷ fs) t =
    let w : World SchemaDb = record { db = d; faults = fs } in
    closed-Ends Q d (body w).0 (body w).1 (t.holds d fs refl)

pub transaction-Triple :
    {A : Type 0} {Q : A → SchemaDb → Type 0} (d : SchemaDb) (body : Exec SchemaDb A)
    → Triple (At d) body Q Any
    → Triple (At d) (transaction body) Q (Back d)
transaction-Triple {Q} d body t = record {
  holds = λ db fs h.
      subst (λ e. Ends (transaction body record { db = e; faults = fs }) Q (Back d)) (sym h)
        (transaction-Ends Q d body fs t);
}

abbrev apply_all : List (SchemaDb → SchemaDb) → SchemaDb → SchemaDb
apply_all [] d = d
apply_all (g ∷ gs) d = apply_all gs (g d)

apply_each-Triple :
    (Q : SchemaDb → Type 0) (gs : List (SchemaDb → SchemaDb)) (d : SchemaDb)
    → Q (apply_all gs d)
    → Triple (At d) (apply_each gs) (λ _. Q) Any
unfolding apply_each
apply_each-Triple Q [] d q = pure-Triple tt (λ db h. subst Q (sym h) q)
apply_each-Triple Q (g ∷ gs) d q =
    bind-Triple _ _ (update-Triple g d) (λ _. apply_each-Triple Q gs (g d) q)

-- a file at v6 that is opened: the process tables that are there stay, and so do the markers
pub record Opened (before after : SchemaDb) : Type 0 where
  pub is_v6 : after.user_version ≡ pos 6
  pub kept :
      (t : ProcessTables)
      → length (table_of t before).columns ≢ 0
      → table_of t after ≡ table_of t before
  pub unmarked : after.app_events ≡ before.app_events

created_kept :
    (columns : List Text) (p : ProcessTable)
    → length p.columns ≢ 0
    → create_if_missing columns p ≡ p
unfolding create_if_missing
created_kept columns p h = ground (arith, h)

v6-Opened : (d : SchemaDb) → Opened d (apply_all schema_v6_groups d)
unfolding create_process_table change_table table_of
v6-Opened d = record {
  is_v6 = refl;
  kept = λ t.
      elim t
        as (λ k.
          length (table_of k d).columns ≢ 0
          → table_of k (apply_all schema_v6_groups d) ≡ table_of k d) [
            | fast_table ↦ created_kept _ d.process_samples_fast
            | minute_table ↦ created_kept _ d.process_samples
          ];
  unmarked = refl;
}

apply_schema_v6-Triple : (d : SchemaDb) → Triple (At d) apply_schema_v6 (λ _. Opened d) (Back d)
unfolding apply_schema_v6 apply_schema_groups
apply_schema_v6-Triple d =
    transaction-Triple d (apply_each schema_v6_groups)
      (apply_each-Triple (Opened d) schema_v6_groups d (v6-Opened d))

-- what a success did
abbrev pub Done : ℤ → SchemaV6Outcome → SchemaDb → SchemaDb → Type 0
Done now_ms migrated before after = Migrated now_ms before after
Done now_ms already_migrated before after = (before.user_version ≡ pos 6) × Opened before after

module _ (busy : Bool) (now_ms : ℤ) (d : SchemaDb) where
  abbrev Good : SchemaV6Outcome → SchemaDb → Type 0
  Good outcome = Done now_ms outcome d

  reopened-Triple :
      d.user_version ≡ pos 6
      → Triple (At d) (update (λ _. d) >> apply_schema_v6 >> pure already_migrated) Good (Back d)
  reopened-Triple v =
      bind-Triple _ _
        (bind-Triple _ _ (sql-Triple (λ db. (tt, d)) (λ db h. refl) (λ db h. h))
          (λ _. apply_schema_v6-Triple d))
        (λ _. pure-Triple already_migrated (λ db o. (v, o)))

  end_v6-Ends :
      (r : Result (Option SchemaV6Counts)) (w : World SchemaDb)
      → Ends (r, w) (Body busy now_ms d) Any
      → Ends (end_v6 d r w) Good (Back d)
  unfolding end_v6
  end_v6-Ends (err e) w h = refl
  end_v6-Ends (ok none) w h = (reopened-Triple h.0).holds w.db w.faults h.1
  end_v6-Ends (ok (some counts)) w h = close-Ends Good d migrated w.db w.faults h

  locked_v6-Ends :
      (fs : List Bool) → Ends (locked_v6 busy now_ms record { db = d; faults = fs }) Good (Back d)
  unfolding locked_v6
  locked_v6-Ends fs =
      let w : World SchemaDb = record { db = d; faults = fs } in
      let m = migrate_v5_to_v6_holding_the_write_lock busy now_ms w in
      end_v6-Ends m.0 m.1 ((holding-Triple busy now_ms d).holds d fs refl)

  locked_v6-Triple : Triple (At d) (locked_v6 busy now_ms) Good (Back d)
  locked_v6-Triple = record {
    holds = λ db fs h.
        subst (λ e. Ends (locked_v6 busy now_ms record { db = e; faults = fs }) Good (Back d))
          (sym h) (locked_v6-Ends fs);
  }

  begin_v6-Ends :
      (db : SchemaDb) (fs : List Bool)
      → At d db
      → Ends (begin_v6 busy record { db = db; faults = fs }) (λ _. At d) (Back d)
  unfolding begin_v6
  begin_v6-Ends db [] h = h
  begin_v6-Ends db (true ∷ fs) h = h
  begin_v6-Ends db (false ∷ fs) h = h

  begin_v6-Triple : Triple (At d) (begin_v6 busy) (λ _. At d) (Back d)
  begin_v6-Triple = record { holds = begin_v6-Ends }

  migrate-Triple : Triple (At d) (migrate_v5_to_v6 busy now_ms) Good (Back d)
  unfolding migrate_v5_to_v6
  migrate-Triple =
      bind-Triple _ _
        (bind-Triple _ _ (sql-Triple (λ db. (tt, db)) (λ db h. h) (λ db h. h))
          (λ _. begin_v6-Triple))
        (λ _. locked_v6-Triple)

Ends-ok :
    {A : Type 0} (Q : A → SchemaDb → Type 0) (E : StoreError → SchemaDb → Type 0) (a : A)
    (r : Result A) (w : World SchemaDb)
    → r ≡ ok a
    → Ends (r, w) Q E
    → Q a w.db
Ends-ok Q E a (ok b) w h k = subst (λ c. Q c w.db) (cc) k
Ends-ok Q E a (err e) w h k = absurd (cc)

-- A migration from v5 that succeeds found version 5, or version 6. From version 5, both process tables
-- had exactly the columns of v5 and no capture of more than 50 rows; now the version is 6 and both have
-- the columns of v6. The rows are what the triggers left, whatever they do, of three statements: the
-- rank becomes the CPU rank of each fast row, without swap and memory rank; then of each minute row;
-- then one marker is added, with the numbers of rows. After each of the first two, the updated table
-- had as many rows as before it, and each had its rank as CPU rank and no swap and memory rank. From
-- version 6, the process tables that were there and the markers are as before, and the version is 6.
pub migrate_v5_to_v6-ok :
    (busy : Bool) (now_ms : ℤ) (w : World SchemaDb) (outcome : SchemaV6Outcome)
    → (migrate_v5_to_v6 busy now_ms w).0 ≡ ok outcome
    → Done now_ms outcome w.db (migrate_v5_to_v6 busy now_ms w).1.db
migrate_v5_to_v6-ok busy now_ms w outcome h =
    let m = migrate_v5_to_v6 busy now_ms w in
    Ends-ok (λ o. Done now_ms o w.db) (Back w.db) outcome m.0 m.1 h
      ((migrate-Triple busy now_ms w.db).holds w.db w.faults refl)

-- A migration from v5 that fails, at whichever statement or check, leaves the database as it was.
pub migrate_v5_to_v6-err :
    (busy : Bool) (now_ms : ℤ) (w : World SchemaDb) (e : StoreError)
    → (migrate_v5_to_v6 busy now_ms w).0 ≡ err e
    → (migrate_v5_to_v6 busy now_ms w).1.db ≡ w.db
migrate_v5_to_v6-err busy now_ms w e h =
    let m = migrate_v5_to_v6 busy now_ms w in
    Ends-err (λ o. Done now_ms o w.db) (Back w.db) e m.0 m.1 h
      ((migrate-Triple busy now_ms w.db).holds w.db w.faults refl)
