-- ===== src/Maintenance/Keeps.antt =====
-- Predicates on the database that actions and steps keep, whichever statements fail.
use tinytop.Prelude.Int.{ℤ}
use tinytop.Prelude.{
  sqlx, ◌≡◌, refl, Bool, true, false, ◌⊎◌, inl, inr, Option, none, List, [], ◌∷◌, if◌then◌else◌,
  Result, ok, err,
}
use tinytop.Store.Exec.{World, Exec, sql, transaction, close_transaction, ◌>>=◌}
use tinytop.Store.Rows.{Db}
use tinytop.Maintenance.Defs.{
  MaintenanceReport, Progress, Step, attempt, ◌then◌, skip, record_step_error, read_watermark,
}
use tinytop.Maintenance.Promote.{Watermark, l3_folded_until_ms, l4_folded_until_ms, get_watermark}

module _ {F : Type 0} (P : Db F → Type 0) where
  abbrev pub Keeps : {A : Type 0} → Exec (Db F) A → Type 0
  Keeps m = (w : World (Db F)) → P w.db → P (m w).1.db

  abbrev pub StepKeeps : Step F → Type 0
  StepKeeps s = (p : Progress) (w : World (Db F)) → P w.db → P (s p w).1.db

  module _ {A : Type 0} where
    run_sql-Keeps :
        (f : Db F → A × Db F) (db : Db F) (faults : List Bool)
        → ((db : Db F) → P db → P (f db).1)
        → P db
        → P (sql f record { db = db; faults = faults }).1.db
    run_sql-Keeps f db [] k h = k db h
    run_sql-Keeps f db (true ∷ fs) k h = h
    run_sql-Keeps f db (false ∷ fs) k h = k db h

    pub sql-Keeps : (f : Db F → A × Db F) → ((db : Db F) → P db → P (f db).1) → Keeps (sql f)
    sql-Keeps f k w h = run_sql-Keeps f w.db w.faults k h

    after-Keeps :
        {B : Type 0} (f : A → Exec (Db F) B) (r : Result A) (w : World (Db F))
        → ((a : A) → Keeps (f a))
        → P w.db
        → P (elim r as (λ _. Result B × World (Db F)) [ ok a ↦ f a w | err e ↦ (err e, w) ]).1.db
    after-Keeps f (ok a) w kf h = kf a w h
    after-Keeps f (err e) w kf h = h

    pub bind-Keeps :
        {B : Type 0} (m : Exec (Db F) A) (f : A → Exec (Db F) B)
        → Keeps m
        → ((a : A) → Keeps (f a))
        → Keeps (m >>= f)
    bind-Keeps m f km kf w h = after-Keeps f (m w).0 (m w).1 kf (km w h)

    close-Keeps :
        (before : Db F) (r : Result A) (db : Db F) (faults : List Bool)
        → P before
        → P db
        → P (close_transaction before r record { db = db; faults = faults }).1.db
    close-Keeps before (err e) db fs b h = b
    close-Keeps before (ok a) db [] b h = h
    close-Keeps before (ok a) db (true ∷ fs) b h = b
    close-Keeps before (ok a) db (false ∷ fs) b h = h

    begin-Keeps :
        (m : Exec (Db F) A) (db : Db F) (faults : List Bool)
        → Keeps m
        → P db
        → P (transaction m record { db = db; faults = faults }).1.db
    begin-Keeps m db [] km h =
        let w : World (Db F) = record { db = db; faults = [] } in
        close-Keeps db (m w).0 (m w).1.db (m w).1.faults h (km w h)
    begin-Keeps m db (true ∷ fs) km h = h
    begin-Keeps m db (false ∷ fs) km h =
        let w : World (Db F) = record { db = db; faults = fs } in
        close-Keeps db (m w).0 (m w).1.db (m w).1.faults h (km w h)

    pub transaction-Keeps : (m : Exec (Db F) A) → Keeps m → Keeps (transaction m)
    transaction-Keeps m km w h = begin-Keeps m w.db w.faults km h

    noted-Keeps :
        (note : A → MaintenanceReport → MaintenanceReport) (r : Result A) (p : Progress)
        (w : World (Db F))
        → P w.db
        → P
            (elim r as (λ _. Progress × World (Db F)) [
              | ok a ↦ (record p { report = note a p.report }, w)
              | err e ↦ (record_step_error e p, w)
            ]).1.db
    noted-Keeps note (ok a) p w h = h
    noted-Keeps note (err e) p w h = h

    pub attempt-Keeps :
        (m : Exec (Db F) A) (note : A → MaintenanceReport → MaintenanceReport)
        → Keeps m
        → StepKeeps (attempt m note)
    unfolding attempt
    attempt-Keeps m note km p w h = noted-Keeps note (m w).0 p (m w).1 (km w h)

  pub if-Keeps :
      {A : Type 0} (b : Bool) (m k : Exec (Db F) A) → Keeps m → Keeps k → Keeps (if b then m else k)
  if-Keeps true m k km kk = km
  if-Keeps false m k km kk = kk

  pub if-StepKeeps :
      (b : Bool) (s t : Step F) → StepKeeps s → StepKeeps t → StepKeeps (if b then s else t)
  if-StepKeeps true s t ks kt = ks
  if-StepKeeps false s t ks kt = kt

  pub then-Keeps : (s t : Step F) → StepKeeps s → StepKeeps t → StepKeeps (s then t)
  then-Keeps s t ks kt p w h = kt (s p w).0 (s p w).1 (ks p w h)

  pub skip-Keeps : StepKeeps skip
  skip-Keeps p w h = h

  read-at :
      (key : Watermark) (next : Option ℤ → Step F)
      → ((v : Option ℤ) → StepKeeps (next v))
      → (p : Progress) (db : Db F) (fs : List Bool) → P db
      → P (read_watermark key next p record { db = db; faults = fs }).1.db
  unfolding read_watermark get_watermark
  read-at l3_folded_until_ms next k p db [] h =
      k db.l3_folded_until_ms p record { db = db; faults = [] } h
  read-at l3_folded_until_ms next k p db (false ∷ fs) h =
      k db.l3_folded_until_ms p record { db = db; faults = fs } h
  read-at l3_folded_until_ms next k p db (true ∷ fs) h =
      k none (record_step_error sqlx p) record { db = db; faults = fs } h
  read-at l4_folded_until_ms next k p db [] h =
      k db.l4_folded_until_ms p record { db = db; faults = [] } h
  read-at l4_folded_until_ms next k p db (false ∷ fs) h =
      k db.l4_folded_until_ms p record { db = db; faults = fs } h
  read-at l4_folded_until_ms next k p db (true ∷ fs) h =
      k none (record_step_error sqlx p) record { db = db; faults = fs } h

  pub read-Keeps :
      (key : Watermark) (next : Option ℤ → Step F)
      → ((v : Option ℤ) → StepKeeps (next v))
      → StepKeeps (read_watermark key next)
  read-Keeps key next k p w h = read-at key next k p w.db w.faults h

  -- a step after a read of a watermark gets its value, or nothing when the read fails
  module _ (Q : Db F → Type 0) (next : Option ℤ → Step F) where
    pub read_l3-Takes :
        (value : Option ℤ)
        → ((db : Db F) → P db → db.l3_folded_until_ms ≡ value)
        → ((v : Option ℤ)
            → (v ≡ none) ⊎ (v ≡ value)
            → (p : Progress) (w : World (Db F)) → P w.db
            → Q (next v p w).1.db)
        → (p : Progress) (db : Db F) (fs : List Bool) → P db
        → Q (read_watermark l3_folded_until_ms next p record { db = db; faults = fs }).1.db
    unfolding read_watermark get_watermark
    read_l3-Takes value known k p db [] h =
        k db.l3_folded_until_ms (inr (known db h)) p record { db = db; faults = [] } h
    read_l3-Takes value known k p db (false ∷ fs) h =
        k db.l3_folded_until_ms (inr (known db h)) p record { db = db; faults = fs } h
    read_l3-Takes value known k p db (true ∷ fs) h =
        k none (inl refl) (record_step_error sqlx p) record { db = db; faults = fs } h

    pub read_l4-Takes :
        (value : Option ℤ)
        → ((db : Db F) → P db → db.l4_folded_until_ms ≡ value)
        → ((v : Option ℤ)
            → (v ≡ none) ⊎ (v ≡ value)
            → (p : Progress) (w : World (Db F)) → P w.db
            → Q (next v p w).1.db)
        → (p : Progress) (db : Db F) (fs : List Bool) → P db
        → Q (read_watermark l4_folded_until_ms next p record { db = db; faults = fs }).1.db
    unfolding read_watermark get_watermark
    read_l4-Takes value known k p db [] h =
        k db.l4_folded_until_ms (inr (known db h)) p record { db = db; faults = [] } h
    read_l4-Takes value known k p db (false ∷ fs) h =
        k db.l4_folded_until_ms (inr (known db h)) p record { db = db; faults = fs } h
    read_l4-Takes value known k p db (true ∷ fs) h =
        k none (inl refl) (record_step_error sqlx p) record { db = db; faults = fs } h
