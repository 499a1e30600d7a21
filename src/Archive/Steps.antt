-- ===== src/Archive/Steps.antt =====
-- Triples for the combinators of archive.rs.
use tinytop.Prelude.{
  List, Bool, StoreError, Result, ok, err, archive, ArchiveStep, detach, [], true, false, ◌∷◌, sqlx,
}
use tinytop.Store.Exec.{World, Exec, rollback}
use tinytop.Store.Triple.{Triple, Ends, sql-Triple}
use tinytop.Archive.Schema.{at, plain, logged}
use tinytop.Archive.Move.{or_rollback, from_here, detach_after}

module _ {S A : Type 0} where
  at-Ends :
      (Q : A → S → Type 0) (E : StoreError → S → Type 0) (step : ArchiveStep) (r : Result A)
      (w : World S)
      → Ends (r, w) Q (λ e. E (archive step))
      → Ends
          (elim r as (λ _. Result A × World S) [
            | ok a ↦ (ok a, w)
            | err e ↦ (err (archive step), w)
          ])
          Q
          E
  at-Ends Q E step (ok a) w h = h
  at-Ends Q E step (err e) w h = h

  rollback-Ends :
      (Q : A → S → Type 0) (E : StoreError → S → Type 0) (step : ArchiveStep) (before : S)
      (r : Result A) (w : World S)
      → E (archive step) before
      → Ends (r, w) Q (λ e d. Unit {0})
      → Ends
          (elim r as (λ _. Result A × World S) [
            | ok a ↦ (ok a, w)
            | err e ↦ rollback before (archive step) w
          ])
          Q
          E
  rollback-Ends Q E step before (ok a) w b h = h
  rollback-Ends Q E step before (err e) w b h = b

  detached-Ends :
      (Q : A → S → Type 0) (E : StoreError → S → Type 0)
      → ((a : A) (db : S) → Q a db → E (archive detach) db)
      → (r : Result A) (db : S) (fs : List Bool) → Ends (r, record { db = db; faults = fs }) Q E
      → Ends
          (detach_after (λ _. (r, record { db = db; faults = fs })) record { db = db; faults = fs })
          Q
          E
  detached-Ends Q E k (ok a) db [] h = h
  detached-Ends Q E k (ok a) db (true ∷ fs) h = k a db h
  detached-Ends Q E k (ok a) db (false ∷ fs) h = h
  detached-Ends Q E k (err e) db [] h = h
  detached-Ends Q E k (err e) db (true ∷ fs) h = h
  detached-Ends Q E k (err e) db (false ∷ fs) h = h

module _ {S A : Type 0} {P : S → Type 0} {Q : A → S → Type 0} {E : StoreError → S → Type 0} where
  pub at-Triple :
      (step : ArchiveStep) (m : Exec S A)
      → Triple P m Q (λ e. E (archive step))
      → Triple P (at step m) Q E
  at-Triple step m t = record {
    holds = λ db fs h.
        let w : World S = record { db = db; faults = fs } in
        at-Ends Q E step (m w).0 (m w).1 (t.holds db fs h);
  }

  pub or_rollback-Triple :
      (before : S) (step : ArchiveStep) (m : Exec S A)
      → E (archive step) before
      → Triple P m Q (λ e d. Unit {0})
      → Triple P (or_rollback before step m) Q E
  or_rollback-Triple before step m b t = record {
    holds = λ db fs h.
        let w : World S = record { db = db; faults = fs } in
        rollback-Ends Q E step before (m w).0 (m w).1 b (t.holds db fs h);
  }

  pub from_here-Triple :
      (f : S → Exec S A) → ((d : S) → P d → Triple P (f d) Q E) → Triple P (from_here f) Q E
  from_here-Triple f k = record { holds = λ db fs h. (k db h).holds db fs h }

  pub detach_after-Triple :
      (m : Exec S A)
      → ((a : A) (db : S) → Q a db → E (archive detach) db)
      → Triple P m Q E
      → Triple P (detach_after m) Q E
  detach_after-Triple m k t = record {
    holds = λ db fs h.
        let w : World S = record { db = db; faults = fs } in
        detached-Ends Q E k (m w).0 (m w).1.db (m w).1.faults (t.holds db fs h);
  }

module _ {S : Type 0} where
  logged-at :
      (Q : Unit {0} → S → Type 0) (E : StoreError → S → Type 0) (db : S) (fs : List Bool)
      → Q tt db
      → Ends (logged record { db = db; faults = fs }) Q E
  logged-at Q E db [] h = h
  logged-at Q E db (true ∷ fs) h = h
  logged-at Q E db (false ∷ fs) h = h

module _ {S : Type 0} {P : S → Type 0} {Q : Unit {0} → S → Type 0}
    {E : StoreError → S → Type 0} where
  pub plain-Triple :
      ((db : S) → P db → Q tt db) → ((db : S) → P db → E sqlx db) → Triple P (plain) Q E
  plain-Triple q e = sql-Triple (λ db. (tt, db)) q e

  pub logged-Triple : ((db : S) → P db → Q tt db) → Triple P (logged) Q E
  logged-Triple q = record { holds = λ db fs h. logged-at Q E db fs (q db h) }
