-- ===== src/Store/Triple.antt =====
-- What holds after an action, whichever statements fail: a condition for its result and one for its
-- error.
use tinytop.Prelude.{
  ◌≡◌, refl, Bool, true, false, List, [], ◌∷◌, StoreError, Result, ok, err, sqlx, if◌then◌else◌,
}
use mathlib.Core.Path.{subst}
use tinytop.Store.Exec.{World, Exec, sql, pure, raise, ◌>>=◌}

module _ {S : Type 0} where
  abbrev pub Ends :
      {A : Type 0} → Result A × World S → (A → S → Type 0) → (StoreError → S → Type 0) → Type 0
  Ends (ok a, w) Q E = Q a w.db
  Ends (err e, w) Q E = E e w.db

  -- From a database with `P` the action ends with `Q` of its result, or with `E` of its error.
  pub record Triple {A : Type 0} (P : S → Type 0) (m : Exec S A) (Q : A → S → Type 0)
      (E : StoreError → S → Type 0) : Type 0 where
    pub holds :
        (db : S) (faults : List Bool) → P db → Ends (m record { db = db; faults = faults }) Q E

  sql-at :
      {A : Type 0} {P : S → Type 0} (Q : A → S → Type 0) (E : StoreError → S → Type 0)
      (f : S → A × S)
      → ((db : S) → P db → Q (f db).0 (f db).1)
      → ((db : S) → P db → E sqlx db)
      → (db : S) (fs : List Bool) → P db
      → Ends (sql f record { db = db; faults = fs }) Q E
  sql-at Q E f q e db [] h = q db h
  sql-at Q E f q e db (true ∷ fs) h = e db h
  sql-at Q E f q e db (false ∷ fs) h = q db h

  module _ {A : Type 0} {P : S → Type 0} {Q : A → S → Type 0} {E : StoreError → S → Type 0} where
    pub sql-Triple :
        (f : S → A × S)
        → ((db : S) → P db → Q (f db).0 (f db).1)
        → ((db : S) → P db → E sqlx db)
        → Triple P (sql f) Q E
    sql-Triple f q e = record { holds = sql-at Q E f q e }

    pub pure-Triple : (a : A) → ((db : S) → P db → Q a db) → Triple P (pure a) Q E
    pure-Triple a q = record { holds = λ db fs h. q db h }

    pub raise-Triple : (x : StoreError) → ((db : S) → P db → E x db) → Triple P (raise x) Q E
    raise-Triple x e = record { holds = λ db fs h. e db h }

    pub if-Triple :
        (b : Bool) (m k : Exec S A)
        → (b ≡ true → Triple P m Q E)
        → (b ≡ false → Triple P k Q E)
        → Triple P (if b then m else k) Q E
    if-Triple true m k tm tk = tm refl
    if-Triple false m k tm tk = tk refl

    -- a condition that is not about the database
    pub given-Triple :
        {X : Type 0} (m : Exec S A) → (X → Triple P m Q E) → Triple (λ db. X × P db) m Q E
    given-Triple m k = record { holds = λ db fs h. (k h.0).holds db fs h.1 }

  after-Ends :
      {A B : Type 0} (R : A → S → Type 0) (Q : B → S → Type 0) (E : StoreError → S → Type 0)
      (f : A → Exec S B) (r : Result A) (w : World S)
      → ((a : A) → Triple (R a) (f a) Q E)
      → Ends (r, w) R E
      → Ends (elim r as (λ _. Result B × World S) [ ok a ↦ f a w | err e ↦ (err e, w) ]) Q E
  after-Ends R Q E f (ok a) w k h = (k a).holds w.db w.faults h
  after-Ends R Q E f (err e) w k h = h

  bind-at :
      {A B : Type 0} (R : A → S → Type 0) (Q : B → S → Type 0) (E : StoreError → S → Type 0)
      (m : Exec S A) (f : A → Exec S B) (w : World S)
      → Ends (m w) R E
      → ((a : A) → Triple (R a) (f a) Q E)
      → Ends ((m >>= f) w) Q E
  bind-at R Q E m f w h tf = after-Ends R Q E f (m w).0 (m w).1 tf h

  pub bind-Triple :
      {A B : Type 0} {P : S → Type 0} {R : A → S → Type 0} {Q : B → S → Type 0}
      {E : StoreError → S → Type 0} (m : Exec S A) (f : A → Exec S B)
      → Triple P m R E
      → ((a : A) → Triple (R a) (f a) Q E)
      → Triple P (m >>= f) Q E
  bind-Triple {R} {Q} {E} m f tm tf = record {
    holds = λ db fs h. bind-at R Q E m f record { db = db; faults = fs } (tm.holds db fs h) tf;
  }

-- what holds in both cases
pub Ends-either :
    {S A : Type 0} (P : S → Type 0) (Q : A → S → Type 0) (E : StoreError → S → Type 0)
    → ((a : A) (db : S) → Q a db → P db)
    → ((e : StoreError) (db : S) → E e db → P db)
    → (r : Result A) (w : World S) → Ends (r, w) Q E
    → P w.db
Ends-either P Q E q e (ok a) w h = q a w.db h
Ends-either P Q E q e (err x) w h = e x w.db h

err-injective : {A : Type 0} {x e : StoreError} → ◌≡◌ {A = Result A} (err x) (err e) → x ≡ e
err-injective h = cc

-- what holds of an error
pub Ends-err :
    {S A : Type 0} (Q : A → S → Type 0) (E : StoreError → S → Type 0) (e : StoreError)
    (r : Result A) (w : World S)
    → r ≡ err e
    → Ends (r, w) Q E
    → E e w.db
Ends-err Q E e (ok a) w h k = absurd (cc)
Ends-err {A} Q E e (err x) w h k = subst (λ y. E y w.db) (err-injective {A = A} h) k
