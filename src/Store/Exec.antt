-- ===== src/Store/Exec.antt =====
-- Actions on the database. Each statement may fail by a fault that the environment chooses; a
-- statement that fails changes nothing, as SQLite promises.
use tinytop.Prelude.{
  ◌≡◌, Bool, true, false, ◌⊎◌, inl, inr, List, [], ◌∷◌, StoreError, Result, Result-cases, ok, err,
  sqlx, arith,
}

-- the database, and whether each later statement fails; past the end of the list none does
pub record World {ℓ} (S : Type ℓ) : Type ℓ where
  pub db : S
  pub faults : List Bool

abbrev pub Exec : Type 0 → Type 0 → Type 0
Exec S A = World S → Result A × World S

module _ {S A : Type 0} where
  abbrev pub pure : A → Exec S A
  pure a w = (ok a, w)

  abbrev pub raise : StoreError → Exec S A
  raise e w = (err e, w)

  abbrev pub lift : Result A → Exec S A
  lift r w = (r, w)

  abbrev run_sql : (S → A × S) → S → List Bool → Result A × World S
  run_sql f db [] = (ok (f db).0, record { db = (f db).1; faults = [] })
  run_sql f db (true ∷ rest) = (err sqlx, record { db = db; faults = rest })
  run_sql f db (false ∷ rest) = (ok (f db).0, record { db = (f db).1; faults = rest })

  -- one statement
  abbrev pub sql : (S → A × S) → Exec S A
  sql f w = run_sql f w.db w.faults

infixl 5 ◌>>=◌ ◌>>◌
abbrev pub ◌>>=◌ : {S A B : Type 0} → Exec S A → (A → Exec S B) → Exec S B
◌>>=◌ m f w = let (r, w') = m w in elim r [ ok a ↦ f a w' | err e ↦ (err e, w') ]

abbrev pub ◌>>◌ : {S B : Type 0} → Exec S (Unit {0}) → Exec S B → Exec S B
m >> k = m >>= λ _. k

abbrev pub query : {S A : Type 0} → (S → A) → Exec S A
query f = sql (λ db. (f db, db))

abbrev pub update : {S : Type 0} → (S → S) → Exec S (Unit {0})
update f = sql (λ db. (tt, f db))

abbrev tail : List Bool → List Bool
tail [] = []
tail (f ∷ fs) = fs

-- `ROLLBACK`: that it fails is only logged, and what was not committed is gone all the same
abbrev pub rollback : {S A : Type 0} → S → StoreError → World S → Result A × World S
rollback before e w = (err e, record { db = before; faults = tail w.faults })

-- `COMMIT`, or `ROLLBACK` to the database that the transaction began with
abbrev pub close_transaction : {S A : Type 0} → S → Result A → World S → Result A × World S
close_transaction before (err e) w = rollback before e w
close_transaction before (ok a) w =
    let (r, w') = update (λ db. db) w in elim r [ ok _ ↦ (ok a, w') | err e ↦ rollback before e w' ]

-- `BEGIN IMMEDIATE`, the body, and the end
abbrev pub transaction : {S A : Type 0} → Exec S A → Exec S A
transaction body w =
    let (r, w') = update (λ db. db) w in
    elim r [
      | ok _ ↦ let (result, w'') = body w' in close_transaction w.db result w''
      | err e ↦ (err e, w')
    ]

-- A transaction that fails leaves the database as it was.
pub transaction_atomic :
    {S A : Type 0} (body : Exec S A) (w : World S) (e : StoreError)
    → (transaction body w).0 ≡ err e
    → (transaction body w).1.db ≡ w.db
transaction_atomic body w e h = ground arith

module _ {S A : Type 0} where
  -- A successful sequence is two successful actions.
  pub >>=-eq-ok :
      {B : Type 0} (m : Exec S A) (f : A → Exec S B) (w : World S) (b : B)
      → ((m >>= f) w).0 ≡ ok b
      → (a : A) × ((m w).0 ≡ ok a) × ((f a (m w).1).0 ≡ ok b) × (((m >>= f) w).1 ≡ (f a (m w).1).1)
  >>=-eq-ok m f w b h = elim (Result-cases (m w).0) [
    | inl (a, e) ↦ (a, e, ground arith, ground arith)
    | inr (x, e) ↦ absurd (ground arith)
  ]

  -- after a successful action the rest runs
  pub >>=-of_ok :
      {B : Type 0} (m : Exec S A) (f : A → Exec S B) (w : World S) (a : A)
      → (m w).0 ≡ ok a
      → (m >>= f) w ≡ f a (m w).1
  >>=-of_ok m f w a h = ground arith

  -- after a failure it does not
  pub >>=-of_err :
      {B : Type 0} (m : Exec S A) (f : A → Exec S B) (w : World S) (e : StoreError)
      → (m w).0 ≡ err e
      → (m >>= f) w ≡ (err e, (m w).1)
  >>=-of_err m f w e h = ground arith

  -- A sequence that fails fails in its first action, or in its second one.
  pub >>=-eq-err :
      {B : Type 0} (m : Exec S A) (f : A → Exec S B) (w : World S) (e : StoreError)
      → ((m >>= f) w).0 ≡ err e
      → (((m w).0 ≡ err e) × (((m >>= f) w).1 ≡ (m w).1))
        ⊎ ((a : A) × ((m w).0 ≡ ok a)
            × ((f a (m w).1).0 ≡ err e)
            × (((m >>= f) w).1 ≡ (f a (m w).1).1))
  >>=-eq-err m f w e h = elim (Result-cases (m w).0) [
    | inl (a, k) ↦ inr (a, k, ground arith, ground arith)
    | inr (x, k) ↦ inl (ground arith, ground arith)
  ]

  -- A committed transaction ran its body on the database that it began with, and leaves what the
  -- body left.
  pub transaction-ok :
      (body : Exec S A) (w : World S) (a : A)
      → (transaction body w).0 ≡ ok a
      → (w' : World S) × (w'.db ≡ w.db)
        × ((body w').0 ≡ ok a)
        × ((transaction body w).1.db ≡ (body w').1.db)
  transaction-ok body w a h = ((update (λ db. db) w).1, ground arith, ground arith, ground arith)
