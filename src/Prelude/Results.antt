-- ===== src/Prelude/Results.antt =====
-- `StoreError` of agent/crates/tinytop-store/src/lib.rs, and results that carry it. The texts of
-- the messages are not modelled: a refusal names the field and the bounds that the text shows.
use mathlib.Core.Path.{◌≡◌, refl}
use mathlib.Core.Logic.{◌⊎◌, inl, inr}
use mathlib.Core.Bool.{Bool, true, false}
use mathlib.Core.List.{List}
use Prim.Native.String.{String}
use Prim.Native.Nat.{ℕ}
use tinytop.Prelude.Int.{ℤ}

-- the reason that a `StoreError::Validation` gives
pub data Reason : Type 0 where
  out_of_range : String → ℤ → ℤ → Reason
  not_one_of : String → Reason
  below_minimum : String → Reason
  out_of_order : String → String → Reason
  needs : String → String → Reason
  not_absolute : String → Reason
  malformed : String → Reason
  too_many : String → Reason
  duplicate : String → Reason
  reserved : String → Reason
  disk_pressure : ℤ → ℤ → Reason
  undecodable : Reason
  -- a key, in code points, that a document may not have
  unknown_key : List ℕ → Reason
  required_object : String → Reason
  required_integer : String → Reason
  -- a query parameter, in bytes
  bad_parameter : List ℕ → Reason
  too_new : ℤ → Reason
  too_old : ℤ → Reason

-- the step that a `StoreError::Archive` names
pub data ArchiveStep : Type 0 where
  create_directory open_file schema close_file acquire attach : ArchiveStep
  begin_copy select select_decode insert commit_copy : ArchiveStep
  verify begin_delete delete watermark commit_delete detach : ArchiveStep
  -- a step of the cold archive, whose name starts with "cold "
  cold : String → ArchiveStep

-- a table that the migration to schema v6 changes
pub data ProcessTables : Type 0 where
  fast_table minute_table : ProcessTables

-- the refusal of a `StoreError::Migration`
pub data Refusal : Type 0 where
  locked : Refusal
  unexpected_version : ℤ → Refusal
  unrecognised : ProcessTables → Refusal
  oversized : ProcessTables → Refusal
  statement_failed : Refusal
  unverified : ProcessTables → Refusal

pub data StoreError : Type 0 where
  validation : Reason → StoreError
  -- messages joined by "; "
  validations : List Reason → StoreError
  sqlx : StoreError
  serde : StoreError
  disk_check : StoreError
  integer_overflow : String → StoreError
  archive : ArchiveStep → StoreError
  migration : Refusal → StoreError

pub data Result {ℓ} (A : Type ℓ) : Type ℓ where
  ok : A → Result A
  err : StoreError → Result A

-- `?` on a result
infixl 5 ◌>>◌ ◌>>=◌
abbrev pub ◌>>=◌ : {A B : Type 0} → Result A → (A → Result B) → Result B
err reason >>= next = err reason
ok value >>= next = next value

-- `?` on a check that has no value
abbrev pub ◌>>◌ : {B : Type 0} → Result (Unit {0}) → Result B → Result B
err reason >> next = err reason
ok done >> next = next

-- an `if` that returns an error
abbrev pub refuse_if : Bool → Reason → Result (Unit {0})
refuse_if true r = err (validation r)
refuse_if false r = ok tt

pub Result-cases {ℓ} :
    {A : Type ℓ} (r : Result A) → ((a : A) × (r ≡ ok a)) ⊎ ((e : StoreError) × (r ≡ err e))
Result-cases (ok a) = inl (a, refl)
Result-cases (err e) = inr (e, refl)

-- A successful sequence is two successful steps.
pub >>-eq-ok : (m k : Result (Unit {0})) → (m >> k) ≡ ok tt → (m ≡ ok tt) × (k ≡ ok tt)
>>-eq-ok (ok tt) k h = (refl, h)
>>-eq-ok (err e) k h = cc
