-- ===== src/Prelude/Lists.antt =====
-- Lists measured by native numbers, under the library's names, and predicates over lists.
use Prim.Native.Nat.{ℕ, zero, suc, ◌+◌, ◌≤◌, min}
use mathlib.Core.Path.{◌≡◌, refl}
use mathlib.Core.Bool.{Bool, true, false, ◌&&◌, ◌||◌}
use mathlib.Core.List.{List, [], ◌∷◌, ◌++◌}
use mathlib.Core.Option.{Option, none, some}
use native.Mathlib.Omega.{arith}
use mathlib.Core.Logic.{◌⊎◌, inl, inr}
use tinytop.Prelude.Tests.{if◌then◌else◌, Bool-cases}

module _ {ℓ} {A : Type ℓ} where
  abbrev pub length : List A → ℕ
  length [] = 0
  length (x ∷ xs) = suc (length xs)

  abbrev pub take : ℕ → List A → List A
  take zero xs = []
  take (suc n) [] = []
  take (suc n) (x ∷ xs) = x ∷ take n xs

  abbrev pub keep_if : (A → Bool) → List A → List A
  keep_if p [] = []
  keep_if p (x ∷ xs) = if p x then x ∷ keep_if p xs else keep_if p xs

  abbrev pub any_of : (A → Bool) → List A → Bool
  any_of p [] = false
  any_of p (x ∷ xs) = p x || any_of p xs

  abbrev pub all_of : (A → Bool) → List A → Bool
  all_of p [] = true
  all_of p (x ∷ xs) = p x && all_of p xs

  abbrev pub head : List A → Option A
  head [] = none
  head (x ∷ xs) = some x

  pub length-append : (xs ys : List A) → length (xs ++ ys) ≡ length xs + length ys
  length-append [] ys = omega arith
  length-append (x ∷ xs) ys = omega (arith, length-append xs ys)

  pub length-keep_if : (p : A → Bool) (xs : List A) → length (keep_if p xs) ≤ length xs
  length-keep_if p [] = omega arith
  length-keep_if p (x ∷ xs) = ground (arith, length-keep_if p xs)

  pub length-take : (n : ℕ) (xs : List A) → length (take n xs) ≡ min n (length xs)
  length-take zero xs = omega arith
  length-take (suc n) [] = omega arith
  length-take (suc n) (x ∷ xs) = omega (arith, length-take n xs)

-- `iter.fold(u, op)` over one type
abbrev pub fold_from {ℓ} : {A : Type ℓ} → (A → A → A) → A → List A → A
fold_from op u [] = u
fold_from op u (x ∷ xs) = fold_from op (op u x) xs

abbrev pub concat {ℓ} : {A : Type ℓ} → List (List A) → List A
concat [] = []
concat (xs ∷ xss) = xs ++ concat xss

-- `iter.min()` and `iter.max()` of a list with a first element: `reduce`
abbrev pub reduce {ℓ} : {A : Type ℓ} → (A → A → A) → List A → Option A
reduce op [] = none
reduce op (x ∷ xs) = some (fold_from op x xs)

module _ {ℓ} {A : Type ℓ} (op : A → A → A)
    (assoc : (a b c : A) → op (op a b) c ≡ op a (op b c)) where
  pub fold_from-append :
      (u : A) (xs ys : List A) → fold_from op u (xs ++ ys) ≡ fold_from op (fold_from op u xs) ys
  fold_from-append u [] ys = refl
  fold_from-append u (x ∷ xs) ys = fold_from-append (op u x) xs ys

  -- the start can be combined last, with a rest that is not empty
  pub fold_from-cons : (u x : A) (xs : List A) → fold_from op (op u x) xs ≡ op u (fold_from op x xs)
  fold_from-cons u x [] = refl
  fold_from-cons u x (y ∷ ys) = rw (assoc u x y) (fold_from-cons u (op x y) ys)

-- a predicate at every element
abbrev pub All {ℓ κ} : {A : Type ℓ} (P : A → Type κ) (items : List A) → Type κ
All P [] = Unit
All P (item ∷ items) = P item × All P items

module _ {A : Type 0} where
  abbrev pub Listed : A → List A → Type 0
  Listed x [] = ⊥
  Listed x (y ∷ ys) = (x ≡ y) ⊎ Listed x ys

  pub Listed-keep_if :
      (p : A → Bool) (x : A) (xs : List A) → Listed x (keep_if p xs) → (p x ≡ true) × Listed x xs
  Listed-keep_if p x [] l = absurd l
  Listed-keep_if p x (y ∷ ys) l = elim (Bool-cases (p y)) [
    | inl e ↦ ground (arith, Listed-keep_if p x ys)
    | inr e ↦ ground (arith, Listed-keep_if p x ys)
  ]

  pub keep_if-Listed :
      (p : A → Bool) (x : A) (xs : List A) → p x ≡ true → Listed x xs → Listed x (keep_if p xs)
  keep_if-Listed p x [] e l = absurd l
  keep_if-Listed p x (y ∷ ys) e l = elim (Bool-cases (p y)) [
    | inl b ↦ ground (arith, keep_if-Listed p x ys)
    | inr b ↦ ground (arith, keep_if-Listed p x ys)
  ]
