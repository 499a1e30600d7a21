-- ===== src/Tiers/Reduce.antt =====
-- Folds of lists of lists: folding the groups and then their results is folding all at once.
use mathlib.Core.List.{map-append}
use tinytop.Prelude.{
  ◌≡◌, refl, sym, ap, ◌∙◌, Option, none, some, reduce, List, [], ◌∷◌, ◌++◌, map, fold_from,
  fold_from-cons, fold_from-append, concat,
}

-- A fold from a start that the operation absorbs: the folds of groups fold to the fold of all.
module _ {A : Type 0} (op : A → A → A) (u : A) (assoc : (a b c : A) → op (op a b) c ≡ op a (op b c))
    (comm : (a b : A) → op a b ≡ op b a) (start : op u u ≡ u) where
  absorbs : (xs : List A) → op u (fold_from op u xs) ≡ fold_from op u xs
  absorbs xs = sym (fold_from-cons op assoc u u xs) ∙ ap (λ a. fold_from op a xs) start

  fold_from_split :
      (xs ys : List A) → fold_from op u (xs ++ ys) ≡ op (fold_from op u xs) (fold_from op u ys)
  fold_from_split xs ys = rw (fold_from-append op assoc u xs ys) (
      ap (λ a. fold_from op a ys) (sym (comm (fold_from op u xs) u ∙ absorbs xs))
      ∙ fold_from-cons op assoc (fold_from op u xs) u ys)

  pub fold_from-concat :
      (xss : List (List A))
      → fold_from op u (map (fold_from op u) xss) ≡ fold_from op u (concat xss)
  fold_from-concat [] = refl
  fold_from-concat (xs ∷ xss) =
      let rest = map (fold_from op u) xss in
      rw (fold_from_split xs (concat xss)) (
        rw (← fold_from-concat xss) (
          ap (λ a. fold_from op a rest) (absorbs xs ∙ sym (comm (fold_from op u xs) u ∙ absorbs xs))
          ∙ fold_from-cons op assoc (fold_from op u xs) u rest))

-- `reduce` puts a first element before what the rest gives.
abbrev pub combine : {A : Type 0} → (A → A → A) → A → Option A → Option A
combine op a none = some a
combine op a (some b) = some (op a b)

module _ {A : Type 0} (op : A → A → A) (assoc : (a b c : A) → op (op a b) c ≡ op a (op b c)) where
  pub reduce-cons : (x : A) (xs : List A) → reduce op (x ∷ xs) ≡ combine op x (reduce op xs)
  reduce-cons x [] = refl
  reduce-cons x (y ∷ ys) = ap some (fold_from-cons op assoc x y ys)

  pub reduce-append :
      (x : A) (xs ys : List A)
      → reduce op (x ∷ (xs ++ ys)) ≡ combine op (fold_from op x xs) (reduce op ys)
  reduce-append x xs [] = ap some (fold_from-append op assoc x xs [])
  reduce-append x xs (y ∷ ys) =
      ap some
        (fold_from-append op assoc x xs (y ∷ ys) ∙ fold_from-cons op assoc (fold_from op x xs) y ys)

pub map-concat :
    {A B : Type 0} (f : A → B) (xss : List (List A)) → map f (concat xss) ≡ concat (map (map f) xss)
map-concat f [] = refl
map-concat f (xs ∷ xss) = simp (map-append, map-concat f xss)

pub map-map :
    {A B C : Type 0} (f : B → C) (g : A → B) (xs : List A)
    → map f (map g xs) ≡ map (λ x. f (g x)) xs
map-map f g [] = refl
map-map f g (x ∷ xs) = simp (map-map f g xs)
