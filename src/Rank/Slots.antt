-- ===== src/Rank/Slots.antt =====
-- What is taken from the slots of `rank_processes`.
use tinytop.Prelude.{
  ℕ, zero, suc, ◌-◌, ◌≤◌, ◌≡◌, ◌≢◌, ◌∙◌, refl, ap, Option, none, some, List, [], ◌∷◌, ◌++◌, map,
  length, All, arith,
}
use tinytop.Rank.Defs.{
  ProcessSnapshot, enumerate_from, change_slot, set_ranks, get_slot, empty_slot, prepend, take_all,
  without_ranks,
}
use tinytop.Rank.Sorting.{AreDistinct}

pub All-imp :
    {A : Type 0} (P Q : A → Type 0) → ((a : A) → P a → Q a) → (xs : List A) → All P xs → All Q xs
All-imp P Q k [] h = tt
All-imp P Q k (x ∷ xs) h = (k x h.0, All-imp P Q k xs h.1)

All-both :
    {A : Type 0} (P Q R : A → Type 0)
    → ((a : A) → P a → Q a → R a)
    → (xs : List A) → All P xs
    → All Q xs
    → All R xs
All-both P Q R k [] h g = tt
All-both P Q R k (x ∷ xs) h g = (k x h.0 g.0, All-both P Q R k xs h.1 g.1)

pub get_slot-empty_slot :
    {A : Type 0} (i j : ℕ) (slots : List (Option A))
    → j ≢ i
    → get_slot j (empty_slot i slots) ≡ get_slot j slots
unfolding get_slot empty_slot
get_slot-empty_slot i j [] n = refl
get_slot-empty_slot zero zero (s ∷ slots) n = absurd (n refl)
get_slot-empty_slot zero (suc j) (s ∷ slots) n = refl
get_slot-empty_slot (suc i) zero (s ∷ slots) n = refl
get_slot-empty_slot (suc i) (suc j) (s ∷ slots) n =
    get_slot-empty_slot i j slots (λ e. n (ap suc e))

length-prepend : {A : Type 0} (o : Option A) (xs : List A) → length (prepend o xs) ≤ suc (length xs)
length-prepend none xs = omega arith
length-prepend (some x) xs = omega arith

length-take_all :
    {A : Type 0} (is : List ℕ) (slots : List (Option A)) → length (take_all is slots) ≤ length is
unfolding take_all
length-take_all [] slots = omega arith
length-take_all (i ∷ is) slots = omega (
  arith,
  length-prepend (get_slot i slots) (take_all is (empty_slot i slots)),
  length-take_all is (empty_slot i slots),
)

prepend-append :
    {A : Type 0} (o : Option A) (xs ys : List A) → prepend o (xs ++ ys) ≡ prepend o xs ++ ys
prepend-append none xs ys = refl
prepend-append (some x) xs ys = refl

-- what follows the first indices is no longer than the indices that follow
pub take_all-append :
    {A : Type 0} (is js : List ℕ) (slots : List (Option A))
    → (rest : List A) × (take_all (is ++ js) slots ≡ take_all is slots ++ rest)
      × (length rest ≤ length js)
unfolding take_all
take_all-append [] js slots = (take_all js slots, refl, length-take_all js slots)
take_all-append (i ∷ is) js slots =
    let (rest, e, l) = take_all-append is js (empty_slot i slots) in
    (
      rest,
      ap (prepend (get_slot i slots)) e
          ∙ prepend-append (get_slot i slots) (take_all is (empty_slot i slots)) rest,
      l,
    )

module _ {F : Type 0} where
  abbrev pub pid_of : Option (ProcessSnapshot F) → Option ℕ
  pid_of none = none
  pid_of (some p) = some p.pid

  -- the slot of an entry holds its process
  abbrev pub Holds : List (Option (ProcessSnapshot F)) → ℕ × (ProcessSnapshot F) → Type 0
  Holds slots e = pid_of (get_slot e.0 slots) ≡ some e.1.pid

  pid_of-change_slot :
      (f : (ProcessSnapshot F) → (ProcessSnapshot F))
      → ((p : (ProcessSnapshot F)) → (f p).pid ≡ p.pid)
      → (i j : ℕ) (slots : List (Option (ProcessSnapshot F)))
      → pid_of (get_slot j (change_slot f i slots)) ≡ pid_of (get_slot j slots)
  unfolding get_slot change_slot
  pid_of-change_slot f k i j [] = refl
  pid_of-change_slot f k zero zero (none ∷ slots) = refl
  pid_of-change_slot f k zero zero (some p ∷ slots) = ap some (k p)
  pid_of-change_slot f k zero (suc j) (none ∷ slots) = refl
  pid_of-change_slot f k zero (suc j) (some p ∷ slots) = refl
  pid_of-change_slot f k (suc i) zero (s ∷ slots) = refl
  pid_of-change_slot f k (suc i) (suc j) (s ∷ slots) = pid_of-change_slot f k i j slots

  pub pid_of-set_ranks :
      (set : ℕ → (ProcessSnapshot F) → (ProcessSnapshot F))
      → ((r : ℕ) (p : (ProcessSnapshot F)) → (set r p).pid ≡ p.pid)
      → (rank : ℕ) (is : List ℕ) (j : ℕ) (slots : List (Option (ProcessSnapshot F)))
      → pid_of (get_slot j (set_ranks set rank is slots)) ≡ pid_of (get_slot j slots)
  unfolding set_ranks
  pid_of-set_ranks set k rank [] j slots = refl
  pid_of-set_ranks set k rank (i ∷ is) j slots =
      pid_of-set_ranks set k (suc rank) is j (change_slot (set rank) i slots)
      ∙ pid_of-change_slot (set rank) (k rank) i j slots

  -- the slots that are taken, in the order of the entries
  pub map-take_all :
      (es : List (ℕ × (ProcessSnapshot F))) (slots : List (Option (ProcessSnapshot F)))
      → AreDistinct es
      → All (Holds slots) es
      → map (λ p. p.pid) (take_all (map (λ e. e.0) es) slots) ≡ map (λ e. e.1.pid) es
  unfolding take_all
  map-take_all [] slots d h = refl
  map-take_all (e ∷ es) slots d h = first (get_slot e.0 slots) h.0 (
      map-take_all es (empty_slot e.0 slots) d.1 (
        All-both (λ c. c.0 ≢ e.0) (Holds slots) (Holds (empty_slot e.0 slots))
          (λ c n p. ap pid_of (get_slot-empty_slot e.0 c.0 slots n) ∙ p) es d.0 h.1))
    where
      first :
          (o : Option (ProcessSnapshot F))
          → pid_of o ≡ some e.1.pid
          → (map (λ p. p.pid) (take_all (map (λ e. e.0) es) (empty_slot e.0 slots))
              ≡ map (λ e. e.1.pid) es)
          → map (λ p. p.pid) (prepend o (take_all (map (λ e. e.0) es) (empty_slot e.0 slots)))
            ≡ e.1.pid ∷ map (λ e. e.1.pid) es
      first none p ih = cc
      first (some x) p ih = cc

  -- from an index on, the slots of a list hold its elements
  abbrev pub From : ℕ → List (Option (ProcessSnapshot F)) → ℕ × (ProcessSnapshot F) → Type 0
  From k slots e = (k ≤ e.0) × (pid_of (get_slot (e.0 - k) slots) ≡ some e.1.pid)

  From-suc :
      (k : ℕ) (s : Option (ProcessSnapshot F)) (slots : List (Option (ProcessSnapshot F)))
      (e : ℕ × (ProcessSnapshot F))
      → From (suc k) slots e
      → From k (s ∷ slots) e
  unfolding get_slot
  From-suc k s slots e (l, p) =
      let n : e.0 - k ≡ suc (e.0 - suc k) = omega arith in
      (omega arith, ap (λ i. pid_of (get_slot i (s ∷ slots))) n ∙ p)

  pub enumerate_from-From :
      (k : ℕ) (ps : List (ProcessSnapshot F))
      → All (From k (map (λ p. some (without_ranks p)) ps)) (enumerate_from k ps)
  unfolding enumerate_from get_slot without_ranks
  enumerate_from-From k [] = tt
  enumerate_from-From k (p ∷ ps) =
      let slots = map (λ p. some (without_ranks p)) ps in
      let n : k - k ≡ 0 = omega arith in
      (
        (omega arith, ap (λ i. pid_of (get_slot i (some (without_ranks p) ∷ slots))) n),
        All-imp (From (suc k) slots) (From k (some (without_ranks p) ∷ slots))
            (From-suc k (some (without_ranks p)) slots) (enumerate_from (suc k) ps)
            (enumerate_from-From (suc k) ps),
      )
