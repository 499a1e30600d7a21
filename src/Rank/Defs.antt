-- ===== src/Rank/Defs.antt =====
-- `rank_processes` of process_rank.rs. The operations on `f64` are a parameter.
use Prim.Native.Nat.{compare, Ordering}
use tinytop.Prelude.{
  ℕ, zero, suc, ◌+◌, Bool, true, false, Option, none, some, List, [], ◌∷◌, ◌++◌, map, min, max,
  take, unwrap_or, if◌then◌else◌,
}
use tinytop.Prelude.Text.{Text}
use tinytop.Prelude.Sort.{sort_by}

-- `f64::is_nan`, `f64::NEG_INFINITY`, `+ 0.0` and `f64::total_cmp`
pub record CpuFloat (F : Type 0) : Type 0 where
  pub is_nan : F → Bool
  pub neg_infinity : F
  pub plus_zero : F → F
  pub total_cmp : F → F → Ordering

-- `ProcessSnapshot` of tinytop-types
pub record ProcessSnapshot (F : Type 0) : Type 0 where
  pub pid : ℕ
  pub command : Text
  pub cpu_percent : F
  pub memory_percent : F
  pub rss_bytes : ℕ
  pub parent_pid : Option ℕ
  pub started_at : Option Text
  pub gpu_percent : Option F
  pub swap_bytes : Option ℕ
  pub cpu_rank : Option ℕ
  pub memory_rank : Option ℕ

-- `Ordering::then_with`
unfoldable pub then_with : Ordering → Ordering → Ordering
then_with first second = elim first [ Ordering.eq ↦ second | other ↦ other ]

-- the order of a comparison allows the first element to come first
unfoldable pub not_greater : Ordering → Bool
not_greater o = elim o [ Ordering.gt ↦ false | _ ↦ true ]

unfoldable pub memory_footprint_bytes : {F : Type 0} → ProcessSnapshot F → ℕ
memory_footprint_bytes process =
    min (process.rss_bytes + unwrap_or 0 process.swap_bytes) 18_446_744_073_709_551_615

module _ {F : Type 0} (fl : CpuFloat F) where
  unfoldable pub cpu_key : ProcessSnapshot F → F
  cpu_key process =
      if fl.is_nan process.cpu_percent then fl.neg_infinity else fl.plus_zero process.cpu_percent

  unfoldable pub cpu_order : ProcessSnapshot F → ProcessSnapshot F → Ordering
  unfolding cpu_key memory_footprint_bytes then_with
  cpu_order left right = then_with (fl.total_cmp (cpu_key right) (cpu_key left)) (
      then_with (compare (memory_footprint_bytes right) (memory_footprint_bytes left))
        (compare left.pid right.pid))

  unfoldable pub memory_order : ProcessSnapshot F → ProcessSnapshot F → Ordering
  unfolding cpu_key memory_footprint_bytes then_with
  memory_order left right =
      then_with (compare (memory_footprint_bytes right) (memory_footprint_bytes left))
        (then_with (fl.total_cmp (cpu_key right) (cpu_key left)) (compare left.pid right.pid))

-- `u32::try_from(rank).unwrap_or(u32::MAX)`
unfoldable pub rank_value : ℕ → ℕ
rank_value rank = min rank 4_294_967_295

-- the indices of a list, each with the element that it points to
unfoldable pub enumerate_from {ℓ} : {A : Type ℓ} → ℕ → List A → List (ℕ × A)
enumerate_from i [] = []
enumerate_from i (x ∷ xs) = (i, x) ∷ enumerate_from (suc i) xs

module _ {A : Type 0} where
  -- the best indices of a list
  unfoldable pub best : (A → A → Ordering) → ℕ → List A → List (ℕ × A)
  unfolding sort_by not_greater enumerate_from
  best order count candidates =
      take count (sort_by (λ l r. not_greater (order l.1 r.1)) (enumerate_from 0 candidates))

  -- `if let Some(process) = &mut slots[index] { … }`
  unfoldable pub change_slot : (A → A) → ℕ → List (Option A) → List (Option A)
  change_slot f i [] = []
  change_slot f zero (none ∷ slots) = none ∷ slots
  change_slot f zero (some x ∷ slots) = some (f x) ∷ slots
  change_slot f (suc i) (slot ∷ slots) = slot ∷ change_slot f i slots

  -- for each rank and index
  unfoldable pub set_ranks : (ℕ → A → A) → ℕ → List ℕ → List (Option A) → List (Option A)
  unfolding change_slot
  set_ranks set rank [] slots = slots
  set_ranks set rank (i ∷ is) slots = set_ranks set (suc rank) is (change_slot (set rank) i slots)

  -- what a slot holds
  unfoldable pub get_slot : ℕ → List (Option A) → Option A
  get_slot i [] = none
  get_slot zero (slot ∷ slots) = slot
  get_slot (suc i) (slot ∷ slots) = get_slot i slots

  unfoldable pub empty_slot : ℕ → List (Option A) → List (Option A)
  empty_slot i [] = []
  empty_slot zero (slot ∷ slots) = none ∷ slots
  empty_slot (suc i) (slot ∷ slots) = slot ∷ empty_slot i slots

  abbrev pub prepend : Option A → List A → List A
  prepend none xs = xs
  prepend (some x) xs = x ∷ xs

  -- `filter_map(|index| slots[index].take())`
  unfoldable pub take_all : List ℕ → List (Option A) → List A
  unfolding get_slot empty_slot
  take_all [] slots = []
  take_all (i ∷ is) slots = prepend (get_slot i slots) (take_all is (empty_slot i slots))

module _ {F : Type 0} where
  unfoldable pub set_cpu_rank : ℕ → ProcessSnapshot F → ProcessSnapshot F
  unfolding rank_value
  set_cpu_rank rank process = record process { cpu_rank = some (rank_value rank) }

  unfoldable pub set_memory_rank : ℕ → ProcessSnapshot F → ProcessSnapshot F
  unfolding rank_value
  set_memory_rank rank process = record process { memory_rank = some (rank_value rank) }

  unfoldable pub without_ranks : ProcessSnapshot F → ProcessSnapshot F
  without_ranks process = record process { cpu_rank = none; memory_rank = none }

  unfoldable pub rank_processes :
      CpuFloat F → List (ProcessSnapshot F) → ℕ → List (ProcessSnapshot F)
  unfolding best cpu_order memory_order set_ranks set_cpu_rank set_memory_rank without_ranks
      take_all
  rank_processes fl candidates top_process_count =
      let count = max top_process_count 1 in
      let by_cpu = map (λ e. e.0) (best (cpu_order fl) count candidates) in
      let by_memory = map (λ e. e.0) (best (memory_order fl) count candidates) in
      let slots = map (λ p. some (without_ranks p)) candidates in
      let with_cpu = set_ranks set_cpu_rank 0 by_cpu slots in
      let with_both = set_ranks set_memory_rank 0 by_memory with_cpu in
      take_all (by_cpu ++ by_memory) with_both
