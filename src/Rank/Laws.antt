-- ===== src/Rank/Laws.antt =====
-- The rows that a sample keeps: the top processes by CPU come first.
use tinytop.Prelude.{
  ℕ, suc, ◌-◌, ◌≤◌, ◌≡◌, ◌∙◌, refl, sym, ap, inl, inr, Option, none, some, List, [], ◌∷◌, ◌++◌, map,
  max, take, length, length-take, All, Listed, arith,
}
use mathlib.Core.Path.{subst}
use Prim.Native.Nat.{Ordering}
use native.Mathlib.Decide.{ℕ_discrete}
use tinytop.Prelude.Sort.{sort_by}
use tinytop.Rank.Defs.{
  CpuFloat, ProcessSnapshot, not_greater, cpu_order, memory_order, enumerate_from, best, set_ranks,
  get_slot, empty_slot, prepend, take_all, set_cpu_rank, set_memory_rank, without_ranks,
  rank_processes,
}
use tinytop.Rank.Sorting.{
  map-sort_by, map-take, map-enumerate_from, AreDistinct, All-sort_by, sort_by-AreDistinct,
  All-take, take-AreDistinct, enumerate_from-AreDistinct,
}
use tinytop.Rank.Slots.{
  All-imp, get_slot-empty_slot, take_all-append, pid_of, Holds, From, pid_of-set_ranks,
  map-take_all, enumerate_from-From,
}

length-map : {A B : Type 0} (f : A → B) (xs : List A) → length (map f xs) ≡ length xs
length-map f [] = refl
length-map f (x ∷ xs) = ap suc (length-map f xs)

Listed-append : (i : ℕ) (is js : List ℕ) → Listed i js → Listed i (is ++ js)
Listed-append i [] js l = l
Listed-append i (k ∷ is) js l = inr (Listed-append i is js l)

module _ {F : Type 0} where
  Holds-of_From :
      (slots : List (Option (ProcessSnapshot F))) (e : ℕ × ProcessSnapshot F)
      → From 0 slots e
      → Holds slots e
  Holds-of_From slots e (l, p) =
      let n : e.0 - 0 ≡ e.0 = omega arith in ap (λ i. pid_of (get_slot i slots)) (sym n) ∙ p

  map-append :
      (ps qs : List (ProcessSnapshot F))
      → map (λ p. p.pid) (ps ++ qs) ≡ map (λ p. p.pid) ps ++ map (λ p. p.pid) qs
  map-append [] qs = refl
  map-append (p ∷ ps) qs = ap (λ t. p.pid ∷ t) (map-append ps qs)

  map-map :
      (es : List (ℕ × ProcessSnapshot F))
      → map (λ e. e.1.pid) es ≡ map (λ p. p.pid) (map (λ e. e.1) es)
  map-map [] = refl
  map-map (e ∷ es) = ap (λ t. e.1.pid ∷ t) (map-map es)

  module _ (order : ProcessSnapshot F → ProcessSnapshot F → Ordering) (n : ℕ)
      (ps : List (ProcessSnapshot F)) where
    -- the best entries are the best processes
    map-best :
        map (λ e. e.1) (best order n ps) ≡ take n (sort_by (λ a b. not_greater (order a b)) ps)
    unfolding best
    map-best =
        map-take (λ e. e.1) n (sort_by (λ l r. not_greater (order l.1 r.1)) (enumerate_from 0 ps))
        ∙ ap (take n) (
            map-sort_by (λ e. e.1) (λ a b. not_greater (order a b)) (enumerate_from 0 ps)
            ∙ ap (sort_by (λ a b. not_greater (order a b))) (map-enumerate_from 0 ps))

    best-AreDistinct : AreDistinct (best order n ps)
    unfolding best
    best-AreDistinct =
        take-AreDistinct n (sort_by (λ l r. not_greater (order l.1 r.1)) (enumerate_from 0 ps)) (
          sort_by-AreDistinct (λ l r. not_greater (order l.1 r.1)) (enumerate_from 0 ps)
            (enumerate_from-AreDistinct 0 ps))

    best-Holds : All (Holds (map (λ p. some (without_ranks p)) ps)) (best order n ps)
    unfolding best
    best-Holds =
        let slots = map (λ p. some (without_ranks p)) ps in
        All-take (Holds slots) n
          (sort_by (λ l r. not_greater (order l.1 r.1)) (enumerate_from 0 ps))
          (All-sort_by (λ l r. not_greater (order l.1 r.1)) (Holds slots) (enumerate_from 0 ps)
            (All-imp (From 0 slots) (Holds slots) (Holds-of_From slots) (enumerate_from 0 ps)
              (enumerate_from-From 0 ps)))

    length-best : length (best order n ps) ≤ n
    unfolding best
    length-best =
        omega (
          arith,
          length-take n (sort_by (λ l r. not_greater (order l.1 r.1)) (enumerate_from 0 ps)),
        )

  ranks-Holds :
      (cpu memory : List ℕ) (slots : List (Option (ProcessSnapshot F))) (e : ℕ × ProcessSnapshot F)
      → Holds slots e
      → Holds (set_ranks set_memory_rank 0 memory (set_ranks set_cpu_rank 0 cpu slots)) e
  unfolding set_memory_rank set_cpu_rank
  ranks-Holds cpu memory slots e h =
      pid_of-set_ranks set_memory_rank (λ r p. refl) 0 memory e.0
        (set_ranks set_cpu_rank 0 cpu slots)
      ∙ pid_of-set_ranks set_cpu_rank (λ r p. refl) 0 cpu e.0 slots
      ∙ h

  Listed-prepend :
      (o : Option (ProcessSnapshot F)) (q : ℕ) (ps : List (ProcessSnapshot F))
      → Listed q (map (λ p. p.pid) ps)
      → Listed q (map (λ p. p.pid) (prepend o ps))
  Listed-prepend none q ps l = l
  Listed-prepend (some p) q ps l = inr l

  prepend-Listed :
      (o : Option (ProcessSnapshot F)) (q : ℕ) (ps : List (ProcessSnapshot F))
      → pid_of o ≡ some q
      → Listed q (map (λ p. p.pid) (prepend o ps))
  prepend-Listed none q ps e = cc
  prepend-Listed (some p) q ps e = inl (cc)

  -- a slot that is full when its index comes is taken
  take_all-Listed :
      (is : List ℕ) (i q : ℕ) (slots : List (Option (ProcessSnapshot F)))
      → Listed i is
      → pid_of (get_slot i slots) ≡ some q
      → Listed q (map (λ p. p.pid) (take_all is slots))
  unfolding take_all
  take_all-Listed [] i q slots l e = absurd l
  take_all-Listed (k ∷ is) i q slots (inl same) e =
      prepend-Listed (get_slot k slots) q (take_all is (empty_slot k slots))
        (ap (λ j. pid_of (get_slot j slots)) (sym same) ∙ e)
  take_all-Listed (k ∷ is) i q slots (inr l) e = elim (ℕ_discrete i k) [
    | yes same ↦
        prepend-Listed (get_slot k slots) q (take_all is (empty_slot k slots))
          (ap (λ j. pid_of (get_slot j slots)) (sym same) ∙ e)
    | no other ↦ Listed-prepend (get_slot k slots) q (take_all is (empty_slot k slots)) (
        take_all-Listed is i q (empty_slot k slots) l
          (ap pid_of (get_slot-empty_slot k i slots other) ∙ e))
  ]

  -- an entry of a process that is listed
  entry_of :
      (slots : List (Option (ProcessSnapshot F))) (p : ProcessSnapshot F)
      (es : List (ℕ × ProcessSnapshot F))
      → All (Holds slots) es
      → Listed p (map (λ e. e.1) es)
      → (i : ℕ) × Listed i (map (λ e. e.0) es) × (pid_of (get_slot i slots) ≡ some p.pid)
  entry_of slots p [] h l = absurd l
  entry_of slots p (e ∷ es) h (inl same) = (e.0, inl refl, h.0 ∙ ap (λ r. some r.pid) (sym same))
  entry_of slots p (e ∷ es) h (inr l) = let (i, m, g) = entry_of slots p es h.1 l in (i, inr m, g)

  -- With the count raised to one at least, the rows that are kept begin with the processes that come
  -- first in the order by CPU, as many as the count or the host has, in that order; and at most as
  -- many rows as the count follow them.
  pub rank_processes-cpu_order :
      (fl : CpuFloat F) (candidates : List (ProcessSnapshot F)) (top : ℕ)
      → (rest : List ℕ) × (map (λ p. p.pid) (rank_processes fl candidates top)
          ≡ map
              (λ p. p.pid)
              (take (max top 1) (sort_by (λ a b. not_greater (cpu_order fl a b)) candidates))
            ++ rest)
        × (length rest ≤ max top 1)
  unfolding rank_processes
  rank_processes-cpu_order fl candidates top =
      let n = max top 1 in
      let cpu = best (cpu_order fl) n candidates in
      let memory = best (memory_order fl) n candidates in
      let is = map (λ e. e.0) cpu in
      let js = map (λ e. e.0) memory in
      let start = map (λ p. some (without_ranks p)) candidates in
      let slots = set_ranks set_memory_rank 0 js (set_ranks set_cpu_rank 0 is start) in
      let (rest, e, l) = take_all-append is js slots in
      let held =
        All-imp (Holds start) (Holds slots) (ranks-Holds is js start) cpu
          (best-Holds (cpu_order fl) n candidates) in
      let first =
        map-take_all cpu slots (best-AreDistinct (cpu_order fl) n candidates) held
        ∙ map-map cpu
        ∙ ap (map (λ p. p.pid)) (map-best (cpu_order fl) n candidates) in
      (
        map (λ p. p.pid) rest,
        ap (map (λ p. p.pid)) e
            ∙ map-append (take_all is slots) rest
            ∙ ap (λ t. t ++ map (λ p. p.pid) rest) first,
        omega (
          arith,
          l,
          length-map (λ p. p.pid) rest,
          length-map (λ e. e.0) memory,
          length-best (memory_order fl) n candidates,
        ),
      )

  -- Every process that comes first in the order by memory, up to the count raised to one at least, is
  -- among the rows that are kept.
  pub rank_processes-memory_order :
      (fl : CpuFloat F) (candidates : List (ProcessSnapshot F)) (top : ℕ) (p : ProcessSnapshot F)
      → Listed p (take (max top 1) (sort_by (λ a b. not_greater (memory_order fl a b)) candidates))
      → Listed p.pid (map (λ q. q.pid) (rank_processes fl candidates top))
  unfolding rank_processes
  rank_processes-memory_order fl candidates top p l =
      let n = max top 1 in
      let cpu = best (cpu_order fl) n candidates in
      let memory = best (memory_order fl) n candidates in
      let is = map (λ e. e.0) cpu in
      let js = map (λ e. e.0) memory in
      let start = map (λ p. some (without_ranks p)) candidates in
      let slots = set_ranks set_memory_rank 0 js (set_ranks set_cpu_rank 0 is start) in
      let held =
        All-imp (Holds start) (Holds slots) (ranks-Holds is js start) memory
          (best-Holds (memory_order fl) n candidates) in
      let (i, m, g) =
        entry_of slots p memory held
          (subst (Listed p) (sym (map-best (memory_order fl) n candidates)) l) in
      take_all-Listed (is ++ js) i p.pid slots (Listed-append i is js m) g
