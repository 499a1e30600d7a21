-- ===== src/Rank/Tests.antt =====
-- Three processes, one of which holds most memory and another uses most of the processor.
use Prim.Native.Nat.{compare}
use tinytop.Prelude.{
  ℕ, ◌≡◌, ◌≤◌, refl, false, none, some, List, [], ◌∷◌, ◌++◌, map, max, take, length, Listed, inl,
}
use tinytop.Prelude.Sort.{sort_by, insert_by}
use tinytop.Rank.Defs.{
  CpuFloat, ProcessSnapshot, cpu_order, memory_order, not_greater, rank_processes,
}
use tinytop.Rank.Laws.{rank_processes-cpu_order, rank_processes-memory_order}

-- numbers in place of floats
abbrev numbers : CpuFloat ℕ
numbers = record { is_nan = λ x. false; neg_infinity = 0; plus_zero = λ x. x; total_cmp = compare }

abbrev process : ℕ → ℕ → ℕ → ProcessSnapshot ℕ
process pid cpu rss = record {
  pid = pid;
  command = [];
  cpu_percent = cpu;
  memory_percent = 0;
  rss_bytes = rss;
  parent_pid = none;
  started_at = none;
  gpu_percent = none;
  swap_bytes = some 1;
  cpu_rank = none;
  memory_rank = none;
}

abbrev host : List (ProcessSnapshot ℕ)
host = process 10 1 5 ∷ process 11 9 4 ∷ process 12 3 90 ∷ []

-- the list by CPU, and then the one by memory
kept : map (λ p. p.pid) (rank_processes numbers host 1) ≡ 11 ∷ 12 ∷ []
unfolding rank_processes
kept = refl

-- a count of zero is one
floor : rank_processes numbers host 0 ≡ rank_processes numbers host 1
unfolding rank_processes
floor = refl

rank_processes-cpu_order_example :
    (rest : List ℕ) × (map (λ p. p.pid) (rank_processes numbers host 2)
      ≡ map
          (λ p. p.pid)
          (take (max 2 1) (sort_by (λ a b. not_greater (cpu_order numbers a b)) host))
        ++ rest)
    × (length rest ≤ max 2 1)
rank_processes-cpu_order_example = rank_processes-cpu_order numbers host 2

rank_processes-memory_order_example : Listed 12 (map (λ q. q.pid) (rank_processes numbers host 1))
unfolding sort_by insert_by not_greater memory_order
rank_processes-memory_order_example =
    rank_processes-memory_order numbers host 1 (process 12 3 90) (inl refl)
