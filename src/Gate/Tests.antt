-- ===== src/Gate/Tests.antt =====
-- A run of the writer gate: one task takes the lock, a second one waits, the first one leaves, and the
-- second is served.
use tinytop.Prelude.{refl, ◌<◌, ◌≤◌, ◌+◌, ℕ, arith, inl}
use tinytop.Gate.Defs.{poll, drop_guard, is_empty, queue}
use tinytop.Gate.System.{
  start, System, HasTicket, Reach, here, then_step, arrives, repolls, releases, arrive, repoll,
  release, Elem,
}
use tinytop.Gate.Drain.{
  Run, stop, go, drops, run_length, effort, run_length-effort, IsIdle, Run-serves,
}
use tinytop.Gate.Safety.{IsSafe, Reach-IsSafe}
use tinytop.Gate.Order.{IsFifo, Reach-IsFifo}

abbrev waiting : System
waiting = arrive (arrive start 7) 8

second_waits : HasTicket 0 (release waiting).gate.waiters
unfolding poll drop_guard is_empty queue
second_waits = inl refl

first_leaves : 0 < waiting.guards
unfolding poll is_empty queue
first_leaves = omega arith

abbrev run : Reach start (repoll (release waiting) 0 8)
run =
    then_step
      (then_step (then_step (then_step here (arrives start 7)) (arrives (arrive start 7) 8))
        (releases waiting first_leaves))
      (repolls (release waiting) 0 8 second_waits)

Reach-IsSafe_example : IsSafe (repoll (release waiting) 0 8)
Reach-IsSafe_example = Reach-IsSafe run

Reach-IsFifo_example : IsFifo (repoll (release waiting) 0 8)
Reach-IsFifo_example = Reach-IsFifo run (omega arith)

abbrev leaving : Run waiting (release waiting)
leaving = go (drops waiting first_leaves) (stop (release waiting))

run_length-effort_example : run_length leaving + effort (release waiting) ≤ effort waiting
run_length-effort_example = run_length-effort leaving

abbrev reached_waiting : Reach start waiting
reached_waiting = then_step (then_step here (arrives start 7)) (arrives (arrive start 7) 8)

Run-serves_example :
    (u : System) × Run (release waiting) u
    × IsIdle u
    × ((q : ℕ) → HasTicket q waiting.gate.waiters → Elem q u.granted)
Run-serves_example = Run-serves reached_waiting leaving
