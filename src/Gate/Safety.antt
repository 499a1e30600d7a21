-- ===== src/Gate/Safety.antt =====
-- Mutual exclusion, and no lost wakeup: whatever the tasks do, at most one guard is alive, and a
-- free gate with waiters has woken the first of them.
use tinytop.Prelude.{
  ℕ, ◌+◌, ◌≤◌, ◌≡◌, refl, ap, sym, ◌∙◌, inl, inr, Bool, true, false, Bool-cases, none, some, List,
  [], ◌∷◌, arith, ◌==◌, ==_iff,
}
use tinytop.Gate.Defs.{Waiter, GateState, ready, poll, drop_lock, drop_guard, without, front_waker}
use tinytop.Gate.System.{
  System, start, Elem, notify, guards_of, Step, Reach, arrives, repolls, cancels, releases, here,
  then_step,
}

-- A free gate with a first waiter has notified it.
abbrev pub Awake : GateState → List Waiter → Type 0
Awake g ws = awake g.locked g.waiters
  where
    awake : Bool → List Waiter → Type 0
    awake true xs = Unit
    awake false [] = Unit
    awake false (x ∷ xs) = Elem x ws

-- There is one guard while the gate is locked, and none while it is free.
abbrev pub guards_when : Bool → ℕ
guards_when true = 1
guards_when false = 0

guards_when-le-one : (b : Bool) → guards_when b ≤ 1
guards_when-le-one true = omega arith
guards_when-le-one false = omega arith

pub record IsSafe (s : System) : Type 0 where
  pub exclusive : s.guards ≡ guards_when s.gate.locked
  pub awake : Awake s.gate s.notified

-- dropping the notices of one ticket keeps those of the others
Elem-without :
    (x : Waiter) (t : ℕ) (ws : List Waiter)
    → (x.ticket == t) ≡ false
    → Elem x ws
    → Elem x (without t ws)
unfolding without
Elem-without x t [] n h = absurd h
Elem-without x t (y ∷ ys) n (inl e) = rw (ap (λ z. z.ticket == t) (sym e) ∙ n) (inl e)
Elem-without x t (y ∷ ys) n (inr h) = elim (Bool-cases (y.ticket == t)) [
  | inl e ↦ rw e (Elem-without x t ys n h)
  | inr e ↦ rw e (inr (Elem-without x t ys n h))
]

-- the operations, over the fields of the gate
abbrev pub at : Bool → ℕ → List Waiter → GateState
at b k xs = record { locked = b; next_ticket = k; waiters = xs }

poll_new-Awake :
    (b : Bool) (k : ℕ) (xs ws : List Waiter) (w : ℕ)
    → Awake (at b k xs) ws
    → Awake (poll (at b k xs) none w).0 ws
unfolding poll
poll_new-Awake true k xs ws w h = tt
poll_new-Awake false k [] ws w h = tt
poll_new-Awake false k (x ∷ xs) ws w h = h

poll_new_guards :
    (b : Bool) (k : ℕ) (xs : List Waiter) (w : ℕ)
    → guards_when b + guards_of (poll (at b k xs) none w).2
      ≡ guards_when (poll (at b k xs) none w).0.locked
unfolding poll
poll_new_guards true k xs w = refl
poll_new_guards false k [] w = refl
poll_new_guards false k (x ∷ xs) w = refl

poll_queued-Awake :
    (b : Bool) (k : ℕ) (xs ws : List Waiter) (t w : ℕ)
    → Awake (at b k xs) ws
    → Awake (poll (at b k xs) (some t) w).0 (without t ws)
unfolding poll
poll_queued-Awake true k xs ws t w h = tt
poll_queued-Awake false k [] ws t w h = tt
poll_queued-Awake false k (x ∷ xs) ws t w h = elim (Bool-cases (x.ticket == t)) [
  | inl e ↦ rw e tt
  | inr e ↦ rw e (Elem-without x t ws e h)
]

poll_queued_guards :
    (b : Bool) (k : ℕ) (xs : List Waiter) (t w : ℕ)
    → guards_when b + guards_of (poll (at b k xs) (some t) w).2
      ≡ guards_when (poll (at b k xs) (some t) w).0.locked
unfolding poll
poll_queued_guards true k xs t w = refl
poll_queued_guards false k [] t w = refl
poll_queued_guards false k (x ∷ xs) t w = elim (Bool-cases (x.ticket == t)) [
  | inl e ↦ rw e refl
  | inr e ↦ rw e refl
]

woken_first : (k : ℕ) (xs ws : List Waiter) → Awake (at false k xs) (notify (front_waker xs) ws)
unfolding front_waker
woken_first k [] ws = tt
woken_first k (x ∷ xs) ws = inl refl

drop_lock-Awake :
    (b : Bool) (k : ℕ) (xs ws : List Waiter) (t : ℕ)
    → Awake (at b k xs) ws
    → Awake
        (drop_lock (at b k xs) (some t)).0
        (notify (drop_lock (at b k xs) (some t)).1 (without t ws))
unfolding drop_lock
drop_lock-Awake true k xs ws t h = tt
drop_lock-Awake false k [] ws t h = tt
drop_lock-Awake false k (x ∷ xs) ws t h = elim (Bool-cases (x.ticket == t)) [
  | inl e ↦ rw e (woken_first k (without t xs) (without t ws))
  | inr e ↦ rw e (Elem-without x t ws e h)
]

pub Step-IsSafe : {s u : System} → Step s u → IsSafe s → IsSafe u
Step-IsSafe (arrives s w) h =
    let g = s.gate in
    record {
      exclusive =
          ap (λ n. n + guards_of (poll g none w).2) h.exclusive
          ∙ poll_new_guards g.locked g.next_ticket g.waiters w;
      awake = poll_new-Awake g.locked g.next_ticket g.waiters s.notified w h.awake;
    }
Step-IsSafe (repolls s t w m) h =
    let g = s.gate in
    record {
      exclusive =
          ap (λ n. n + guards_of (poll g (some t) w).2) h.exclusive
          ∙ poll_queued_guards g.locked g.next_ticket g.waiters t w;
      awake = poll_queued-Awake g.locked g.next_ticket g.waiters s.notified t w h.awake;
    }
Step-IsSafe (cancels s t m) h =
    let g = s.gate in
    record {
      exclusive = unfold drop_lock in h.exclusive;
      awake = drop_lock-Awake g.locked g.next_ticket g.waiters s.notified t h.awake;
    }
Step-IsSafe (releases s m) h =
    let g = s.gate in
    record {
      exclusive = unfold drop_guard in omega (arith, h.exclusive, guards_when-le-one s.gate.locked);
      awake = unfold drop_guard in woken_first g.next_ticket g.waiters s.notified;
    }

-- In every state that the tasks can reach from an unused gate, one guard is alive exactly while the
-- gate is locked, and a free gate has woken the first waiter since that waiter's last poll.
pub Reach-IsSafe : {s : System} → Reach start s → IsSafe s
Reach-IsSafe here = record { exclusive = refl; awake = tt }
Reach-IsSafe (then_step r st) = Step-IsSafe st (Reach-IsSafe r)

-- A waiter that is polled at the front of a free gate gets the lock and leaves the queue.
pub poll_front :
    (k : ℕ) (x : Waiter) (xs : List Waiter) (w : ℕ)
    → poll (record { locked = false; next_ticket = k; waiters = x ∷ xs }) (some x.ticket) w
      ≡ (record { locked = true; next_ticket = k; waiters = xs }, none, ready)
unfolding poll
poll_front k x xs w = ground (arith, ==_iff x.ticket x.ticket)
