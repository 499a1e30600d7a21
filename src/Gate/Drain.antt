-- ===== src/Gate/Drain.antt =====
-- What happens once no new writer comes: an executor polls only tasks that were woken, and guards are
-- dropped. Such a run ends, and at its end every queued writer has had the lock.
use tinytop.Prelude.{
  ℕ, zero, suc, ◌+◌, ◌*◌, ◌<◌, ◌≤◌, ◌≡◌, refl, sym, ap, ◌∙◌, ◌⊎◌, inl, inr, Bool, true, false,
  Bool-cases, some, List, [], ◌∷◌, length, arith, ◌==◌, ==_iff,
}
use mathlib.Core.Path.{subst}
use tinytop.Gate.Defs.{Waiter, poll, drop_guard, without, set_waker}
use tinytop.Gate.System.{
  System, start, Elem, HasTicket, repoll, release, repolls, releases, Reach, grant, guards_of,
  notify,
}
use tinytop.Gate.Safety.{IsSafe, Awake, guards_when, at, Step-IsSafe, Reach-IsSafe}

-- a step of the executor: a woken waiter is polled, through any waker, or a guard is dropped
pub data Drain : System → System → Type 0 where
  polls :
      (s : System) (x : Waiter) (w : ℕ)
      → Elem x s.notified
      → HasTicket x.ticket s.gate.waiters
      → Drain s (repoll s x.ticket w)
  drops : (s : System) → 0 < s.guards → Drain s (release s)

pub data Run : System → System → Type 0 where
  stop : (s : System) → Run s s
  go : {s t u : System} → Drain s t → Run t u → Run s u

abbrev pub run_length : {s u : System} → Run s u → ℕ
run_length (stop s) = 0
run_length (go d r) = suc (run_length r)

-- what is left to do: a waiter is woken, polled and dropped
abbrev pub effort : System → ℕ
effort s = 3 * length s.gate.waiters + 2 * s.guards + length s.notified

length-set_waker : (t w : ℕ) (xs : List Waiter) → length (set_waker t w xs) ≡ length xs
unfolding set_waker
length-set_waker t w [] = refl
length-set_waker t w (x ∷ xs) = ground (arith, length-set_waker t w xs)

length-without : (t : ℕ) (ws : List Waiter) → length (without t ws) ≤ length ws
unfolding without
length-without t [] = omega arith
length-without t (x ∷ xs) = ground (arith, length-without t xs)

-- a notice that is used up is gone
length-without_lt :
    (x : Waiter) (ws : List Waiter) → Elem x ws → length (without x.ticket ws) < length ws
unfolding without
length-without_lt x [] h = absurd h
length-without_lt x (y ∷ ys) (inl e) =
    let same : (y.ticket == x.ticket) ≡ true =
      (==_iff y.ticket x.ticket).1 (ap (λ z. z.ticket) (sym e)) in
    rw same (omega (arith, length-without x.ticket ys))
length-without_lt x (y ∷ ys) (inr h) =
    ground (arith, length-without x.ticket ys, length-without_lt x ys h)

-- a poll that is granted takes its waiter out of the queue
poll_effort :
    (b : Bool) (k : ℕ) (xs : List Waiter) (t w : ℕ)
    → let (g, _, p) = poll (at b k xs) (some t) w in
      3 * length g.waiters + 2 * guards_of p ≤ 3 * length xs
unfolding poll
poll_effort true k xs t w = omega (arith, length-set_waker t w xs)
poll_effort false k [] t w = omega arith
poll_effort false k (x ∷ xs) t w = elim (Bool-cases (x.ticket == t)) [
  | inl e ↦ rw e (omega arith)
  | inr e ↦ rw e (omega (arith, length-set_waker t w xs))
]

drop_guard_effort :
    (b : Bool) (k : ℕ) (xs ws : List Waiter)
    → let (g, woken) = drop_guard (at b k xs) in
      length g.waiters + length (notify woken ws) ≤ suc (length xs + length ws)
unfolding drop_guard
drop_guard_effort b k [] ws = omega arith
drop_guard_effort b k (x ∷ xs) ws = omega arith

waiters-drop_guard : (b : Bool) (k : ℕ) (xs : List Waiter) → (drop_guard (at b k xs)).0.waiters ≡ xs
unfolding drop_guard
waiters-drop_guard b k xs = refl

Drain-effort : {s t : System} → Drain s t → effort t < effort s
Drain-effort (polls s x w e m) = omega (
  arith,
  poll_effort s.gate.locked s.gate.next_ticket s.gate.waiters x.ticket w,
  length-without_lt x s.notified e,
)
Drain-effort (drops s g) = omega (
  arith,
  ap length (waiters-drop_guard s.gate.locked s.gate.next_ticket s.gate.waiters),
  drop_guard_effort s.gate.locked s.gate.next_ticket s.gate.waiters s.notified,
)

-- However the executor goes on, it stops: without new writers and without ones that give up, the
-- polls of woken waiters and drops of guards of a run, together with the effort that is left after
-- it, are at most three for each waiter, two for each guard and one for each notice at its start.
pub run_length-effort : {s u : System} (r : Run s u) → run_length r + effort u ≤ effort s
run_length-effort (stop s) = omega arith
run_length-effort (go d r) = omega (arith, Drain-effort d, run_length-effort r)

-- the writer with this ticket waits, or has had the lock
abbrev pub Served : ℕ → System → Type 0
Served t s = HasTicket t s.gate.waiters ⊎ Elem t s.granted

HasTicket-set_waker :
    (q t w : ℕ) (xs : List Waiter) → HasTicket q xs → HasTicket q (set_waker t w xs)
unfolding set_waker
HasTicket-set_waker q t w [] h = h
HasTicket-set_waker q t w (x ∷ xs) (inl e) = elim (Bool-cases (x.ticket == t)) [
  | inl b ↦ rw b (inl e)
  | inr b ↦ rw b (inl e)
]
HasTicket-set_waker q t w (x ∷ xs) (inr h) = elim (Bool-cases (x.ticket == t)) [
  | inl b ↦ rw b (inr h)
  | inr b ↦ rw b (inr (HasTicket-set_waker q t w xs h))
]

poll-Served :
    (b : Bool) (k : ℕ) (xs : List Waiter) (q t w : ℕ) (gs : List ℕ)
    → HasTicket q xs ⊎ Elem q gs
    → let (g, _, p) = poll (at b k xs) (some t) w in HasTicket q g.waiters ⊎ Elem q (grant p t gs)
unfolding poll
poll-Served true k xs q t w gs (inl h) = inl (HasTicket-set_waker q t w xs h)
poll-Served true k xs q t w gs (inr h) = inr h
poll-Served false k [] q t w gs h = h
poll-Served false k (x ∷ xs) q t w gs (inr h) = elim (Bool-cases (x.ticket == t)) [
  | inl b ↦ rw b (inr (inr h))
  | inr b ↦ rw b (inr h)
]
poll-Served false k (x ∷ xs) q t w gs (inl (inl e)) = elim (Bool-cases (x.ticket == t)) [
  | inl b ↦ rw b (inr (inl (sym e ∙ (==_iff x.ticket t).0 b)))
  | inr b ↦ rw b (inl (inl e))
]
poll-Served false k (x ∷ xs) q t w gs (inl (inr h)) = elim (Bool-cases (x.ticket == t)) [
  | inl b ↦ rw b (inl h)
  | inr b ↦ rw b (inl (inr (HasTicket-set_waker q t w xs h)))
]

Drain-Served : (q : ℕ) {s u : System} → Drain s u → Served q s → Served q u
Drain-Served q (polls s x w e m) h =
    poll-Served s.gate.locked s.gate.next_ticket s.gate.waiters q x.ticket w s.granted h
Drain-Served q (drops s g) h =
    rw (waiters-drop_guard s.gate.locked s.gate.next_ticket s.gate.waiters) h

Run-Served : (q : ℕ) {s u : System} → Run s u → Served q s → Served q u
Run-Served q (stop s) h = h
Run-Served q (go d r) h = Run-Served q r (Drain-Served q d h)

Drain-IsSafe : {s u : System} → Drain s u → IsSafe s → IsSafe u
Drain-IsSafe (polls s x w e m) h = Step-IsSafe (repolls s x.ticket w m) h
Drain-IsSafe (drops s g) h = Step-IsSafe (releases s g) h

Run-IsSafe : {s u : System} → Run s u → IsSafe s → IsSafe u
Run-IsSafe (stop s) h = h
Run-IsSafe (go d r) h = Run-IsSafe r (Drain-IsSafe d h)

-- nobody waits and nobody holds the lock
pub record IsIdle (s : System) : Type 0 where
  pub unqueued : s.gate.waiters ≡ []
  pub unheld : s.guards ≡ 0

-- the executor is never stuck while there is something to do
has_next :
    (b : Bool) (k n : ℕ) (xs ws : List Waiter) (gs : List ℕ)
    → let s : System = record { gate = at b k xs; guards = n; notified = ws; granted = gs } in
      (n ≡ guards_when b) → Awake (at b k xs) ws → ((u : System) × Drain s u) ⊎ IsIdle s
has_next true k n xs ws gs e h =
    let s : System = record { gate = at true k xs; guards = n; notified = ws; granted = gs } in
    inl (release s, drops s (omega arith))
has_next false k n [] ws gs e h = inr (record { unqueued = refl; unheld = e })
has_next false k n (x ∷ xs) ws gs e h =
    let s : System = record {
      gate = at false k (x ∷ xs);
      guards = n;
      notified = ws;
      granted = gs;
    } in
    inl (repoll s x.ticket x.waker, polls s x x.waker h (inl refl))

next_of : (s : System) → IsSafe s → ((u : System) × Drain s u) ⊎ IsIdle s
next_of s h =
    has_next s.gate.locked s.gate.next_ticket s.guards s.gate.waiters s.notified s.granted
      h.exclusive h.awake

-- a step, and a run after it
abbrev Ends : System → Type 0
Ends s = (u : System) × Run s u × IsIdle u

go_on : (s t : System) → Drain s t → Ends t → Ends s
go_on s t d (u, r, idle) = (u, go d r, idle)

drained : (n : ℕ) (s : System) → IsSafe s → effort s < n → Ends s
drained zero s h b = absurd (omega arith)
drained (suc n) s h b = elim (next_of s h) [
  | inr idle ↦ (s, stop s, idle)
  | inl (t, d) ↦ go_on s t d (drained n t (Drain-IsSafe d h) (omega (arith, Drain-effort d)))
]

served : (q : ℕ) (u : System) → IsIdle u → Served q u → Elem q u.granted
served q u idle (inl h) = absurd (subst (HasTicket q) idle.unqueued h)
served q u idle (inr h) = h

-- No writer waits for ever: from every state that the tasks can reach, each run of the executor, as
-- long as no new writer comes and none gives up, can be continued to a state in which no writer waits
-- and no guard is alive, and there every writer that waited at its start has been granted the lock.
pub Run-serves :
    {s t : System}
    → Reach start s
    → Run s t
    → (u : System) × Run t u × IsIdle u × ((q : ℕ) → HasTicket q s.gate.waiters → Elem q u.granted)
Run-serves {t = t} reached r =
    let (u, rest, idle) =
      drained (suc (effort t)) t (Run-IsSafe r (Reach-IsSafe reached)) (omega arith) in
    (u, rest, idle, λ q h. served q u idle (Run-Served q rest (Run-Served q r (inl h))))
