-- ===== src/Gate/Order.antt =====
-- Queued writers get the lock in the order in which they queued.
use tinytop.Prelude.{
  ℕ, suc, ◌+◌, ◌%◌, ◌^◌, ◌<◌, ◌≤◌, ◌≡◌, refl, sym, Bool, true, false, Bool-cases, inl, inr, none,
  some, List, [], ◌∷◌, ◌++◌, map, arith, ◌==◌, ==_iff,
}
use mathlib.Core.Path.{subst}
use tinytop.Gate.Defs.{Waiter, poll, drop_lock, drop_guard, without, set_waker}
use tinytop.Gate.System.{
  System, start, grant, arrive, repoll, cancel, release, Reach, arrives, repolls, cancels, releases,
  here, then_step,
}
use tinytop.Gate.Safety.{at}

abbrev pub tickets : List Waiter → List ℕ
tickets xs = map (λ x. x.ticket) xs

-- strictly increasing, from `lo` on and below `hi`
abbrev pub Between : ℕ → List ℕ → ℕ → Type 0
Between lo [] hi = lo ≤ hi
Between lo (t ∷ ts) hi = (lo ≤ t) × Between (suc t) ts hi

-- strictly decreasing: the last grant first
abbrev pub IsDecreasing : List ℕ → Type 0
IsDecreasing [] = Unit
IsDecreasing (t ∷ []) = Unit
IsDecreasing (t ∷ u ∷ ts) = (u < t) × IsDecreasing (u ∷ ts)

-- the first ticket that may still be granted
abbrev pub after : List ℕ → ℕ
after [] = 0
after (t ∷ ts) = suc t

pub record IsFifo (s : System) : Type 0 where
  pub waiting : Between (after s.granted) (tickets s.gate.waiters) s.gate.next_ticket
  pub granted : IsDecreasing s.granted

-- the polls of new futures on a path
abbrev pub arrivals : {s u : System} → Reach s u → ℕ
arrivals here = 0
arrivals (then_step r (arrives s w)) = suc (arrivals r)
arrivals (then_step r (repolls s t w m)) = arrivals r
arrivals (then_step r (cancels s t m)) = arrivals r
arrivals (then_step r (releases s m)) = arrivals r

Between-snoc : (lo hi : ℕ) (ts : List ℕ) → Between lo ts hi → Between lo (ts ++ hi ∷ []) (suc hi)
Between-snoc lo hi [] h = omega arith
Between-snoc lo hi (t ∷ ts) h = (h.0, Between-snoc (suc t) hi ts h.1)

Between_from : (lo lo' hi : ℕ) (ts : List ℕ) → lo' ≤ lo → Between lo ts hi → Between lo' ts hi
Between_from lo lo' hi [] l h = omega arith
Between_from lo lo' hi (t ∷ ts) l h = (omega arith, h.1)

tickets-snoc :
    (xs : List Waiter) (x : Waiter) → tickets (xs ++ x ∷ []) ≡ tickets xs ++ x.ticket ∷ []
tickets-snoc [] x = refl
tickets-snoc (y ∷ ys) x = simp (tickets-snoc ys x)

tickets-set_waker : (t w : ℕ) (xs : List Waiter) → tickets (set_waker t w xs) ≡ tickets xs
unfolding set_waker
tickets-set_waker t w [] = refl
tickets-set_waker t w (x ∷ xs) = elim (Bool-cases (x.ticket == t)) [
  | inl e ↦ rw e refl
  | inr e ↦ rw e (simp (tickets-set_waker t w xs))
]

Between-without :
    (t lo hi : ℕ) (xs : List Waiter)
    → Between lo (tickets xs) hi
    → Between lo (tickets (without t xs)) hi
unfolding without
Between-without t lo hi [] h = h
Between-without t lo hi (x ∷ xs) h = elim (Bool-cases (x.ticket == t)) [
  | inl e ↦ rw e (
      Between_from (suc x.ticket) lo hi (tickets (without t xs)) (omega (arith, h.0))
        (Between-without t (suc x.ticket) hi xs h.1))
  | inr e ↦ rw e (h.0, Between-without t (suc x.ticket) hi xs h.1)
]

arrive-waiting :
    (b : Bool) (k lo : ℕ) (xs : List Waiter) (w : ℕ)
    → suc k < 2 ^ 64
    → Between lo (tickets xs) k
    → Between lo
        (tickets (poll (at b k xs) none w).0.waiters)
        (poll (at b k xs) none w).0.next_ticket
unfolding poll
arrive-waiting true k lo xs w f h =
    let e : (k + 1) % 2 ^ 64 ≡ suc k = omega arith in
    rw (e, tickets-snoc) (Between-snoc lo k (tickets xs) h)
arrive-waiting false k lo [] w f h = h
arrive-waiting false k lo (x ∷ xs) w f h =
    let e : (k + 1) % 2 ^ 64 ≡ suc k = omega arith in
    rw (e, tickets-snoc) (h.0, Between-snoc (suc x.ticket) k (tickets xs) h.1)

next_ticket-arrive :
    (b : Bool) (k n : ℕ) (xs : List Waiter) (w : ℕ)
    → suc k < 2 ^ 64
    → k ≤ n
    → (poll (at b k xs) none w).0.next_ticket ≤ suc n
unfolding poll
next_ticket-arrive true k n xs w f l = omega arith
next_ticket-arrive false k n [] w f l = omega arith
next_ticket-arrive false k n (x ∷ xs) w f l = omega arith

IsDecreasing-cons : (t : ℕ) (gs : List ℕ) → after gs ≤ t → IsDecreasing gs → IsDecreasing (t ∷ gs)
IsDecreasing-cons t [] l d = tt
IsDecreasing-cons t (g ∷ gs) l d = (l, d)

repoll-IsFifo :
    (b : Bool) (k : ℕ) (xs : List Waiter) (t w : ℕ) (gs : List ℕ)
    → Between (after gs) (tickets xs) k
    → IsDecreasing gs
    → let (g, _, p) = poll (at b k xs) (some t) w in
      Between (after (grant p t gs)) (tickets g.waiters) g.next_ticket
      × IsDecreasing (grant p t gs)
      × (g.next_ticket ≡ k)
unfolding poll
repoll-IsFifo true k xs t w gs h d = (rw tickets-set_waker h, d, refl)
repoll-IsFifo false k [] t w gs h d = (h, d, refl)
repoll-IsFifo false k (x ∷ xs) t w gs h d = elim (Bool-cases (x.ticket == t)) [
  | inl e ↦
      let p : x.ticket ≡ t = (==_iff x.ticket t).0 e in
      rw e (
        subst (λ u. Between (suc u) (tickets xs) k) p h.1,
        IsDecreasing-cons t gs (omega (arith, h.0)) d,
        refl,
      )
  | inr e ↦ rw e (
    subst (λ ts. Between (after gs) (x.ticket ∷ ts) k) (sym (tickets-set_waker t w xs)) h,
    d,
    refl,
  )
]

-- the invariant along a path on which fewer than 2^64 futures have been polled first
pub record IsFifoAt (n : ℕ) (s : System) : Type 0 where
  pub fifo : IsFifo s
  pub count : s.gate.next_ticket ≤ n

module _ (n : ℕ) (s : System) (h : IsFifoAt n s) where
  arrive-IsFifoAt : (w : ℕ) → suc n < 2 ^ 64 → IsFifoAt (suc n) (arrive s w)
  arrive-IsFifoAt w b =
      let g = s.gate in
      let room : suc g.next_ticket < 2 ^ 64 = omega (arith, h.count) in
      record {
        fifo = record {
          waiting =
              arrive-waiting g.locked g.next_ticket (after s.granted) g.waiters w room
                h.fifo.waiting;
          granted = h.fifo.granted;
        };
        count = next_ticket-arrive g.locked g.next_ticket n g.waiters w room h.count;
      }

  repoll-IsFifoAt : (t w : ℕ) → IsFifoAt n (repoll s t w)
  repoll-IsFifoAt t w =
      let g = s.gate in
      let (waiting, granted, same) =
        repoll-IsFifo g.locked g.next_ticket g.waiters t w s.granted h.fifo.waiting
          h.fifo.granted in
      record {
        fifo = record { waiting = waiting; granted = granted };
        count = omega (arith, same, h.count);
      }

  cancel-IsFifoAt : (t : ℕ) → IsFifoAt n (cancel s t)
  unfolding drop_lock
  cancel-IsFifoAt t = record {
    fifo = record {
      waiting =
          Between-without t (after s.granted) s.gate.next_ticket s.gate.waiters h.fifo.waiting;
      granted = h.fifo.granted;
    };
    count = h.count;
  }

  release-IsFifoAt : IsFifoAt n (release s)
  unfolding drop_guard
  release-IsFifoAt = record {
    fifo = record { waiting = h.fifo.waiting; granted = h.fifo.granted };
    count = h.count;
  }

Reach-IsFifoAt : {s : System} (r : Reach start s) → arrivals r < 2 ^ 64 → IsFifoAt (arrivals r) s
Reach-IsFifoAt here b = record {
  fifo = record { waiting = omega arith; granted = tt };
  count = omega arith;
}
Reach-IsFifoAt (then_step r (arrives s w)) b =
    arrive-IsFifoAt (arrivals r) s (Reach-IsFifoAt r (omega arith)) w b
Reach-IsFifoAt (then_step r (repolls s t w m)) b =
    repoll-IsFifoAt (arrivals r) s (Reach-IsFifoAt r b) t w
Reach-IsFifoAt (then_step r (cancels s t m)) b =
    cancel-IsFifoAt (arrivals r) s (Reach-IsFifoAt r b) t
Reach-IsFifoAt (then_step r (releases s m)) b = release-IsFifoAt (arrivals r) s (Reach-IsFifoAt r b)

-- As long as fewer than 2^64 futures have been polled, queued writers are granted the lock in the
-- order of their tickets, and every writer that still waits comes after all of them, in that order.
pub Reach-IsFifo : {s : System} (r : Reach start s) → arrivals r < 2 ^ 64 → IsFifo s
Reach-IsFifo r b = (Reach-IsFifoAt r b).fifo
