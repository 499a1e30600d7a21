-- ===== src/Gate/Defs.antt =====
-- The operations of the writer gate, each with the waker that it wakes.
use tinytop.Prelude.{
  ℕ, ◌+◌, ◌%◌, ◌^◌, Bool, true, false, not, ◌&&◌, Option, none, some, List, [], ◌∷◌, ◌++◌, ◌==◌,
  if◌then◌else◌,
}

pub record Waiter : Type 0 where
  pub ticket : ℕ
  pub waker : ℕ

pub record GateState : Type 0 where
  pub locked : Bool
  pub next_ticket : ℕ
  pub waiters : List Waiter

-- `WriterGateState::default()`
abbrev pub initial : GateState
initial = record { locked = false; next_ticket = 0; waiters = [] }

-- `Ready` hands out a guard
pub data Poll : Type 0 where
  ready pending : Poll

unfoldable pub is_empty : List Waiter → Bool
is_empty [] = true
is_empty (x ∷ xs) = false

unfoldable pub front_ticket_is : ℕ → List Waiter → Bool
front_ticket_is t [] = false
front_ticket_is t (x ∷ xs) = x.ticket == t

unfoldable pub pop_front : List Waiter → List Waiter
pop_front [] = []
pop_front (x ∷ xs) = xs

-- the waiter with this ticket is woken through the given waker from now on
unfoldable pub set_waker : ℕ → ℕ → List Waiter → List Waiter
set_waker t w [] = []
set_waker t w (x ∷ xs) = if x.ticket == t then record x { waker = w } ∷ xs else x ∷ set_waker t w xs

-- `retain(|waiter| waiter.ticket != ticket)`
unfoldable pub without : ℕ → List Waiter → List Waiter
without t [] = []
without t (x ∷ xs) = if x.ticket == t then without t xs else x ∷ without t xs

-- the first waiter, of which the program takes the waker
unfoldable pub front_waker : List Waiter → Option Waiter
front_waker [] = none
front_waker (x ∷ xs) = some x

-- a first poll that has to wait: a new ticket at the back of the queue
unfoldable pub queue : GateState → ℕ → GateState
queue s w = record s {
  next_ticket = (s.next_ticket + 1) % 2 ^ 64;
  waiters = s.waiters ++ record { ticket = s.next_ticket; waker = w } ∷ [];
}

-- a poll of a future that holds a ticket
unfoldable pub poll_queued : GateState → ℕ → ℕ → GateState × Option ℕ × Poll
unfolding front_ticket_is pop_front set_waker
poll_queued s ticket w =
    if not s.locked && front_ticket_is ticket s.waiters
    then (record s { waiters = pop_front s.waiters; locked = true }, none, ready)
    else (record s { waiters = set_waker ticket w s.waiters }, some ticket, pending)

-- `WriterGateLock::poll`: the gate, the future's ticket and the waker of the polling task
unfoldable pub poll : GateState → Option ℕ → ℕ → GateState × Option ℕ × Poll
unfolding is_empty queue poll_queued
poll s none w =
    if not s.locked && is_empty s.waiters
    then (record s { locked = true }, none, ready)
    else (queue s w, some s.next_ticket, pending)
poll s (some ticket) w = poll_queued s ticket w

-- `WriterGateLock::drop`: the gate left behind, and the waiter that is woken
unfoldable pub drop_lock : GateState → Option ℕ → GateState × Option Waiter
unfolding front_ticket_is without front_waker
drop_lock s none = (s, none)
drop_lock s (some ticket) =
    let rest = without ticket s.waiters in
    (
      record s { waiters = rest },
      (if not s.locked && front_ticket_is ticket s.waiters then front_waker rest else none),
    )

-- `WriterGateGuard::drop`
unfoldable pub drop_guard : GateState → GateState × Option Waiter
unfolding front_waker
drop_guard s = (record s { locked = false }, front_waker s.waiters)
