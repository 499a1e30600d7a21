-- ===== src/Gate/System.antt =====
-- All writers of one gate: the steps that tasks can take, in any order.
use tinytop.Prelude.{ℕ, ◌+◌, ◌-◌, ◌<◌, ◌≡◌, ◌⊎◌, Option, none, some, List, [], ◌∷◌}
use tinytop.Gate.Defs.{
  Waiter, GateState, initial, Poll, ready, pending, poll, drop_lock, drop_guard, without,
}

-- `guards` counts the guards that are alive; `notified` holds the waiters that were woken and have
-- not been polled since; `granted` is the history of queued tickets that got the lock, the last first.
pub record System : Type 0 where
  pub gate : GateState
  pub guards : ℕ
  pub notified : List Waiter
  pub granted : List ℕ

abbrev pub start : System
start = record { gate = initial; guards = 0; notified = []; granted = [] }

abbrev pub Elem : {A : Type 0} → A → List A → Type 0
Elem x [] = ⊥
Elem x (y ∷ ys) = (x ≡ y) ⊎ Elem x ys

abbrev pub HasTicket : ℕ → List Waiter → Type 0
HasTicket t [] = ⊥
HasTicket t (x ∷ xs) = (x.ticket ≡ t) ⊎ HasTicket t xs

abbrev pub notify : Option Waiter → List Waiter → List Waiter
notify none ws = ws
notify (some x) ws = x ∷ ws

abbrev pub guards_of : Poll → ℕ
guards_of ready = 1
guards_of pending = 0

abbrev pub grant : Poll → ℕ → List ℕ → List ℕ
grant ready t ts = t ∷ ts
grant pending t ts = ts

-- a task polls a new lock future for the first time
abbrev pub arrive : System → ℕ → System
arrive s w =
    let (g, _, p) = poll s.gate none w in record s { gate = g; guards = s.guards + guards_of p }

-- a task polls a future that holds a ticket
abbrev pub repoll : System → ℕ → ℕ → System
repoll s t w =
    let (g, _, p) = poll s.gate (some t) w in
    record s {
      gate = g;
      guards = s.guards + guards_of p;
      notified = without t s.notified;
      granted = grant p t s.granted;
    }

-- a future that holds a ticket is dropped
abbrev pub cancel : System → ℕ → System
cancel s t =
    let (g, woken) = drop_lock s.gate (some t) in
    record s { gate = g; notified = notify woken (without t s.notified) }

-- a guard is dropped
abbrev pub release : System → System
release s =
    let (g, woken) = drop_guard s.gate in
    record s { gate = g; guards = s.guards - 1; notified = notify woken s.notified }

pub data Step : System → System → Type 0 where
  arrives : (s : System) (w : ℕ) → Step s (arrive s w)
  repolls : (s : System) (t w : ℕ) → HasTicket t s.gate.waiters → Step s (repoll s t w)
  cancels : (s : System) (t : ℕ) → HasTicket t s.gate.waiters → Step s (cancel s t)
  releases : (s : System) → 0 < s.guards → Step s (release s)

pub data Reach (s : System) : System → Type 0 where
  here : Reach s s
  then_step : {t u : System} → Reach s t → Step t u → Reach s u
