-- ===== src/Backoff.antt =====
-- src/backofftimer.cpp, BackoffTimer: a retry timer with capped exponential backoff. Times are
-- `dstime`, 32-bit counts of deciseconds; the clock `Waiter::ds` is an argument of each call.
pub mod Timing
mod Tests
use sdk.Prelude.{
  ℕ, zero, suc, ◌+◌, ◌-◌, ◌*◌, ◌%◌, ◌^◌, List, [], ◌∷◌, Bool, true, false, ◌||◌, ltb, leb, ◌==◌,
  if◌then◌else◌, u32,
}

pub record BackoffTimer : Type 0 where
  pub next : ℕ
  pub delta : ℕ

-- The constructor and BackoffTimer::reset
abbrev pub reset : BackoffTimer
reset = record { next = 0; delta = 1 }

-- BackoffTimer::backoff()
pub backoff : ℕ → BackoffTimer → BackoffTimer
backoff ds t =
    let doubled = u32 (t.delta * 2) in
    record { next = u32 (ds + t.delta); delta = if ltb 36000 doubled then 36000 else doubled }

-- BackoffTimer::backoff(dstime)
pub backoff_by : ℕ → ℕ → BackoffTimer → BackoffTimer
backoff_by ds newdelta t = record { next = u32 (ds + newdelta); delta = newdelta }

-- BackoffTimer::armed
pub armed : ℕ → BackoffTimer → Bool
armed ds t = t.next == 0 || leb t.next ds

-- BackoffTimer::arm
pub arm : ℕ → BackoffTimer → Bool × BackoffTimer
arm ds t =
    if ltb ds (u32 (t.next + t.delta)) then (true, record { next = ds; delta = 1 }) else (false, t)

-- BackoffTimer::retryin
pub retryin : ℕ → BackoffTimer → ℕ
unfolding armed
retryin ds t = if armed ds t then 0 else u32 (t.next + 2 ^ 32 - ds)

-- BackoffTimer::update: the timer and `*waituntil`.
pub update : ℕ → BackoffTimer → ℕ → BackoffTimer × ℕ
update ds t waituntil =
    if t.next == 0
    then (t, waituntil)
    else if leb t.next ds
    then (record t { next = 1 }, 0)
    else if ltb t.next waituntil
    then (t, t.next)
    else (t, waituntil)

-- One `backoff()` at each of the times given.
pub backoffs : List ℕ → BackoffTimer → BackoffTimer
backoffs [] t = t
backoffs (ds ∷ later) t = backoffs later (backoff ds t)

-- Several timers that tell the main loop when to wake up, one after the other.
pub update_all : ℕ → List BackoffTimer → ℕ → ℕ
update_all ds [] waituntil = waituntil
update_all ds (t ∷ ts) waituntil = update_all ds ts (update ds t waituntil).1
