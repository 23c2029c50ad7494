-- ===== src/Backoff/Timing.antt =====
-- backofftimer.cpp: when a timer that was set back fires, and how the delays grow.
use Prim.Native.Nat.{min}
use sdk.Prelude.{
  ℕ, ◌+◌, ◌*◌, ◌^◌, ◌≤◌, ◌<◌, ◌≡◌, List, [], ◌∷◌, leb, if◌then◌else◌, arith, All, length, refl, ap,
  ◌∙◌, true,
}
use native.Mathlib.Nat.{pow-suc}
use sdk.Backoff.{BackoffTimer, reset, backoff, armed, arm, retryin, update, backoffs, update_all}

-- What every operation but `backoff(dstime)` keeps: the delay is 1 to 36000, an hour.
pub record IsCapped (t : BackoffTimer) : Type 0 where
  pub positive : 1 ≤ t.delta
  pub capped : t.delta ≤ 36000

-- The delay stays between 0.1 seconds and an hour through `reset`, `backoff()`, `arm` and `update`.
pub IsCapped-preserved :
    (ds waituntil : ℕ) (t : BackoffTimer)
    → IsCapped t
    → IsCapped reset
      × IsCapped (backoff ds t)
      × IsCapped (arm ds t).1
      × IsCapped (update ds t waituntil).0
unfolding backoff arm update
IsCapped-preserved ds waituntil t v = (ground arith, ground arith, ground arith, ground arith)

double_delta :
    (ds d : ℕ) (t : BackoffTimer) → t.delta ≡ min d 36000 → (backoff ds t).delta ≡ min (d * 2) 36000
unfolding backoff
double_delta ds d t h = ground arith

backoffs-delta :
    (times : List ℕ) (d : ℕ) (t : BackoffTimer)
    → t.delta ≡ min d 36000
    → (backoffs times t).delta ≡ min (d * 2 ^ length times) 36000
unfolding backoffs
backoffs-delta [] d t h = omega arith
backoffs-delta (ds ∷ times) d t h =
    backoffs-delta times (d * 2) (backoff ds t) (double_delta ds d t h)
    ∙ omega (arith, ap (λ (x : ℕ). d * x) (pow-suc 2 (length times)))

-- Failed attempts since the last reset double the delay each time, up to an hour, whenever they happen.
pub backoffs-exponential :
    (times : List ℕ) → (backoffs times reset).delta ≡ min (2 ^ length times) 36000
backoffs-exponential times = backoffs-delta times 1 reset refl ∙ omega arith

-- After `backoff()` at time `ds` the timer is armed exactly from `ds` plus the delay on, and until
-- then `retryin` is the time that is left. (The sum must not pass 2 ^ 32.)
pub backoff-armed :
    (ds now : ℕ) (t : BackoffTimer)
    → IsCapped t
    → ds + t.delta < 2 ^ 32
    → now < 2 ^ 32
    → (armed now (backoff ds t) ≡ leb (ds + t.delta) now)
      × (now + retryin now (backoff ds t) ≡ (if leb (ds + t.delta) now then now else ds + t.delta))
unfolding backoff armed retryin
backoff-armed ds now t v fits small = ground arith

-- `update` never delays the wake-up time. A timer that is set makes the loop wake up when it fires at
-- the latest, and at once if it has fired. It does not change whether the timer is armed.
pub update_wakes :
    (ds waituntil : ℕ) (t : BackoffTimer)
    → ((update ds t waituntil).1 ≤ waituntil)
      × (1 ≤ t.next → (update ds t waituntil).1 ≤ t.next)
      × (1 ≤ t.next → t.next ≤ ds → (update ds t waituntil).1 ≡ 0)
      × (armed ds (update ds t waituntil).0 ≡ armed ds t)
unfolding update armed
update_wakes ds waituntil t = (ground arith, ground arith, ground arith, ground arith)

update_all-le :
    (ds : ℕ) (ts : List BackoffTimer) (waituntil : ℕ) → update_all ds ts waituntil ≤ waituntil
unfolding update_all
update_all-le ds [] waituntil = omega arith
update_all-le ds (t ∷ ts) waituntil =
    omega (arith, update_all-le ds ts (update ds t waituntil).1, (update_wakes ds waituntil t).0)

-- With several timers the loop wakes up in time for each of them that is set.
pub update_all_wakes :
    (ds : ℕ) (ts : List BackoffTimer) (waituntil : ℕ)
    → (update_all ds ts waituntil ≤ waituntil)
      × All (λ t. 1 ≤ t.next → update_all ds ts waituntil ≤ t.next) ts
unfolding update_all
update_all_wakes ds [] waituntil = (omega arith, tt)
update_all_wakes ds (t ∷ ts) waituntil =
    let first = update_wakes ds waituntil t in
    let later = update_all_wakes ds ts (update ds t waituntil).1 in
    (omega (arith, first.0, later.0), ((λ h. omega (arith, first.1 h, later.0)), later.1))

-- A time at which no 32-bit sum with a delay wraps.
abbrev pub IsTime : ℕ → Type 0
IsTime ds = (1 ≤ ds) × (ds + 36000 < 2 ^ 32)

-- A timer stays set through `backoff()`, `arm` and `update`, and one that is reset stays so.
pub stays_set :
    (ds waituntil : ℕ) (t : BackoffTimer)
    → IsTime ds
    → IsCapped t
    → 1 ≤ t.next
    → (1 ≤ (backoff ds t).next) × (1 ≤ (arm ds t).1.next) × (1 ≤ (update ds t waituntil).0.next)
unfolding backoff arm update
stays_set ds waituntil t h v set = (ground arith, ground arith, ground arith)

pub backoff_sets : (ds : ℕ) (t : BackoffTimer) → IsTime ds → IsCapped t → 1 ≤ (backoff ds t).next
unfolding backoff
backoff_sets ds t h v = ground arith

pub stays_reset :
    (ds waituntil : ℕ)
    → IsTime ds
    → ((arm ds reset).1 ≡ reset) × ((update ds reset waituntil).0 ≡ reset)
unfolding arm update
stays_reset ds waituntil h = (ground arith, ground arith)

-- A timer that was set back has fired after the longest delay.
pub rings_later :
    (ds now : ℕ) (t : BackoffTimer)
    → IsTime ds
    → IsTime now
    → ds + 36000 ≤ now
    → IsCapped t
    → armed now (backoff ds t) ≡ true
unfolding armed backoff
rings_later ds now t h k le v = ground arith

pub reset-armed : (ds : ℕ) → armed ds reset ≡ true
unfolding armed
reset-armed ds = refl
