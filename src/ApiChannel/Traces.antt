-- ===== src/ApiChannel/Traces.antt =====
-- megaclient.cpp: the order of the commands through any sequence of events.
use sdk.Prelude.{
  ℕ, ◌≡◌, ◌≤◌, ◌∙◌, refl, ap, subst, List, [], ◌∷◌, ◌++◌, Option, none, some, All, inl, inr,
}
use sdk.Backoff.{BackoffTimer, reset, arm, update}
use sdk.Backoff.Timing.{IsCapped, IsCapped-preserved, IsTime, stays_set, stays_reset}
use sdk.Command.{Command}
use sdk.ApiChannel.{
  Answer, Channel, add, Event, adds, reports, execs, waits, wakes, report, timer_at, step, run,
}
use sdk.ApiChannel.Order.{HasTurn, IsOrdered, all_of, append_more}
use sdk.ApiChannel.Stops.{IsPosting, exec-IsOrdered}

-- The times at which things happen, and what `post` does.
abbrev pub IsTimely : Event → Type 0
IsTimely (adds cmds) = Unit {0}
IsTimely (reports a) = Unit {0}
IsTimely (execs ds w) = IsTime ds × IsPosting w
IsTimely (waits ds waituntil) = IsTime ds
IsTimely (wakes ds) = IsTime ds

add-IsOrdered : (cmds : List Command) (c : Channel) → IsOrdered c → IsOrdered (add cmds c)
unfolding add
add-IsOrdered cmds c (order, capped, mode) =
    (ap (λ a. a ++ cmds) order ∙ append_more (all_of c.finished) c.other c.here cmds, capped, mode)

-- A change of the timer alone, which leaves it set or reset as it is.
new_timer :
    (c : Channel) (t : BackoffTimer)
    → IsCapped t
    → (c.btcs ≡ reset → t ≡ reset)
    → (HasTurn c.pendingcs c.btcs.next → HasTurn c.pendingcs t.next)
    → IsOrdered c
    → IsOrdered (record c { btcs = t })
new_timer c t still quiet_too turn_too (order, capped, inl (idle, timer, no_other, posts)) =
    (order, still, inl (idle, quiet_too timer, no_other, posts))
new_timer c t still quiet_too turn_too (order, capped, inr (turn, some_out, posts)) =
    (order, still, inr (turn_too turn, some_out, posts))

report-IsOrdered :
    (a : Answer) (o : Option Answer) (c : Channel)
    → c.pendingcs ≡ o
    → IsOrdered c
    → IsOrdered (record c { pendingcs = report a o })
unfolding report
report-IsOrdered a none c e (order, capped, inl (idle, timer, no_other, posts)) =
    (order, capped, inl (refl, timer, no_other, posts))
report-IsOrdered a none c e (order, capped, inr (turn, some_out, posts)) =
    (order, capped, inr (subst (λ o. HasTurn o c.btcs.next) e turn, some_out, posts))
report-IsOrdered a (some b) c e (order, capped, inl (idle, timer, no_other, posts)) = cc
report-IsOrdered a (some b) c e (order, capped, inr (turn, some_out, posts)) =
    (order, capped, inr (tt, some_out, posts))

turn_stays : (o : Option Answer) (old new : ℕ) → (1 ≤ old → 1 ≤ new) → HasTurn o old → HasTurn o new
turn_stays none old new f h = f h
turn_stays (some a) old new f h = tt

timer_at-IsOrdered :
    (ds waituntil : ℕ) (o : Option Answer) (c : Channel)
    → IsTime ds
    → IsOrdered c
    → IsOrdered (record c { btcs = timer_at ds waituntil o c.btcs })
unfolding timer_at
timer_at-IsOrdered ds waituntil (some a) c time v = v
timer_at-IsOrdered ds waituntil none c time v =
    new_timer c _ (IsCapped-preserved ds waituntil c.btcs v.1).3
      (λ e. ap (λ t. (update ds t waituntil).0) e ∙ (stays_reset ds waituntil time).1)
      (turn_stays c.pendingcs _ _ (λ set. (stays_set ds waituntil c.btcs time v.1 set).2)) v

-- What holds of the result, which there is.
abbrev pub HasResult : (Channel → Type 0) → Option Channel → Type 0
HasResult P o = (c : Channel) × (o ≡ some c) × P c

step-IsOrdered :
    (e : Event) (c : Channel) → IsTimely e → IsOrdered c → HasResult IsOrdered (step e c)
unfolding step
step-IsOrdered (adds cmds) c time v = (_, refl, add-IsOrdered cmds c v)
step-IsOrdered (reports a) c time v = (_, refl, report-IsOrdered a c.pendingcs c refl v)
step-IsOrdered (execs ds w) c (time, posting) v = exec-IsOrdered ds w c time posting v
step-IsOrdered (waits ds waituntil) c time v =
    (_, refl, timer_at-IsOrdered ds waituntil c.pendingcs c time v)
step-IsOrdered (wakes ds) c time v = (
  _,
  refl,
  new_timer c _ (IsCapped-preserved ds 0 c.btcs v.1).2
      (λ e. ap (λ t. (arm ds t).1) e ∙ (stays_reset ds 0 time).0)
      (turn_stays c.pendingcs _ _ (λ set. (stays_set ds 0 c.btcs time v.1 set).1)) v,
)

-- Whatever happens, in any order, `exec` comes back each time, and of all commands that were added, in their
-- order, the first ones were processed, the next ones wait for an answer, and the rest is to be posted;
-- none is lost, doubled or overtaken. Every request that was posted is one that was processed, with the same
-- id and commands, or the one that waits. Conditions: the clock does not come near the end of its 32 bits, or
-- to 0, and a posted request is in flight or has failed.
pub run-IsOrdered :
    (es : List Event) (c : Channel) → All IsTimely es → IsOrdered c → HasResult IsOrdered (run es c)
unfolding run
run-IsOrdered [] c time v = (c, refl, v)
run-IsOrdered (e ∷ es) c (now, later) v =
    let (c', one, still) = step-IsOrdered e c now v in
    let (c'', rest, last) = run-IsOrdered es c' later still in (c'', rw (one, run) rest, last)
