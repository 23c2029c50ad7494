-- ===== src/ApiChannel/Stops.antt =====
-- megaclient.cpp: the loop of `exec` over the channel ends.
use sdk.Prelude.{
  ℕ, ◌+◌, ◌≡◌, ◌∙◌, refl, ap, arith, List, [], ◌∷◌, Bool, true, false, Option, none, some, leb,
  if◌then◌else◌, ◌⊎◌, inl, inr, Bool-cases,
}
use sdk.Backoff.{BackoffTimer, backoff, armed}
use sdk.Backoff.Timing.{IsCapped, IsTime, backoff-armed}
use sdk.Command.{Command}
use sdk.Transfer.{req_inflight, req_failure}
use sdk.ApiChannel.{
  Answer, Channel, World, retry_later, by_status, check_pending, post_commands, swap, choose,
  post_next, go_on, round, exec,
}
use sdk.ApiChannel.Order.{IsOrdered, round-IsOrdered}

-- Right after `post` a request is in flight, or has failed.
abbrev pub IsPosting : World → Type 0
IsPosting w =
    (cmds : List Command)
    → ((w.posted cmds).status ≡ req_inflight) ⊎ ((w.posted cmds).status ≡ req_failure)

-- The request that was posted is out.
abbrev IsOut : World → Channel × Bool → Type 0
IsOut w (c, false) = Unit {0}
IsOut w (c, true) = (cmds : List Command) × (c.pendingcs ≡ some (w.posted cmds))

post_commands-IsOut :
    (w : World) (cmds : List Command) (c : Channel) → IsOut w (post_commands w cmds c)
unfolding post_commands swap
post_commands-IsOut w [] c = tt
post_commands-IsOut w (cmd ∷ cmds) c = (c.here, refl)

post_next-IsOut : (ds : ℕ) (w : World) (c : Channel) → IsOut w (post_next ds w c)
unfolding post_next
post_next-IsOut ds w c = choice (armed ds c.btcs)
  where
    choice :
        (b : Bool) → IsOut w (if b then post_commands w (choose c).here (choose c) else (c, false))
    choice true = post_commands-IsOut w (choose c).here (choose c)
    choice false = tt

go_on-IsOut : (ds : ℕ) (w : World) (o : Option Answer) (c : Channel) → IsOut w (go_on ds w o c)
unfolding go_on
go_on-IsOut ds w none c = post_next-IsOut ds w c
go_on-IsOut ds w (some a) c = tt

round-IsOut : (ds : ℕ) (w : World) (c : Channel) → IsOut w (round ds w c)
unfolding round
round-IsOut ds w c = go_on-IsOut ds w _ _

pub just_set :
    (ds : ℕ) (t : BackoffTimer) → IsTime ds → IsCapped t → armed ds (backoff ds t) ≡ false
just_set ds t time v =
    let test : leb (ds + t.delta) ds ≡ false = ground arith in
    (backoff-armed ds ds t v (ground arith) (omega arith)).0 ∙ test

stays_unarmed :
    (ds : ℕ) (w : World) (c : Channel) → armed ds c.btcs ≡ false → (post_next ds w c).1 ≡ false
unfolding post_next
stays_unarmed ds w c h = rw h refl

failed_stops :
    (ds : ℕ) (w : World) (c : Channel)
    → IsTime ds
    → IsCapped c.btcs
    → (go_on ds w (retry_later ds c).pendingcs (retry_later ds c)).1 ≡ false
unfolding retry_later go_on
failed_stops ds w c time v = stays_unarmed ds w _ (just_set ds c.btcs time v)

in_flight_stops :
    (ds : ℕ) (w : World) (o : Option Answer) (a : Answer) (c : Channel)
    → o ≡ some a
    → (go_on ds w o c).1 ≡ false
in_flight_stops ds w o a c e = ap (λ o. (go_on ds w o c).1) e ∙ unfold go_on in refl

-- A request that has just been posted stops the loop.
out_stops :
    (ds : ℕ) (w : World) (a : Answer) (c : Channel)
    → IsTime ds
    → IsCapped c.btcs
    → c.pendingcs ≡ some a
    → (a.status ≡ req_inflight) ⊎ (a.status ≡ req_failure)
    → (round ds w c).1 ≡ false
unfolding round check_pending by_status
out_stops ds w a c time v out status =
    ap (λ o. (go_on ds w (check_pending ds w o c).pendingcs (check_pending ds w o c)).1) out
    ∙ by_case status
  where
    by_case :
        (a.status ≡ req_inflight) ⊎ (a.status ≡ req_failure)
        → (go_on ds w (check_pending ds w (some a) c).pendingcs (check_pending ds w (some a) c)).1
          ≡ false
    by_case (inl e) =
        ap (λ s. let d = by_status ds w s a.body c in (go_on ds w d.pendingcs d).1) e
        ∙ in_flight_stops ds w c.pendingcs a c out
    by_case (inr e) =
        ap (λ s. let d = by_status ds w s a.body c in (go_on ds w d.pendingcs d).1) e
        ∙ failed_stops ds w c time v

-- A round that goes on has posted a request, and the next one stops.
next_round_stops :
    (ds : ℕ) (w : World) (r : Channel × Bool)
    → IsTime ds
    → IsPosting w
    → IsOut w r
    → IsCapped r.0.btcs
    → r.1 ≡ true
    → (round ds w r.0).1 ≡ false
next_round_stops ds w (c, false) time posting out v e = cc
next_round_stops ds w (c, true) time posting (cmds, out) v e =
    out_stops ds w (w.posted cmds) c time v out (posting cmds)

-- The loop ends within two rounds.
pub exec-IsOrdered :
    (ds : ℕ) (w : World) (c : Channel)
    → IsTime ds
    → IsPosting w
    → IsOrdered c
    → (c' : Channel) × (exec 2 ds w c ≡ some c') × IsOrdered c'
unfolding exec
exec-IsOrdered ds w c time posting v =
    let once = round-IsOrdered ds w c time v in
    elim (Bool-cases (round ds w c).1) [
      | inr stop ↦ ((round ds w c).0, rw stop refl, once)
      | inl again ↦
          let stop =
            next_round_stops ds w (round ds w c) time posting (round-IsOut ds w c) once.1 again in
          ((round ds w (round ds w c).0).0, rw (again, stop) refl, round-IsOrdered ds w _ time once)
    ]
