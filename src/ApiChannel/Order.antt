-- ===== src/ApiChannel/Order.antt =====
-- megaclient.cpp: every command that is added to the channel is processed once, in order, whatever the
-- network does.
use mathlib.Core.List.{append_assoc, append-nil, Memᴰ}
use sdk.Prelude.{
  ℕ, ◌≡◌, ◌≢◌, ◌≤◌, ◌∙◌, refl, sym, ap, subst, arith, List, [], ◌∷◌, ◌++◌, Bool, true, false,
  Option, none, some, ◌==◌, if◌then◌else◌, peek, All, ◌⊎◌, inl, inr,
}
use sdk.Backoff.{reset, armed}
use sdk.Backoff.Timing.{IsCapped, IsCapped-preserved, IsTime, backoff_sets}
use sdk.Command.{Command}
use sdk.Transfer.{
  ReqStatus, req_ready, req_prepared, req_inflight, req_success, req_failure, req_done,
}
use sdk.ApiChannel.{
  Answer, Channel, World, swap, retry_later, process, asks_again, answered, by_status,
  check_pending, post_commands, choose, post_next, go_on, round,
}

-- The commands of the requests whose results were processed, in their order.
abbrev pub all_of : List (List ℕ × List Command) → List Command
all_of [] = []
all_of ((id, cmds) ∷ finished) = all_of finished ++ cmds

-- While no request is out, the timer is set.
abbrev pub HasTurn : Option Answer → ℕ → Type 0
HasTurn none next = 1 ≤ next
HasTurn (some a) next = Unit {0}

-- Nothing waits for an answer.
abbrev pub IsQuiet : Channel → Type 0
IsQuiet c =
    (c.pendingcs ≡ none) × (c.btcs ≡ reset) × (c.other ≡ []) × All (λ p. Memᴰ p c.finished) c.posts

-- The commands in the other buffer wait for an answer.
abbrev pub IsWaiting : Channel → Type 0
IsWaiting c =
    HasTurn c.pendingcs c.btcs.next
    × (c.other ≢ [])
    × All (λ p. Memᴰ p c.finished ⊎ (p ≡ (c.reqid, c.other))) c.posts

-- All commands that were added are, in their order, the ones that were processed, the ones that wait for
-- an answer, and the ones to be posted next. Every request that was posted is one of those that were
-- processed, or the one that waits.
abbrev pub IsOrdered : Channel → Type 0
IsOrdered c =
    (c.added ≡ all_of c.finished ++ (c.other ++ c.here))
    × IsCapped c.btcs
    × (IsQuiet c ⊎ IsWaiting c)

pub append_more : (a b c more : List Command) → (a ++ (b ++ c)) ++ more ≡ a ++ (b ++ (c ++ more))
append_more a b c more = simp append_assoc

retry_later-IsOrdered :
    (ds : ℕ) (c : Channel)
    → IsTime ds
    → c.added ≡ all_of c.finished ++ (c.other ++ c.here)
    → IsCapped c.btcs
    → IsWaiting c
    → IsOrdered (retry_later ds c)
unfolding retry_later
retry_later-IsOrdered ds c time order capped (turn, some_out, posts) = (
  order,
  (IsCapped-preserved ds 0 c.btcs capped).1,
  inr (backoff_sets ds c.btcs time capped, some_out, posts),
)

pub reset-IsCapped : IsCapped reset
reset-IsCapped = record { positive = omega arith; capped = omega arith }

finish_posts :
    (id : List ℕ) (cmds : List Command) (finished posts : List (List ℕ × List Command))
    → All (λ p. Memᴰ p finished ⊎ (p ≡ (id, cmds))) posts
    → All (λ p. Memᴰ p ((id, cmds) ∷ finished)) posts
finish_posts id cmds finished [] h = tt
finish_posts id cmds finished (p ∷ posts) (inl m, h) =
    (Memᴰ.tail m, finish_posts id cmds finished posts h)
finish_posts id cmds finished (p ∷ posts) (inr e, h) =
    (Memᴰ.head e, finish_posts id cmds finished posts h)

process-IsOrdered :
    (w : World) (body : List ℕ) (c : Channel)
    → c.added ≡ all_of c.finished ++ (c.other ++ c.here)
    → IsWaiting c
    → IsOrdered (process w body c)
unfolding process
process-IsOrdered w body c order (turn, some_out, posts) = (
  ap (λ a. a ++ w.results c.other body) order
      ∙ append_more (all_of c.finished) c.other c.here (w.results c.other body)
      ∙ sym (append_assoc (all_of c.finished) c.other (c.here ++ w.results c.other body)),
  reset-IsCapped,
  inl (refl, refl, refl, finish_posts c.reqid c.other c.finished c.posts posts),
)

by_status-IsOrdered :
    (ds : ℕ) (w : World) (s : ReqStatus) (body : List ℕ) (c : Channel)
    → IsTime ds
    → c.added ≡ all_of c.finished ++ (c.other ++ c.here)
    → IsCapped c.btcs
    → IsWaiting c
    → IsOrdered (by_status ds w s body c)
unfolding by_status answered
by_status-IsOrdered ds w req_success body c time order capped waiting =
    choice (asks_again body) (peek body == b'[')
  where
    choice :
        (again array : Bool)
        → IsOrdered (if again then retry_later ds c else if array then process w body c else c)
    choice true array = retry_later-IsOrdered ds c time order capped waiting
    choice false true = process-IsOrdered w body c order waiting
    choice false false = (order, capped, inr waiting)
by_status-IsOrdered ds w req_failure body c time order capped waiting =
    retry_later-IsOrdered ds c time order capped waiting
by_status-IsOrdered ds w req_ready body c time order capped waiting = (order, capped, inr waiting)
by_status-IsOrdered ds w req_prepared body c time order capped waiting =
    (order, capped, inr waiting)
by_status-IsOrdered ds w req_inflight body c time order capped waiting =
    (order, capped, inr waiting)
by_status-IsOrdered ds w req_done body c time order capped waiting = (order, capped, inr waiting)

check_pending-IsOrdered :
    (ds : ℕ) (w : World) (o : Option Answer) (c : Channel)
    → IsTime ds
    → c.pendingcs ≡ o
    → IsOrdered c
    → IsOrdered (check_pending ds w o c)
unfolding check_pending
check_pending-IsOrdered ds w none c time e v = v
check_pending-IsOrdered ds w (some a) c time e (order, capped, inl (idle, timer, no_other, posts)) =
    cc
check_pending-IsOrdered ds w (some a) c time e (order, capped, inr waiting) =
    by_status-IsOrdered ds w a.status a.body c time order capped waiting

weaken :
    (id : List ℕ) (cmds : List Command) (finished posts : List (List ℕ × List Command))
    → All (λ p. Memᴰ p finished) posts
    → All (λ p. Memᴰ p finished ⊎ (p ≡ (id, cmds))) posts
weaken id cmds finished [] h = tt
weaken id cmds finished (p ∷ posts) (m, h) = (inl m, weaken id cmds finished posts h)

-- Posting the commands of a channel in which nothing waits, and posting again the ones that wait.
post_first :
    (w : World) (cmds : List Command) (c : Channel)
    → c.here ≡ cmds
    → c.added ≡ all_of c.finished ++ (c.other ++ c.here)
    → IsCapped c.btcs
    → IsQuiet c
    → IsOrdered (post_commands w cmds c).0
unfolding post_commands swap
post_first w [] c e order capped (idle, timer, no_other, posts) =
    (order, reset-IsCapped, inl (idle, refl, no_other, posts))
post_first w (cmd ∷ cmds) c e order capped (idle, timer, no_other, posts) = (
  order
      ∙ ap (λ t. all_of c.finished ++ (t ++ c.here)) no_other
      ∙ ap (λ t. all_of c.finished ++ t)
          (sym (append-nil c.here) ∙ ap (λ t. c.here ++ t) (sym no_other)),
  capped,
  inr (tt, (λ n. cc), (inr refl, weaken c.reqid c.here c.finished c.posts posts)),
)

post_again :
    (w : World) (cmds : List Command) (c : Channel)
    → c.other ≡ cmds
    → IsOrdered c
    → IsWaiting c
    → IsOrdered (post_commands w cmds (swap c)).0
unfolding post_commands swap
post_again w [] c e (order, capped, mode) (turn, some_out, posts) = absurd (some_out e)
post_again w (cmd ∷ cmds) c e (order, capped, mode) (turn, some_out, posts) =
    (order, capped, inr (tt, some_out, (inr refl, posts)))

choose-IsQuiet : (c : Channel) → IsQuiet c → choose c ≡ c
unfolding choose
choose-IsQuiet c (idle, timer, no_other, posts) =
    let unset = ap (λ t. t.next) timer in
    let test : (c.btcs.next == 0) ≡ true = ground (arith, unset) in rw test refl

choose-IsWaiting : (c : Channel) → c.pendingcs ≡ none → IsWaiting c → choose c ≡ swap c
unfolding choose
choose-IsWaiting c idle (turn, some_out, posts) =
    let set = subst (λ o. HasTurn o c.btcs.next) idle turn in
    let test : (c.btcs.next == 0) ≡ false = ground (arith, set) in rw test refl

when_armed :
    (b : Bool) (c : Channel) (posted : Channel × Bool)
    → IsOrdered posted.0
    → IsOrdered c
    → IsOrdered (if b then posted else (c, false)).0
when_armed true c posted h k = h
when_armed false c posted h k = k

post_next-IsOrdered :
    (ds : ℕ) (w : World) (c : Channel)
    → c.pendingcs ≡ none
    → IsOrdered c
    → IsOrdered (post_next ds w c).0
unfolding post_next
post_next-IsOrdered ds w c idle (order, capped, inl quiet) =
    when_armed (armed ds c.btcs) c _
      (subst (λ d. IsOrdered (post_commands w d.here d).0) (sym (choose-IsQuiet c quiet))
        (post_first w c.here c refl order capped quiet))
      (order, capped, inl quiet)
post_next-IsOrdered ds w c idle (order, capped, inr waiting) =
    when_armed (armed ds c.btcs) c _
      (subst (λ d. IsOrdered (post_commands w d.here d).0) (sym (choose-IsWaiting c idle waiting))
        (post_again w (swap c).here c (unfold swap in refl) (order, capped, inr waiting) waiting))
      (order, capped, inr waiting)

go_on-IsOrdered :
    (ds : ℕ) (w : World) (o : Option Answer) (c : Channel)
    → c.pendingcs ≡ o
    → IsOrdered c
    → IsOrdered (go_on ds w o c).0
unfolding go_on
go_on-IsOrdered ds w none c e v = post_next-IsOrdered ds w c e v
go_on-IsOrdered ds w (some a) c e v = v

pub round-IsOrdered :
    (ds : ℕ) (w : World) (c : Channel) → IsTime ds → IsOrdered c → IsOrdered (round ds w c).0
unfolding round
round-IsOrdered ds w c time v =
    go_on-IsOrdered ds w _ _ refl (check_pending-IsOrdered ds w c.pendingcs c time refl v)
