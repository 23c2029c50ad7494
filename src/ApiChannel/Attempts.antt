-- ===== src/ApiChannel/Attempts.antt =====
-- megaclient.cpp: what a failed attempt to post a request does to the channel.
use sdk.Prelude.{
  ℕ, ◌+◌, ◌≡◌, ◌≢◌, ◌≤◌, ◌∙◌, refl, ap, arith, List, [], ◌∷◌, Bool, true, false, none, some, ◌==◌,
  peek, ◌⊎◌, inl, inr,
}
use sdk.Backoff.{backoff, armed}
use sdk.Backoff.Timing.{IsCapped, IsCapped-preserved, IsTime, backoff_sets, rings_later}
use sdk.Command.{Command}
use sdk.Transfer.{
  ReqStatus, req_ready, req_prepared, req_inflight, req_success, req_failure, req_done,
}
use sdk.ApiChannel.{
  Answer, Channel, World, swap, retry_later, process, asks_again, answered, by_status,
  check_pending, post_commands, choose, post_next, go_on, round, exec, Event, reports, execs,
  report, step, run,
}
use sdk.ApiChannel.Stops.{just_set}

-- The request failed, or the server asks for it again.
abbrev pub IsBad : ReqStatus → List ℕ → Type 0
IsBad req_failure body = Unit {0}
IsBad req_success body = asks_again body ≡ true
IsBad req_ready body = ⊥
IsBad req_prepared body = ⊥
IsBad req_inflight body = ⊥
IsBad req_done body = ⊥

-- A bad answer, the time at which `exec` sees it, and the next time at which `exec` runs.
pub record Attempt : Type 0 where
  pub answer : Answer
  pub failed : ℕ
  pub again : ℕ

-- The next time is after the longest delay.
abbrev pub IsAttempt : Attempt → Type 0
IsAttempt a =
    IsBad a.answer.status a.answer.body
    × IsTime a.failed
    × IsTime a.again
    × (a.failed + 36000 ≤ a.again)

abbrev pub retries : World → List Attempt → List Event → List Event
retries w [] es = es
retries w (a ∷ more) es = reports a.answer ∷ execs a.failed w ∷ execs a.again w ∷ retries w more es

-- A request is in flight right after `post`.
abbrev pub IsSending : World → Type 0
IsSending w = (cmds : List Command) → (w.posted cmds).status ≡ req_inflight

-- A request is out.
abbrev pub IsSent : Channel → Type 0
IsSent c = ((p : Answer) × (c.pendingcs ≡ some p)) × IsCapped c.btcs × (c.other ≢ [])

pub stops_at_once :
    (ds : ℕ) (w : World) (c c' : Channel) → round ds w c ≡ (c', false) → exec 2 ds w c ≡ some c'
unfolding exec
stops_at_once ds w c c' e = rw e refl

pub stops_then :
    (ds : ℕ) (w : World) (c : Channel) (r : Channel × Bool)
    → round ds w c ≡ r
    → (round ds w r.0).1 ≡ false
    → (exec 2 ds w c ≡ some r.0) ⊎ (exec 2 ds w c ≡ some (round ds w r.0).0)
unfolding exec
stops_then ds w c (c', false) e stop = inl (rw e refl)
stops_then ds w c (c', true) e stop = inr (rw (e, stop) refl)

pub bad_answer :
    (ds : ℕ) (w : World) (s : ReqStatus) (body : List ℕ) (c : Channel)
    → IsBad s body
    → by_status ds w s body c ≡ retry_later ds c
unfolding by_status answered
bad_answer ds w req_success body c h = rw h refl
bad_answer ds w req_failure body c h = refl
bad_answer ds w req_ready body c h = absurd h
bad_answer ds w req_prepared body c h = absurd h
bad_answer ds w req_inflight body c h = absurd h
bad_answer ds w req_done body c h = absurd h

pub not_yet :
    (ds : ℕ) (w : World) (c : Channel) → armed ds c.btcs ≡ false → post_next ds w c ≡ (c, false)
unfolding post_next
not_yet ds w c h = rw h refl

-- A bad answer sets the timer, and `exec` ends.
pub exec_failed :
    (ds : ℕ) (w : World) (a : Answer) (c : Channel)
    → IsTime ds
    → IsCapped c.btcs
    → IsBad a.status a.body
    → exec 2 ds w (record c { pendingcs = some a })
      ≡ some (retry_later ds (record c { pendingcs = some a }))
unfolding round check_pending
exec_failed ds w a c time v bad =
    let out = record c { pendingcs = some a } in
    stops_at_once ds w out (retry_later ds out) (
      ap (λ d. go_on ds w d.pendingcs d) (bad_answer ds w a.status a.body out bad)
      ∙ unfold retry_later go_on in not_yet ds w (retry_later ds out) (just_set ds c.btcs time v))

-- The request that was posted, with the commands that wait.
abbrev pub resent : World → Channel → Channel
resent w c = record c {
  here = c.here;
  other = c.other;
  pendingcs = some (w.posted c.other);
  posts = (c.reqid, c.other) ∷ c.posts;
}

pub post_other :
    (w : World) (cmds : List Command) (c : Channel)
    → c.other ≡ cmds
    → c.other ≢ []
    → post_commands w cmds (swap c) ≡ (resent w c, true)
unfolding post_commands swap
post_other w [] c e some_out = absurd (some_out e)
post_other w (cmd ∷ cmds) c e some_out = refl

pub post_again :
    (ds : ℕ) (w : World) (c : Channel)
    → armed ds c.btcs ≡ true
    → 1 ≤ c.btcs.next
    → c.other ≢ []
    → post_next ds w c ≡ (resent w c, true)
unfolding post_next choose
post_again ds w c ready set some_out =
    let test : (c.btcs.next == 0) ≡ false = ground (arith, set) in
    rw (ready, test) (post_other w (swap c).here c (unfold swap in refl) some_out)

-- A request in flight is left alone.
pub in_flight :
    (ds : ℕ) (w : World) (a : Answer) (c : Channel)
    → a.status ≡ req_inflight
    → round ds w (record c { pendingcs = some a }) ≡ (record c { pendingcs = some a }, false)
unfolding round check_pending
in_flight ds w a c e =
    let out = record c { pendingcs = some a } in
    ap (λ s. let d = by_status ds w s a.body out in go_on ds w d.pendingcs d) e
    ∙ unfold by_status go_on in refl

pub stops_later :
    (ds : ℕ) (w : World) (c c' : Channel)
    → round ds w c ≡ (c', true)
    → round ds w c' ≡ (c', false)
    → exec 2 ds w c ≡ some c'
unfolding exec
stops_later ds w c c' e e' = rw (e, e') refl

pub exec_again :
    (ds : ℕ) (w : World) (c : Channel)
    → IsSending w
    → armed ds c.btcs ≡ true
    → 1 ≤ c.btcs.next
    → c.other ≢ []
    → exec 2 ds w (record c { pendingcs = none }) ≡ some (resent w c)
exec_again ds w c sending ready set some_out =
    stops_later ds w (record c { pendingcs = none }) (resent w c)
      (unfold round check_pending go_on in
        post_again ds w (record c { pendingcs = none }) ready set some_out)
      (in_flight ds w (w.posted c.other) (resent w c) (sending c.other))

-- The channel after a failed attempt and the next post.
abbrev pub retried : World → Attempt → Channel → Channel
retried w a c = resent w (record c { btcs = backoff a.failed c.btcs; csretrying = true })

pub run-step :
    (e : Event) (es : List Event) (c c' : Channel) → step e c ≡ some c' → run (e ∷ es) c ≡ run es c'
unfolding run
run-step e es c c' h = rw (h, run) refl

pub reports-sent :
    (a : Answer) (c : Channel)
    → IsSent c
    → step (reports a) c ≡ some (record c { pendingcs = some a })
unfolding step report
reports-sent a c ((p, out), capped, some_out) = rw out refl

pub run_attempt :
    (w : World) (a : Attempt) (es : List Event) (c : Channel)
    → IsSending w
    → IsAttempt a
    → IsSent c
    → run (reports a.answer ∷ execs a.failed w ∷ execs a.again w ∷ es) c ≡ run es (retried w a c)
unfolding step
run_attempt w a es c sending h (out, capped, some_out) =
    let first = record c { pendingcs = some a.answer } in
    let second = record c { pendingcs = none; btcs = backoff a.failed c.btcs; csretrying = true } in
    let rings = rings_later a.failed a.again c.btcs h.1 h.2 h.3 capped in
    let set = backoff_sets a.failed c.btcs h.1 capped in
    let fails : step (execs a.failed w) first ≡ some second =
      exec_failed a.failed w a.answer c h.1 capped h.0 ∙ unfold retry_later in refl in
    let resends : step (execs a.again w) second ≡ some (retried w a c) =
      exec_again a.again w (record c { btcs = backoff a.failed c.btcs; csretrying = true }) sending
        rings set some_out in
    run-step (reports a.answer) (execs a.failed w ∷ execs a.again w ∷ es) c first
      (reports-sent a.answer c (out, capped, some_out))
    ∙ run-step (execs a.failed w) (execs a.again w ∷ es) first second fails
    ∙ run-step (execs a.again w) es second (retried w a c) resends

pub retried-IsSent : (w : World) (a : Attempt) (c : Channel) → IsSent c → IsSent (retried w a c)
retried-IsSent w a c (out, capped, some_out) =
    ((w.posted c.other, refl), (IsCapped-preserved a.failed 0 c.btcs capped).1, some_out)

-- The answer.
pub processed :
    (w : World) (body : List ℕ) (ds : ℕ) (c : Channel)
    → asks_again body ≡ false
    → (peek body == b'[') ≡ true
    → by_status ds w req_success body c ≡ process w body c
unfolding by_status answered
processed w body ds c h k = rw (h, k) refl
