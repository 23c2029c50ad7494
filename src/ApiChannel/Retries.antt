-- ===== src/ApiChannel/Retries.antt =====
-- megaclient.cpp: a request that fails again and again is repeated until it is answered.
use sdk.Prelude.{ℕ, ◌≡◌, ◌∙◌, refl, ap, List, [], ◌∷◌, true, false, some, ◌==◌, peek, All}
use sdk.Backoff.{BackoffTimer, reset, armed}
use sdk.Backoff.Timing.{reset-armed}
use sdk.Command.{Command}
use sdk.Transfer.{req_success}
use sdk.ApiChannel.{
  Answer, Channel, World, next_id, swap, process, asks_again, by_status, check_pending,
  post_commands, choose, post_next, go_on, round, exec, reports, execs, step, run,
}
use sdk.ApiChannel.Traces.{HasResult}
use sdk.ApiChannel.Attempts.{
  Attempt, IsAttempt, retries, IsSending, IsSent, stops_at_once, in_flight, stops_later, retried,
  run-step, reports-sent, run_attempt, retried-IsSent, processed,
}

-- The results of the commands that waited were processed.
abbrev pub IsDone : Channel → Channel → Type 0
IsDone c c' = (c'.finished ≡ (c.reqid, c.other) ∷ c.finished) × (c'.reqid ≡ next_id c.reqid)

abbrev pub posted : World → Channel → Channel
posted w c = record c {
  here = c.other;
  other = c.here;
  pendingcs = some (w.posted c.here);
  posts = (c.reqid, c.here) ∷ c.posts;
}

-- What `exec` does after a round that has come to post the next commands.
post_new :
    (ds : ℕ) (w : World) (cmds : List Command) (s c : Channel)
    → IsSending w
    → round ds w s ≡ post_commands w cmds c
    → (c' : Channel) × (exec 2 ds w s ≡ some c') × (c'.finished ≡ c.finished) × (c'.reqid ≡ c.reqid)
unfolding post_commands swap
post_new ds w [] s c sending e = (record c { btcs = reset }, stops_at_once ds w s _ e, refl, refl)
post_new ds w (cmd ∷ cmds) s c sending e = (
  posted w c,
  stops_later ds w s (posted w c) e
      (in_flight ds w (w.posted c.here) (posted w c) (sending c.here)),
  refl,
  refl,
)

quiet_posts :
    (ds : ℕ) (w : World) (c : Channel)
    → c.btcs ≡ reset
    → post_next ds w c ≡ post_commands w c.here c
unfolding post_next choose
quiet_posts ds w c e =
    let ready : armed ds c.btcs ≡ true = ap (λ t. armed ds t) e ∙ reset-armed ds in
    let test : (c.btcs.next == 0) ≡ true = ap (λ (t : BackoffTimer). t.next == 0) e in
    rw (ready, test) refl

exec_answered :
    (w : World) (a : Answer) (ds : ℕ) (c : Channel)
    → IsSending w
    → a.status ≡ req_success
    → asks_again a.body ≡ false
    → (peek a.body == b'[') ≡ true
    → HasResult (IsDone c) (exec 2 ds w (record c { pendingcs = some a }))
unfolding round check_pending
exec_answered w a ds c sending good h k =
    let out = record c { pendingcs = some a } in
    let done = process w a.body out in
    let now : by_status ds w a.status a.body out ≡ done =
      ap (λ s. by_status ds w s a.body out) good ∙ processed w a.body ds out h k in
    let go : round ds w out ≡ post_commands w done.here done =
      ap (λ d. go_on ds w d.pendingcs d) now ∙ unfold go_on process in quiet_posts ds w done refl in
    let (c', result, same, id) = post_new ds w done.here out done sending go in
    (c', result, unfold process in (same, id))

-- A request that is out is repeated as often as it fails or the server asks for it again, with the same
-- commands, and its results are processed when at last there is an answer that is an array: the commands
-- that waited are finished under the id they were posted with. Conditions: between a failure and the
-- next run of `exec` passes the longest delay, an hour; the clock does not come near the end of its 32 bits,
-- or to 0; a request is in flight right after it was posted.
pub retries-IsDone :
    (w : World) (attempts : List Attempt) (a : Answer) (ds : ℕ) (c : Channel)
    → IsSending w
    → All IsAttempt attempts
    → a.status ≡ req_success
    → asks_again a.body ≡ false
    → (peek a.body == b'[') ≡ true
    → IsSent c
    → HasResult (IsDone c) (run (retries w attempts (reports a ∷ execs ds w ∷ [])) c)
unfolding run step
retries-IsDone w [] a ds c sending h good plain array sent =
    let (c', result, done) = exec_answered w a ds c sending good plain array in
    (
      c',
      run-step (reports a) (execs ds w ∷ []) c (record c { pendingcs = some a })
            (reports-sent a c sent)
          ∙ run-step (execs ds w) [] (record c { pendingcs = some a }) c' result,
      done,
    )
retries-IsDone w (b ∷ more) a ds c sending (h, hs) good plain array sent =
    let (c', result, done) =
      retries-IsDone w more a ds (retried w b c) sending hs good plain array
        (retried-IsSent w b c sent) in
    (
      c',
      run_attempt w b (retries w more (reports a ∷ execs ds w ∷ [])) c sending h sent ∙ result,
      done,
    )
