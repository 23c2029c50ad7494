-- ===== src/ApiChannel.antt =====
-- src/megaclient.cpp, MegaClient::exec: the client-server channel of the API, which posts the commands that
-- have been added as one request, and repeats the request until it is answered. The state is what `exec`
-- keeps of it: `reqs[r]` is `here` and `reqs[r ^ 1]` is `other`, so that `r ^= 1` exchanges them.
pub mod Attempts
pub mod Ids
pub mod Order
pub mod Retries
pub mod Stops
pub mod Traces
mod Tests
use sdk.Prelude.{
  ℕ, zero, suc, ◌+◌, ◌%◌, ◌^◌, List, [], ◌∷◌, ◌++◌, Bool, true, false, not, ◌&&◌, ◌||◌, Option,
  none, some, ltb, leb, ◌==◌, if◌then◌else◌, peek, length,
}
use sdk.Backoff.{BackoffTimer, reset, backoff, armed, arm, update}
use sdk.Command.{Command}
use sdk.Fingerprint.{same_bytes}
use sdk.Transfer.{
  ReqStatus, req_ready, req_prepared, req_inflight, req_success, req_failure, req_done,
}

-- `pendingcs`: the status of the request and what was received.
pub record Answer : Type 0 where
  pub status : ReqStatus
  pub body : List ℕ

-- The channel. The last three fields are a log: the requests that were posted, each with its id, the ones
-- whose results were processed, both with the latest first, and all commands that were added.
pub record Channel : Type 0 where
  pub here : List Command
  pub other : List Command
  pub pendingcs : Option Answer
  pub btcs : BackoffTimer
  pub csretrying : Bool
  pub reqid : List ℕ
  pub posts : List (List ℕ × List Command)
  pub finished : List (List ℕ × List Command)
  pub added : List Command

-- The commands that the handlers of results add, while the results of these commands are read from the
-- answer; and the status of a request right after `post`.
pub record World : Type 0 where
  pub results : List Command → List ℕ → List Command
  pub posted : List Command → Answer

-- The loop that increments `reqid` at one character, if it comes to it.
pub increment_at : ℕ → List ℕ → Bool → List ℕ × Bool
increment_at c rest false = (c ∷ rest, false)
increment_at c rest true = if ltb c b'z' then ((c + 1) ∷ rest, false) else (b'a' ∷ rest, true)

-- The loop that increments `reqid`: the id from some character on, and whether the loop runs on in front
-- of it.
pub increment : List ℕ → List ℕ × Bool
increment [] = ([], true)
increment (c ∷ id) = let (rest, carry) = increment id in increment_at c rest carry

pub next_id : List ℕ → List ℕ
next_id id = (increment id).0

-- Request::add to `reqs[r]`
pub add : List Command → Channel → Channel
add cmds c = record c { here = c.here ++ cmds; added = c.added ++ cmds }

-- `r ^= 1`
pub swap : Channel → Channel
swap c = record c { here = c.other; other = c.here }

-- REQ_FAILURE
pub retry_later : ℕ → Channel → Channel
retry_later ds c = record c { pendingcs = none; btcs = backoff ds c.btcs; csretrying = true }

-- The results are an array.
pub process : World → List ℕ → Channel → Channel
process w body c =
    let more = w.results c.other body in
    record c {
      here = c.here ++ more;
      other = [];
      pendingcs = none;
      btcs = reset;
      csretrying = false;
      reqid = next_id c.reqid;
      finished = (c.reqid, c.other) ∷ c.finished;
      added = c.added ++ more;
    }

-- The texts "-3" and "-4"
abbrev pub asks_again : List ℕ → Bool
asks_again body = same_bytes body (b'-' ∷ b'3' ∷ []) || same_bytes body (b'-' ∷ b'4' ∷ [])

-- REQ_SUCCESS. An error that is none of the two leaves the request as it is.
pub answered : ℕ → World → List ℕ → Channel → Channel
answered ds w body c =
    if asks_again body then retry_later ds c else if peek body == b'[' then process w body c else c

-- The `switch` on the status of the request.
pub by_status : ℕ → World → ReqStatus → List ℕ → Channel → Channel
by_status ds w req_success body c = answered ds w body c
by_status ds w req_failure body c = retry_later ds c
by_status ds w req_ready body c = c
by_status ds w req_prepared body c = c
by_status ds w req_inflight body c = c
by_status ds w req_done body c = c

pub check_pending : ℕ → World → Option Answer → Channel → Channel
check_pending ds w none c = c
check_pending ds w (some a) c = by_status ds w a.status a.body c

-- Posting `reqs[r]`, if there is any command in it: whether the loop goes on.
pub post_commands : World → List Command → Channel → Channel × Bool
post_commands w [] c = (record c { btcs = reset }, false)
post_commands w (cmd ∷ cmds) c = (
  swap (record c { pendingcs = some (w.posted c.here); posts = (c.reqid, c.here) ∷ c.posts }),
  true,
)

-- After a failure the request is the one in the other buffer.
pub choose : Channel → Channel
choose c = if not (c.btcs.next == 0) then swap c else c

pub post_next : ℕ → World → Channel → Channel × Bool
post_next ds w c =
    if armed ds c.btcs then post_commands w (choose c).here (choose c) else (c, false)

-- One round of the loop.
pub go_on : ℕ → World → Option Answer → Channel → Channel × Bool
go_on ds w none c = post_next ds w c
go_on ds w (some a) c = (c, false)

pub round : ℕ → World → Channel → Channel × Bool
round ds w c = let c' = check_pending ds w c.pendingcs c in go_on ds w c'.pendingcs c'

-- The loop; `none` says that the fuel ran out.
pub exec : ℕ → ℕ → World → Channel → Option Channel
exec zero ds w c = none
exec (suc fuel) ds w c =
    let (c', again) = round ds w c in
    let rest = exec fuel ds w c' in if again then rest else some c'

-- What happens to the channel: a command is added, the network reports on the request, `exec` runs,
-- `wait` looks at the timer, and `abortbackoff` shortens a delay; each at a time.
pub data Event : Type 0 where
  adds : List Command → Event
  reports : Answer → Event
  execs : ℕ → World → Event
  waits : ℕ → ℕ → Event
  wakes : ℕ → Event

pub report : Answer → Option Answer → Option Answer
report a none = none
report a (some b) = some a

-- `wait` leaves the timer alone while a request is out.
pub timer_at : ℕ → ℕ → Option Answer → BackoffTimer → BackoffTimer
timer_at ds waituntil none t = (update ds t waituntil).0
timer_at ds waituntil (some a) t = t

-- The rounds that `exec` needs.
abbrev pub enough : ℕ
enough = 2

pub step : Event → Channel → Option Channel
step (adds cmds) c = some (add cmds c)
step (reports a) c = some (record c { pendingcs = report a c.pendingcs })
step (execs ds w) c = exec enough ds w c
step (waits ds waituntil) c = some (record c { btcs = timer_at ds waituntil c.pendingcs c.btcs })
step (wakes ds) c = some (record c { btcs = (arm ds c.btcs).1 })

pub run : List Event → Channel → Option Channel
run [] c = some c
run (e ∷ es) c = elim (step e c) [ none ↦ none | some c' ↦ run es c' ]
