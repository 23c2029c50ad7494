-- ===== src/ApiChannel/Tests.antt =====
-- Tests of the client-server channel and witnesses of its theorems, on the commands `{"a":"ug"}` and
-- `{"a":"uq"}`.
use sdk.Prelude.{◌≡◌, ◌+◌, ◌%◌, ◌^◌, refl, arith, List, [], ◌∷◌, false, none, some, inl}
use sdk.Backoff.{reset}
use sdk.Command.{Command, new_command, cmd}
use sdk.Transfer.{req_inflight, req_success, req_failure}
use sdk.Fingerprint.{same_bytes}
use sdk.ApiChannel.{next_id, Answer, Channel, World, Event, adds, reports, execs, waits, wakes, run}
use sdk.ApiChannel.Order.{IsOrdered, reset-IsCapped}
use sdk.ApiChannel.Traces.{HasResult, run-IsOrdered}
use sdk.ApiChannel.Ids.{value, next_id-value}
use sdk.ApiChannel.Attempts.{Attempt, retries}
use sdk.ApiChannel.Retries.{IsDone, retries-IsDone}

abbrev usage : Command
usage = cmd (b'u' ∷ b'g' ∷ []) (new_command (0 ∷ []))

abbrev quota : Command
quota = cmd (b'u' ∷ b'q' ∷ []) (new_command (0 ∷ []))

abbrev in_flight : Answer
in_flight = record { status = req_inflight; body = [] }

abbrev failed : Answer
failed = record { status = req_failure; body = [] }

-- `-3` and `[0]`
abbrev again : Answer
again = record { status = req_success; body = b'-' ∷ b'3' ∷ [] }

abbrev success : Answer
success = record { status = req_success; body = b'[' ∷ b'0' ∷ b']' ∷ [] }

-- The handlers of results add no command.
abbrev network : World
network = record { results = (λ cmds body. []); posted = (λ cmds. in_flight) }

abbrev start : Channel
start = record {
  here = [];
  other = [];
  pendingcs = none;
  btcs = reset;
  csretrying = false;
  reqid = b'a' ∷ b'z' ∷ [];
  posts = [];
  finished = [];
  added = [];
}

-- A second command is added while the first request is out, and the request fails once.
abbrev events : List Event
events =
    adds (usage ∷ [])
    ∷ execs 1 network
    ∷ adds (quota ∷ [])
    ∷ reports failed
    ∷ execs 100 network
    ∷ waits 101 500
    ∷ wakes 102
    ∷ execs 103 network
    ∷ reports success
    ∷ execs 110 network
    ∷ []

run-IsOrdered_example : HasResult IsOrdered (run events start)
run-IsOrdered_example =
    run-IsOrdered events start
      (
        tt,
        (
          ((omega arith, omega arith), (λ cmds. inl refl)),
          (
            tt,
            (
              tt,
              (
                ((omega arith, omega arith), (λ cmds. inl refl)),
                (
                  (omega arith, omega arith),
                  (
                    (omega arith, omega arith),
                    (
                      ((omega arith, omega arith), (λ cmds. inl refl)),
                      (tt, (((omega arith, omega arith), (λ cmds. inl refl)), tt)),
                    ),
                  ),
                ),
              ),
            ),
          ),
        ),
      )
      (refl, reset-IsCapped, inl (refl, refl, refl, tt))

next_id-value_example : value (next_id (b'a' ∷ b'z' ∷ [])) ≡ (value (b'a' ∷ b'z' ∷ []) + 1) % 26 ^ 2
next_id-value_example =
    next_id-value (b'a' ∷ b'z' ∷ []) ((omega arith, omega arith), (omega arith, omega arith))

-- The channel with a request out.
abbrev sent : Channel
sent = record {
  here = [];
  other = usage ∷ [];
  pendingcs = some in_flight;
  btcs = reset;
  csretrying = false;
  reqid = b'a' ∷ b'z' ∷ [];
  posts = (b'a' ∷ b'z' ∷ [], usage ∷ []) ∷ [];
  finished = [];
  added = usage ∷ [];
}

abbrev attempts : List Attempt
attempts =
    record { answer = failed; failed = 100; again = 36100 }
    ∷ record { answer = again; failed = 36200; again = 80000 }
    ∷ []

retries-IsDone_example :
    HasResult
      (IsDone sent)
      (run (retries network attempts (reports success ∷ execs 90000 network ∷ [])) sent)
unfolding same_bytes
retries-IsDone_example =
    retries-IsDone network attempts success 90000 sent (λ cmds. refl)
      (
        (tt, (omega arith, omega arith), (omega arith, omega arith), omega arith),
        ((refl, (omega arith, omega arith), (omega arith, omega arith), omega arith), tt),
      )
      refl refl refl ((in_flight, refl), reset-IsCapped, (λ e. cc))
