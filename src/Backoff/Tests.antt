-- ===== src/Backoff/Tests.antt =====
-- backofftimer.cpp: concrete runs, and the theorems at concrete inputs.
use sdk.Prelude.{◌≡◌, refl, arith}
use sdk.Backoff.{BackoffTimer, retryin}
use sdk.Backoff.Timing.{IsCapped}

abbrev waiting : BackoffTimer
waiting = record { next = 1200; delta = 64 }

waiting-IsCapped : IsCapped waiting
waiting-IsCapped = record { positive = omega arith; capped = omega arith }

not_yet : retryin 1150 waiting ≡ 50
unfolding retryin
not_yet = refl
