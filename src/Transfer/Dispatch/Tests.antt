-- ===== src/Transfer/Dispatch/Tests.antt =====
-- megaclient.cpp: runs of the dispatch test, and its theorem at a concrete input.
use sdk.Prelude.{◌+◌, ◌≡◌, refl, List, [], ◌∷◌, false, ◌&&◌, ltb, length}
use sdk.Transfer.{get}
use sdk.Transfer.Dispatch.{
  Slot, sum_over, tally, slotavail, wants_more, moretransfers, same_direction, moretransfers_lem,
}

-- One download, fast and almost done.
abbrev slots : List Slot
slots =
    record { direction = get; starttime = 10; progressreported = 20000000; size = 20070000 } ∷ []

-- It would be over in a moment, but no other one is started.
not_even_fast : moretransfers 110 get slots ≡ false
unfolding moretransfers slotavail tally same_direction wants_more
not_even_fast = refl

moretransfers_lem_example : moretransfers 110 get slots ≡ (
    ltb (length slots) 8
    && ltb
        (sum_over get (λ s. s.size) slots)
        (65536 + sum_over get (λ s. s.progressreported) slots))
moretransfers_lem_example = moretransfers_lem 110 get slots
