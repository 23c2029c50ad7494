-- ===== src/Http/Outages.antt =====
-- http.cpp: an outage of more than a minute is reported once.
use sdk.Prelude.{
  ℕ, ◌+◌, ◌-◌, ◌^◌, ◌≡◌, ◌≤◌, ◌<◌, refl, arith, List, [], ◌∷◌, Bool, true, false, ltb, ◌==◌, u32,
}
use sdk.Http.{HttpIo, inetstatus, inetisback}

-- Reports that the Internet is down at these times, one after the other.
pub failures : List ℕ → HttpIo → HttpIo
failures [] io = io
failures (ds ∷ times) io = failures times (inetstatus ds false io)

failures-later :
    (times : List ℕ) (down : ℕ) (back : Bool)
    → 1 ≤ down
    → failures times (record { noinetds = down; inetback = back })
      ≡ record { noinetds = down; inetback = back }
unfolding failures inetstatus
failures-later [] down back h = refl
failures-later (ds ∷ times) down back h =
    let known : (down == 0) ≡ false = ground arith in rw known (failures-later times down back h)

-- An outage that is first noticed at the time `down` (which is not 0) and over at the time `up`, whatever
-- failures are reported in between, sets `inetback` exactly if it lasted more than 600 deciseconds, and
-- `inetisback` reports that once.
pub outage_reported :
    (times : List ℕ) (down up : ℕ)
    → 1 ≤ down
    → down ≤ up
    → up < 2 ^ 32
    → (inetstatus up true (failures (down ∷ times) (record { noinetds = 0; inetback = false }))
        ≡ record { noinetds = 0; inetback = ltb 600 (up - down) })
      × ((inetisback (record { noinetds = 0; inetback = ltb 600 (up - down) })).0
          ≡ ltb 600 (up - down))
      × ((inetisback (inetisback (record { noinetds = 0; inetback = ltb 600 (up - down) })).1).0
          ≡ false)
unfolding failures inetstatus inetisback
outage_reported times down up h order fits =
    let span : u32 (up + 2 ^ 32 - down) ≡ up - down = omega arith in
    let known : (down == 0) ≡ false = ground arith in
    (
      rw (failures-later times down false h) (rw (known, span) (ground arith)),
      ground arith,
      ground arith,
    )
