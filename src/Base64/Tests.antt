-- ===== src/Base64/Tests.antt =====
-- base64.cpp: concrete runs, and the theorems at concrete inputs.
use sdk.Prelude.{ℕ, ◌≡◌, ◌≢◌, ◌<◌, ◌≤◌, refl, arith, List, [], ◌∷◌, ◌++◌, All, IsByte, length}
use sdk.Base64.{
  to64, from64, sextet1, sextet2, sextet3, sextet4, btoa, read_sextets, octet1, atob_loop, atob,
}
use sdk.Base64.Alphabet.{from64-to64, to64-from64}
use sdk.Base64.RoundTrip.{atob-btoa}
use sdk.Base64.Bounds.{btoa-alphabet, atob_bounds}

abbrev five_bytes : List ℕ
five_bytes = 0x14 ∷ 0xfb ∷ 0x9c ∷ 0x03 ∷ 0xff ∷ []

five_bytes_encoded : btoa five_bytes ≡ b'F' ∷ b'P' ∷ b'u' ∷ b'c' ∷ b'A' ∷ b'_' ∷ b'8' ∷ []
unfolding btoa sextet1 sextet2 sextet3 sextet4 to64
five_bytes_encoded = refl

-- A lone character decodes to a byte whose low bits are the 255 of the failed read.
lone_character : atob (b'A' ∷ b'"' ∷ []) 10 ≡ 3 ∷ []
unfolding atob atob_loop read_sextets from64 octet1
lone_character = refl

from64-to64_example : from64 (to64 70) ≡ 6
from64-to64_example = from64-to64 70

dash_accepted : from64 b'-' ≢ 255
unfolding from64
dash_accepted = omega arith

to64-from64_example : (from64 b'-' < 64) × (to64 (from64 b'-') ≡ b'-')
to64-from64_example = to64-from64 b'-' dash_accepted

quote_stops : from64 b'"' ≡ 255
unfolding from64
quote_stops = refl

atob-btoa_example : atob (btoa five_bytes ++ (b'"' ∷ b'x' ∷ [])) 4 ≡ 0x14 ∷ 0xfb ∷ 0x9c ∷ 0x03 ∷ []
atob-btoa_example = atob-btoa five_bytes (b'"' ∷ b'x' ∷ []) 4 (omega arith) quote_stops

btoa-alphabet_example : All (λ c. (from64 c < 64) × (c < 128)) (btoa five_bytes)
btoa-alphabet_example = btoa-alphabet five_bytes

atob_bounds_example :
    (length (atob (b'A' ∷ b'"' ∷ []) 10) ≤ 10) × All IsByte (atob (b'A' ∷ b'"' ∷ []) 10)
atob_bounds_example = atob_bounds (b'A' ∷ b'"' ∷ []) 10
