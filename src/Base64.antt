-- ===== src/Base64.antt =====
-- src/base64.cpp: the modified base64 codec (no padding, `-` and `_` for 62 and 63).
-- A byte buffer with its length is a list; a C string is the list of its characters.
pub mod Alphabet
pub mod RoundTrip
pub mod Bounds
mod Tests
use sdk.Prelude.{
  ℕ, zero, suc, ◌+◌, ◌-◌, ◌*◌, ◌/◌, ◌^◌, bit_and, bit_or, List, [], ◌∷◌, set, get_or, ltb, ◌==◌,
  if◌then◌else◌, between, peek, next, u8,
}

-- Base64::to64
unfoldable pub to64 : ℕ → ℕ
to64 c =
    let d = bit_and c 63 in
    if ltb d 26
    then d + b'A'
    else if ltb d 52
    then d - 26 + b'a'
    else if ltb d 62
    then d - 52 + b'0'
    else if d == 62
    then b'-'
    else b'_'

-- Base64::from64; 255 says that `c` is no character of the alphabet.
unfoldable pub from64 : ℕ → ℕ
from64 c =
    if between b'A' b'Z' c
    then c - b'A'
    else if between b'a' b'z' c
    then c - b'a' + 26
    else if between b'0' b'9' c
    then c - b'0' + 52
    else if c == b'-'
    then 62
    else if c == b'_'
    then 63
    else 255

-- The four characters that `btoa` makes of three bytes.
unfoldable pub sextet1 : ℕ → ℕ
sextet1 x = to64 (x / 2 ^ 2)

unfoldable pub sextet2 : ℕ → ℕ → ℕ
sextet2 x y = to64 (u8 (bit_or (x * 2 ^ 4) (y / 2 ^ 4)))

unfoldable pub sextet3 : ℕ → ℕ → ℕ
sextet3 y z = to64 (u8 (bit_or (y * 2 ^ 2) (z / 2 ^ 6)))

unfoldable pub sextet4 : ℕ → ℕ
sextet4 z = to64 z

-- Base64::btoa; the result stands for `a[0 .. p)`, with the NUL that follows it left out.
unfoldable pub btoa : List ℕ → List ℕ
btoa [] = []
btoa (x ∷ []) = sextet1 x ∷ sextet2 x 0 ∷ []
btoa (x ∷ y ∷ []) = sextet1 x ∷ sextet2 x y ∷ sextet3 y 0 ∷ []
btoa (x ∷ y ∷ z ∷ b) = sextet1 x ∷ sextet2 x y ∷ sextet3 y z ∷ sextet4 z ∷ btoa b

-- The inner loop of `atob`: `left` of its four rounds are left, and `i` are done. It returns `i`,
-- the array `c` and the pointer `a` as the loop leaves them.
unfoldable pub read_sextets : ℕ → ℕ → List ℕ → List ℕ → ℕ × List ℕ × List ℕ
read_sextets zero i c a = (i, c, a)
read_sextets (suc left) i c a =
    let v = from64 (peek a) in
    let rest = read_sextets left (suc i) (set c i v) (next a) in
    if v == 255 then (i, set c i v, next a) else rest

-- The bytes that `atob` makes of the array `c`.
unfoldable pub octet1 : List ℕ → ℕ
octet1 c = u8 (bit_or (get_or c 0 0 * 2 ^ 2) (bit_and (get_or c 1 0) 0x30 / 2 ^ 4))

unfoldable pub octet2 : List ℕ → ℕ
octet2 c = u8 (bit_or (get_or c 1 0 * 2 ^ 4) (bit_and (get_or c 2 0) 0x3c / 2 ^ 2))

unfoldable pub octet3 : List ℕ → ℕ
octet3 c = u8 (bit_or (get_or c 2 0 * 2 ^ 6) (get_or c 3 0))

-- The outer loop of `atob`. The last argument is `blen - p`, the room left in `b`: `p >= blen` says
-- that there is none. The result is what is still written to `b`.
unfoldable pub atob_loop : List ℕ → List ℕ → ℕ → List ℕ
atob_loop c a zero = []
atob_loop c a (suc zero) =
    let (i, c', a') = read_sextets 4 0 c a in if i == 0 then [] else octet1 c' ∷ []
atob_loop c a (suc (suc zero)) =
    let (i, c', a') = read_sextets 4 0 c a in
    if i == 0 then [] else if ltb i 3 then octet1 c' ∷ [] else octet1 c' ∷ octet2 c' ∷ []
atob_loop c a (suc (suc (suc room))) =
    let (i, c', a') = read_sextets 4 0 c a in
    let rest = atob_loop c' a' room in
    if i == 0
    then []
    else if ltb i 3
    then octet1 c' ∷ []
    else if ltb i 4
    then octet1 c' ∷ octet2 c' ∷ []
    else octet1 c' ∷ octet2 c' ∷ octet3 c' ∷ rest

-- Base64::atob; the array `c` starts with a 0 in its last place, and nothing in it is read before it
-- is written, so the other places start with 0 here.
unfoldable pub atob : List ℕ → ℕ → List ℕ
atob a blen = atob_loop (0 ∷ 0 ∷ 0 ∷ 0 ∷ []) a blen
