-- ===== src/Base64/Bounds.antt =====
-- base64.cpp: how much `btoa` and `atob` write.
use sdk.Prelude.{
  ℕ, zero, suc, ◌+◌, ◌*◌, ◌/◌, ◌<◌, ◌≤◌, ◌≡◌, arith, List, [], ◌∷◌, All, IsByte, length,
}
use sdk.Base64.{
  to64, from64, sextet1, sextet2, sextet3, sextet4, btoa, read_sextets, octet1, octet2, octet3,
  atob_loop, atob,
}
use sdk.Base64.Alphabet.{from64-to64}

-- `btoa` writes four thirds of the length of its input, rounded up, and that is less than the
-- `len * 4 / 3 + 4` characters that its callers allocate, so there is room for the NUL too.
pub length-btoa :
    (b : List ℕ)
    → (length (btoa b) ≡ (length b * 4 + 2) / 3) × (length (btoa b) < length b * 4 / 3 + 4)
unfolding btoa
length-btoa [] = (omega arith, omega arith)
length-btoa (x ∷ []) = (omega arith, omega arith)
length-btoa (x ∷ y ∷ []) = (omega arith, omega arith)
length-btoa (x ∷ y ∷ z ∷ b) = let (exact, below) = length-btoa b in (omega arith, omega arith)

to64-IsSextet : (c : ℕ) → (from64 (to64 c) < 64) × (to64 c < 128)
unfolding to64
to64-IsSextet c = (omega (arith, from64-to64 c), ground arith)

-- Whatever the bytes are, every character that `btoa` writes is ASCII and is one that `from64`
-- accepts, with a value below 64.
pub btoa-alphabet : (b : List ℕ) → All (λ c. (from64 c < 64) × (c < 128)) (btoa b)
unfolding btoa sextet1 sextet2 sextet3 sextet4
btoa-alphabet [] = tt
btoa-alphabet (x ∷ []) = (to64-IsSextet _, (to64-IsSextet _, tt))
btoa-alphabet (x ∷ y ∷ []) = (to64-IsSextet _, (to64-IsSextet _, (to64-IsSextet _, tt)))
btoa-alphabet (x ∷ y ∷ z ∷ b) =
    (to64-IsSextet _, (to64-IsSextet _, (to64-IsSextet _, (to64-IsSextet _, btoa-alphabet b))))

-- `atob` writes at most `blen` bytes, on any input, valid base64 or not.
length-atob_loop : (c a : List ℕ) (room : ℕ) → length (atob_loop c a room) ≤ room
unfolding atob_loop
length-atob_loop c a zero = omega arith
length-atob_loop c a (suc zero) = ground arith
length-atob_loop c a (suc (suc zero)) = ground arith
length-atob_loop c a (suc (suc (suc n))) =
    let (i, c', a') = read_sextets 4 0 c a in ground (arith, length-atob_loop c' a' n)

octets-IsByte : (c : List ℕ) → (octet1 c < 256) × (octet2 c < 256) × (octet3 c < 256)
unfolding octet1 octet2 octet3
octets-IsByte c = omega arith

atob_loop-IsByte : (c a : List ℕ) (room : ℕ) → All IsByte (atob_loop c a room)
unfolding atob_loop
atob_loop-IsByte c a zero = tt
atob_loop-IsByte c a (suc zero) =
    let (i, c', a') = read_sextets 4 0 c a in ground (arith, octets-IsByte c')
atob_loop-IsByte c a (suc (suc zero)) =
    let (i, c', a') = read_sextets 4 0 c a in ground (arith, octets-IsByte c')
atob_loop-IsByte c a (suc (suc (suc n))) =
    let (i, c', a') = read_sextets 4 0 c a in
    ground (arith, atob_loop-IsByte c' a' n, octets-IsByte c')

-- `atob` never writes more than `blen` bytes, whatever characters it is given, base64 or not, and
-- what it writes are bytes.
pub atob_bounds : (a : List ℕ) (blen : ℕ) → (length (atob a blen) ≤ blen) × All IsByte (atob a blen)
unfolding atob
atob_bounds a blen = (length-atob_loop _ a blen, atob_loop-IsByte _ a blen)
