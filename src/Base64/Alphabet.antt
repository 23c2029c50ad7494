-- ===== src/Base64/Alphabet.antt =====
-- base64.cpp: `to64` and `from64` are inverse on the alphabet.
use sdk.Prelude.{
  ℕ, ◌+◌, ◌*◌, ◌/◌, ◌%◌, ◌^◌, ◌<◌, ◌≡◌, ◌≢◌, arith, bit_or, bit_and_63, bit_or_field, u8,
}
use sdk.Base64.{to64, from64, sextet1, sextet2, sextet3, sextet4}

-- A number is read back from its character up to its low six bits.
pub from64-to64 : (c : ℕ) → from64 (to64 c) ≡ c % 64
unfolding to64 from64
from64-to64 c = ground (arith, bit_and_63 c)

-- A character that `from64` accepts stands for a number below 64 and is the one that `to64` writes for it.
pub to64-from64 : (c : ℕ) → from64 c ≢ 255 → (from64 c < 64) × (to64 (from64 c) ≡ c)
unfolding to64 from64
to64-from64 c h = ground (arith, bit_and_63 (from64 c))

-- The sextets of three bytes.
pub from64-sextet1 : (x : ℕ) → x < 256 → from64 (sextet1 x) ≡ x / 4
unfolding sextet1
from64-sextet1 x h = omega (arith, from64-to64 (x / 2 ^ 2))

pub from64-sextet2 : (x y : ℕ) → x < 256 → y < 256 → from64 (sextet2 x y) ≡ x % 4 * 16 + y / 16
unfolding sextet2
from64-sextet2 x y h k = omega (
  arith,
  from64-to64 (u8 (bit_or (x * 2 ^ 4) (y / 2 ^ 4))),
  bit_or_field 4 x (y / 2 ^ 4) (omega arith),
)

pub from64-sextet3 : (y z : ℕ) → y < 256 → z < 256 → from64 (sextet3 y z) ≡ y % 16 * 4 + z / 64
unfolding sextet3
from64-sextet3 y z h k = omega (
  arith,
  from64-to64 (u8 (bit_or (y * 2 ^ 2) (z / 2 ^ 6))),
  bit_or_field 2 y (z / 2 ^ 6) (omega arith),
)

pub from64-sextet4 : (z : ℕ) → z < 256 → from64 (sextet4 z) ≡ z % 64
unfolding sextet4
from64-sextet4 z h = from64-to64 z
