-- ===== src/Hex.antt =====
-- Hexadecimal digits: `MegaClient::hexval` of src/megaclient.cpp, and the digits of `%02x`.
use sdk.Prelude.{
  ◌^◌, u32, ℕ, ◌+◌, ◌-◌, ◌<◌, ◌≤◌, ◌≡◌, ltb, if◌then◌else◌, between, Bool, true, ◌||◌, arith,
}

-- MegaClient::hexval: an `int`, as its 32-bit pattern, of a `char`, which is signed: the bytes from 128
-- on are negative.
unfoldable pub hexval : ℕ → ℕ
hexval c =
    if ltb c 128
    then u32 (if ltb b'9' c then c + 2 ^ 32 - b'a' + 10 else c + 2 ^ 32 - b'0')
    else c + 2 ^ 32 - 256 - b'0'

-- A digit as `printf` writes it.
unfoldable pub hex_digit : ℕ → ℕ
hex_digit d = if ltb d 10 then b'0' + d else b'a' + (d - 10)

-- FileSystemAccess::islchex of src/filesystem.cpp
unfoldable pub islchex : ℕ → Bool
islchex c = between b'0' b'9' c || between b'a' b'f' c

pub hex_digit_lem :
    (d : ℕ)
    → d < 16
    → (hexval (hex_digit d) ≡ d)
      × (islchex (hex_digit d) ≡ true)
      × (b'0' ≤ hex_digit d)
      × (hex_digit d ≤ b'f')
unfolding hexval hex_digit islchex
hex_digit_lem d h = ground arith
