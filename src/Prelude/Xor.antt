-- ===== src/Prelude/Xor.antt =====
-- Exclusive or, on numbers and byte by byte on sequences.
use Prim.Native.Nat.{ℕ, zero, suc, ◌+◌, ◌*◌, ◌/◌, ◌%◌, ◌^◌, ◌≤◌, ◌<◌, bit_xor, differ}
use mathlib.Core.Path.{◌≡◌, refl, ap, ◌∙◌}
use native.Mathlib.Omega.{arith}
use native.Mathlib.Nat.{pow-suc}
use sdk.Prelude.Bits.{bit_xor_halves}

-- The exclusive or of two binary digits is their sum without the carry.
differ_sum : (x y : ℕ) → x < 2 → y < 2 → differ x y ≡ (x + y) % 2
differ_sum zero y h k = omega arith
differ_sum (suc zero) zero h k = refl
differ_sum (suc zero) (suc zero) h k = refl
differ_sum (suc zero) (suc (suc y)) h k = absurd (omega arith)
differ_sum (suc (suc x)) y h k = absurd (omega arith)

bit_xor_digits : (a b : ℕ) → bit_xor a b ≡ bit_xor (a / 2) (b / 2) * 2 + (a % 2 + b % 2) % 2
bit_xor_digits a b =
    omega (arith, bit_xor_halves a b, differ_sum (a % 2) (b % 2) (omega arith) (omega arith))

bit_xor-zero_fuel : (fuel a : ℕ) → a ≤ fuel → bit_xor a 0 ≡ a
bit_xor-zero_fuel fuel zero h = refl
bit_xor-zero_fuel zero (suc a) h = absurd (omega arith)
bit_xor-zero_fuel (suc fuel) (suc a) h =
    omega (arith, bit_xor_digits (suc a) 0, bit_xor-zero_fuel fuel (suc a / 2) (omega arith))

pub bit_xor-zero : (a : ℕ) → bit_xor a 0 ≡ a
bit_xor-zero a = bit_xor-zero_fuel a a (omega arith)

twice_fuel : (fuel a b : ℕ) → a + b ≤ fuel → bit_xor (bit_xor a b) b ≡ a
twice_fuel zero zero zero h = refl
twice_fuel zero zero (suc b) h = absurd (omega arith)
twice_fuel zero (suc a) b h = absurd (omega arith)
twice_fuel (suc fuel) zero zero h = refl
twice_fuel (suc fuel) a b h =
    let x = bit_xor a b in
    let once = bit_xor_digits a b in
    let half : x / 2 ≡ bit_xor (a / 2) (b / 2) = omega arith in
    let digit : x % 2 ≡ (a % 2 + b % 2) % 2 = omega arith in
    let back = twice_fuel fuel (a / 2) (b / 2) (omega arith) in
    let both = bit_xor_digits x b ∙ ap (λ t. bit_xor t (b / 2) * 2 + (x % 2 + b % 2) % 2) half in
    omega arith

-- What is combined with the same number twice is as it was.
pub bit_xor_twice : (a b : ℕ) → bit_xor (bit_xor a b) b ≡ a
bit_xor_twice a b = twice_fuel (a + b) a b (omega arith)

pub bit_xor-lt : (k a b : ℕ) → a < 2 ^ k → b < 2 ^ k → bit_xor a b < 2 ^ k
bit_xor-lt zero zero zero h l = omega arith
bit_xor-lt zero zero (suc b) h l = absurd (omega arith)
bit_xor-lt zero (suc a) b h l = absurd (omega arith)
bit_xor-lt (suc k) a b h l = omega (
  arith,
  bit_xor_digits a b,
  pow-suc 2 k,
  bit_xor-lt k (a / 2) (b / 2) (omega (arith, pow-suc 2 k)) (omega (arith, pow-suc 2 k)),
)
