-- ===== src/Prelude/Bits.antt =====
-- Laws of the bit operations on the native numbers: masks and fields as arithmetic.
use Prim.Native.Nat.{
  ℕ, zero, suc, ◌+◌, ◌-◌, ◌*◌, ◌/◌, ◌%◌, ◌^◌, ◌≤◌, ◌<◌, min, max, bit_and, bit_or, bitwise, digits,
  bit_and-bitwise, bit_or-bitwise, bit_xor, bit_xor-bitwise, differ,
}
use mathlib.Core.Path.{◌≡◌, refl, ap}
use native.Mathlib.Omega.{arith}
use native.Mathlib.Nat.{pow-suc}

module _ (base : ℕ → ℕ) (join : ℕ → ℕ → ℕ) where
  -- Any two amounts of fuel that cover the number give the same digits.
  same_digits :
      (b x left right : ℕ)
      → x ≤ left
      → x ≤ right
      → digits base join left x b ≡ digits base join right x b
  same_digits b zero zero zero l r = refl
  same_digits b zero zero (suc right) l r = refl
  same_digits b zero (suc left) zero l r = refl
  same_digits b zero (suc left) (suc right) l r = refl
  same_digits b (suc x) zero right l r = absurd (omega arith)
  same_digits b (suc x) (suc left) zero l r = absurd (omega arith)
  same_digits b (suc x) (suc left) (suc right) l r =
      let halves = same_digits (b / 2) (suc x / 2) left right (omega arith) (omega arith) in
      rw halves refl

  lowest_bit :
      (x b : ℕ)
      → bitwise base join (suc x) b
        ≡ bitwise base join (suc x / 2) (b / 2) * 2 + join (suc x % 2) (b % 2)
  lowest_bit x b =
      let halves = same_digits (b / 2) (suc x / 2) x (suc x / 2) (omega arith) (omega arith) in
      omega (arith, halves)

pub bit_and_halves : (a b : ℕ) → bit_and a b ≡ bit_and (a / 2) (b / 2) * 2 + min (a % 2) (b % 2)
bit_and_halves zero b = simp bit_and-bitwise (omega arith)
bit_and_halves (suc a) b = simp bit_and-bitwise (lowest_bit (λ y. 0) min a b)

pub bit_or_halves : (a b : ℕ) → bit_or a b ≡ bit_or (a / 2) (b / 2) * 2 + max (a % 2) (b % 2)
bit_or_halves zero b = simp bit_or-bitwise (omega arith)
bit_or_halves (suc a) b = simp bit_or-bitwise (lowest_bit (λ y. y) max a b)

pub bit_xor_halves : (a b : ℕ) → bit_xor a b ≡ bit_xor (a / 2) (b / 2) * 2 + differ (a % 2) (b % 2)
bit_xor_halves zero b = simp bit_xor-bitwise (omega arith)
bit_xor_halves (suc a) b = simp bit_xor-bitwise (lowest_bit (λ y. y) differ a b)

-- What a mask of 0 and a field of 0 do.
no_bits : (bound x : ℕ) → x ≤ bound → (bit_and x 0 ≡ 0) × (bit_or x 0 ≡ x)
no_bits bound zero h = (refl, refl)
no_bits zero (suc x) h = absurd (omega arith)
no_bits (suc bound) (suc x) h =
    let (masked, joined) = no_bits bound (suc x / 2) (omega arith) in
    (
      omega (arith, masked, bit_and_halves (suc x) 0),
      omega (arith, joined, bit_or_halves (suc x) 0),
    )

bit_and_1 : (a : ℕ) → bit_and a 1 ≡ a % 2
bit_and_1 a = omega (arith, bit_and_halves a 1, (no_bits (a / 2) (a / 2) (omega arith)).0)

bit_and_3 : (a : ℕ) → bit_and a 3 ≡ a % 4
bit_and_3 a = omega (arith, bit_and_halves a 3, bit_and_1 (a / 2))

bit_and_7 : (a : ℕ) → bit_and a 7 ≡ a % 8
bit_and_7 a = omega (arith, bit_and_halves a 7, bit_and_3 (a / 2))

pub bit_and_15 : (a : ℕ) → bit_and a 15 ≡ a % 16
bit_and_15 a = omega (arith, bit_and_halves a 15, bit_and_7 (a / 2))

bit_and_31 : (a : ℕ) → bit_and a 31 ≡ a % 32
bit_and_31 a = omega (arith, bit_and_halves a 31, bit_and_15 (a / 2))

pub bit_and_63 : (a : ℕ) → bit_and a 63 ≡ a % 64
bit_and_63 a = omega (arith, bit_and_halves a 63, bit_and_31 (a / 2))

bit_and_12 : (a : ℕ) → bit_and a 12 ≡ a % 16 - a % 4
bit_and_12 a = omega (arith, bit_and_halves a 12, bit_and_halves (a / 2) 6, bit_and_3 (a / 2 / 2))

-- 0x30 and 0x3c keep a field in the middle of a sextet.
pub bit_and_48 : (a : ℕ) → bit_and a 48 ≡ a % 64 - a % 16
bit_and_48 a = omega (arith, bit_and_halves a 48, bit_and_halves (a / 2) 24, bit_and_12 (a / 2 / 2))

bit_and_30 : (a : ℕ) → bit_and a 30 ≡ a % 32 - a % 2
bit_and_30 a = omega (arith, bit_and_halves a 30, bit_and_15 (a / 2))

pub bit_and_60 : (a : ℕ) → bit_and a 60 ≡ a % 64 - a % 4
bit_and_60 a = omega (arith, bit_and_halves a 60, bit_and_30 (a / 2))

half_field : (k x : ℕ) → x * 2 ^ suc k / 2 ≡ x * 2 ^ k
half_field k x = omega (arith, ap (λ (t : ℕ). x * t) (pow-suc 2 k))

-- Disjoint fields are joined by addition.
pub bit_or_field : (k x y : ℕ) → y < 2 ^ k → bit_or (x * 2 ^ k) y ≡ x * 2 ^ k + y
bit_or_field zero x zero h = omega (arith, (no_bits (x * 1) (x * 1) (omega arith)).1)
bit_or_field zero x (suc y) h = absurd (omega arith)
bit_or_field (suc k) x y h =
    rw (bit_or_halves (x * 2 ^ suc k) y, half_field k x)
      (omega (
        arith,
        ap (λ (t : ℕ). x * t) (pow-suc 2 k),
        bit_or_field k x (y / 2) (omega (arith, pow-suc 2 k)),
      ))
