-- ===== src/Prelude/Bytes.antt =====
-- The bytes of a number, and numbers as records hold them.
use Prim.Native.Nat.{ℕ, zero, suc, ◌+◌, ◌*◌, ◌/◌, ◌%◌, ◌^◌, ◌<◌}
use mathlib.Core.List.{List, [], ◌∷◌, ◌++◌}
use sdk.Prelude.Lists.{length, drop, length-append}
use sdk.Prelude.CStrings.{peek, next}
use mathlib.Core.Path.{◌≡◌, refl, sym, ap}
use native.Mathlib.Nat.{div-div-eq-div-mul, pow-suc}
use native.Mathlib.Numerals.{towards_suc}
use native.Mathlib.Omega.{arith}

eight_bits : (k : ℕ) → 2 ^ (k + 8) ≡ 256 * 2 ^ k
eight_bits k = simp towards_suc (omega arith)

-- A byte of a number but the lowest is a byte of the number shifted down.
pub higher_byte : (id k : ℕ) → id / 2 ^ (8 * suc k) ≡ id / 256 / 2 ^ (8 * k)
higher_byte id k =
    let e : 8 * suc k ≡ 8 * k + 8 = omega arith in
    rw (e, eight_bits (8 * k)) (sym (div-div-eq-div-mul id 256 (2 ^ (8 * k))))

-- The lowest `n` bytes of a number, the lowest first, and the number that `n` bytes stand for.
pub low_first : ℕ → ℕ → List ℕ
low_first zero v = []
low_first (suc n) v = v % 256 ∷ low_first n (v / 256)

pub from_low : ℕ → List ℕ → ℕ
from_low zero b = 0
from_low (suc n) b = peek b + 256 * from_low n (next b)

pub length-low_first : (n v : ℕ) → length (low_first n v) ≡ n
unfolding low_first from_low
length-low_first zero v = refl
length-low_first (suc n) v = ap suc (length-low_first n (v / 256))

pub from_low-low_first :
    (n v : ℕ) (rest : List ℕ) → v < 256 ^ n → from_low n (low_first n v ++ rest) ≡ v
unfolding low_first from_low
from_low-low_first zero v rest h = omega arith
from_low-low_first (suc n) v rest h =
    omega (arith, pow-suc 256 n, from_low-low_first n (v / 256) rest (omega (arith, pow-suc 256 n)))

pub drop-low_first : (n v : ℕ) (rest : List ℕ) → drop n (low_first n v ++ rest) ≡ rest
unfolding low_first from_low
drop-low_first zero v rest = refl
drop-low_first (suc n) v rest = drop-low_first n (v / 256) rest

-- Fields of a record.
pub length-field : (n v : ℕ) (rest : List ℕ) → length (low_first n v ++ rest) ≡ n + length rest
length-field n v rest = omega (arith, length-append (low_first n v) rest, length-low_first n v)

-- The six bytes of the handle of a node hold the handle up to its size.
pub from_low-handle : (h : ℕ) (rest : List ℕ) → from_low 6 (low_first 6 h ++ rest) ≡ h % 2 ^ 48
unfolding low_first from_low
from_low-handle h rest = omega arith
