-- ===== src/Prelude/CStrings.antt =====
-- NUL-terminated strings. A C string is the list of its characters, as numbers below 256, from the
-- pointer up to the terminating NUL: at the end of the list `*p` is 0.
use Prim.Native.Nat.{ℕ, ◌%◌, ◌^◌, ◌<◌}
use mathlib.Core.List.{List, [], ◌∷◌}
use mathlib.Core.Bool.{Bool, ◌&&◌}
use sdk.Prelude.Tests.{leb}

abbrev pub IsByte : ℕ → Type 0
IsByte b = b < 256

-- The conversions to `byte`, `uint16_t`, `uint32_t` and `uint64_t`.
abbrev pub u8 : ℕ → ℕ
u8 n = n % 2 ^ 8

abbrev pub u16 : ℕ → ℕ
u16 n = n % 2 ^ 16

abbrev pub u32 : ℕ → ℕ
u32 n = n % 2 ^ 32

abbrev pub u64 : ℕ → ℕ
u64 n = n % 2 ^ 64

-- `*p`
abbrev pub peek : List ℕ → ℕ
peek [] = 0
peek (c ∷ cs) = c

-- `p + 1`
abbrev pub next : List ℕ → List ℕ
next [] = []
next (c ∷ cs) = cs

-- `c >= lo && c <= hi`
abbrev pub between : ℕ → ℕ → ℕ → Bool
between lo hi c = leb lo c && leb c hi
