-- ===== src/Serialize64.antt =====
-- src/serialize64.cpp: a 64-bit number as a length byte and its bytes, lowest first, with the
-- leading zero bytes left out.
pub mod RoundTrip
mod Tests
use sdk.Prelude.{
  ℕ, zero, suc, ◌+◌, ◌*◌, ◌/◌, ◌%◌, ◌^◌, ◌<◌, List, [], ◌∷◌, Option, none, some, length, get_or,
  ltb, leb, if◌then◌else◌, ◌||◌, u8, u64, Acc, lt_wf, dec_lt, dite, arith,
}

shift_shrinks : (v : ℕ) → 0 < v → v / 2 ^ 8 < v
shift_shrinks v h = omega arith

-- The loop of Serialize64::serialize: the bytes that it still writes, lowest first.
pub serialize_loop : (v : ℕ) → Acc ◌<◌ v → List ℕ
serialize_loop v (Acc.intro _ smaller) =
    dite (dec_lt 0 v)
      (λ more. u8 v ∷ serialize_loop (v / 2 ^ 8) (smaller (v / 2 ^ 8) (shift_shrinks v more)))
      (λ _. [])

-- Serialize64::serialize: what it writes to `b`. It returns the length of that.
pub serialize : ℕ → List ℕ
serialize v = let bytes = serialize_loop v (lt_wf.apply v) in u8 (length bytes) ∷ bytes

-- The loop of Serialize64::unserialize, from `b[p]` down to `b[1]`.
pub unserialize_loop : List ℕ → ℕ → ℕ → ℕ
unserialize_loop b zero v = v
unserialize_loop b (suc p) v = unserialize_loop b p (u64 (u64 (v * 2 ^ 8) + get_or b (suc p) 0))

-- Serialize64::unserialize: the value and the number of bytes that were read; `none` stands for -1.
pub unserialize : List ℕ → ℕ → Option (ℕ × ℕ)
unserialize b blen =
    let p = get_or b 0 0 in
    if ltb 8 p || leb blen p then none else some (unserialize_loop b p 0, p + 1)
