-- ===== src/Serialize64/RoundTrip.antt =====
-- serialize64.cpp: `unserialize` reads back what `serialize` wrote.
use sdk.Prelude.{
  Bool-cases, ◌⊎◌, inl, inr, ℕ, zero, suc, ◌+◌, ◌*◌, ◌/◌, ◌^◌, ◌<◌, ◌≤◌, ◌≡◌, ap, refl, List, [],
  ◌∷◌, ◌++◌, ◌∙◌, get_or-append, take-length, none, some, length, get_or, ltb, leb, take, All,
  IsByte, ◌||◌, u64, Acc, lt_wf, arith,
}
use native.Mathlib.Nat.{pow-suc}
use sdk.Serialize64.{serialize_loop, serialize, unserialize_loop, unserialize}

-- The number that bytes stand for, lowest first.
value : List ℕ → ℕ
value [] = 0
value (x ∷ xs) = x + 256 * value xs

value-serialize_loop : (v : ℕ) (w : Acc ◌<◌ v) → value (serialize_loop v w) ≡ v
unfolding serialize_loop value
value-serialize_loop v (Acc.intro _ smaller) =
    grind (arith, λ (p : v / 2 ^ 8 < v). value-serialize_loop (v / 2 ^ 8) (smaller (v / 2 ^ 8) p))

length-serialize_loop : (k v : ℕ) (w : Acc ◌<◌ v) → v < 256 ^ k → length (serialize_loop v w) ≤ k
unfolding serialize_loop
length-serialize_loop zero v (Acc.intro _ smaller) h = ground arith
length-serialize_loop (suc k) v (Acc.intro _ smaller) h = grind (
  arith,
  pow-suc 256 k,
  λ (p : v / 2 ^ 8 < v).
      length-serialize_loop k (v / 2 ^ 8) (smaller (v / 2 ^ 8) p) (omega (arith, pow-suc 256 k)),
)

serialize_loop-IsByte : (v : ℕ) (w : Acc ◌<◌ v) → All IsByte (serialize_loop v w)
unfolding serialize_loop
serialize_loop-IsByte v (Acc.intro _ smaller) =
    grind (arith, λ (p : v / 2 ^ 8 < v). serialize_loop-IsByte (v / 2 ^ 8) (smaller (v / 2 ^ 8) p))

value-take-suc :
    (bs : List ℕ) (k : ℕ)
    → k < length bs
    → value (take (suc k) bs) ≡ value (take k bs) + get_or bs k 0 * 256 ^ k
unfolding value
value-take-suc [] k h = elim h [ ]
value-take-suc (x ∷ bs) zero h = omega arith
value-take-suc (x ∷ bs) (suc k) h =
    omega
      (arith, value-take-suc bs k (omega arith), ap (λ (t : ℕ). get_or bs k 0 * t) (pow-suc 256 k))

le-scaled : (x k : ℕ) → x ≤ x * 256 ^ k
le-scaled x zero = omega arith
le-scaled x (suc k) = omega (arith, le-scaled x k, ap (λ (t : ℕ). x * t) (pow-suc 256 k))

-- While nothing wraps, the loop adds the bytes below what it has read.
unserialize_loop-value :
    (p : ℕ) (bs : List ℕ) (k acc : ℕ)
    → k ≤ length bs
    → acc * 256 ^ k + value (take k bs) < 2 ^ 64
    → unserialize_loop (p ∷ bs) k acc ≡ acc * 256 ^ k + value (take k bs)
unfolding unserialize_loop
unserialize_loop-value p bs zero acc h fits = unfold value in omega arith
unserialize_loop-value p bs (suc k) acc h fits =
    let g = get_or bs k 0 in
    let total : (acc * 256 + g) * 256 ^ k + value (take k bs)
        ≡ acc * 256 ^ suc k + value (take (suc k) bs) =
      omega (arith, value-take-suc bs k h, ap (λ (t : ℕ). acc * t) (pow-suc 256 k)) in
    let small : acc * 256 + g < 2 ^ 64 = omega (arith, le-scaled (acc * 256 + g) k) in
    let digit : u64 (u64 (acc * 256) + g) ≡ acc * 256 + g = omega arith in
    rw digit (unserialize_loop-value p bs k (acc * 256 + g) (omega arith) (omega arith) ∙ total)

unserialize_loop-append :
    (p : ℕ) (bs rest : List ℕ) (k acc : ℕ)
    → k ≤ length bs
    → unserialize_loop (p ∷ bs ++ rest) k acc ≡ unserialize_loop (p ∷ bs) k acc
unfolding unserialize_loop
unserialize_loop-append p bs rest zero acc h = refl
unserialize_loop-append p bs rest (suc k) acc h =
    rw (get_or-append bs rest k 0 h) (unserialize_loop-append p bs rest k _ (omega arith))

-- A 64-bit number is read back from its bytes, whatever follows them, if `blen` covers them; the
-- length that is returned is theirs.
pub unserialize-serialize :
    (v blen : ℕ) (rest : List ℕ)
    → v < 2 ^ 64
    → length (serialize v) ≤ blen
    → unserialize (serialize v ++ rest) blen ≡ some (v, length (serialize v))
unfolding unserialize serialize
unserialize-serialize v blen rest hv hb =
    let bytes = serialize_loop v (lt_wf.apply v) in
    let short : length bytes ≤ 8 = length-serialize_loop 8 v (lt_wf.apply v) hv in
    ground (
      arith,
      short,
      unserialize_loop-append (length bytes) bytes rest (length bytes) 0 (omega arith),
      unserialize_loop-value (length bytes) bytes (length bytes) 0 (omega arith),
      take-length (length bytes) bytes,
      value-serialize_loop v (lt_wf.apply v),
    )

-- `serialize` writes a length byte and at most eight bytes, so nine at most.
pub serialize_shape :
    (v : ℕ)
    → v < 2 ^ 64
    → All IsByte (serialize v) × (1 ≤ length (serialize v)) × (length (serialize v) ≤ 9)
unfolding serialize
serialize_shape v hv =
    let short = length-serialize_loop 8 v (lt_wf.apply v) hv in
    ((omega arith, serialize_loop-IsByte v (lt_wf.apply v)), omega arith, omega arith)

unserialize_loop-lt : (b : List ℕ) (p v : ℕ) → v < 2 ^ 64 → unserialize_loop b p v < 2 ^ 64
unfolding unserialize_loop
unserialize_loop-lt b zero v h = h
unserialize_loop-lt b (suc p) v h = unserialize_loop-lt b p _ (omega arith)

-- `unserialize` refuses a length byte above 8 and one that `blen` does not cover, and nothing else;
-- what it accepts is a 64-bit number that took one byte more than the length byte says, at most
-- nine and at most `blen`.
pub unserialize_cases :
    (b : List ℕ) (blen : ℕ)
    → ((unserialize b blen ≡ none) × ((8 < get_or b 0 0) ⊎ (blen ≤ get_or b 0 0)))
      ⊎ ((v : ℕ) × (unserialize b blen ≡ some (v, get_or b 0 0 + 1))
          × (v < 2 ^ 64)
          × (get_or b 0 0 + 1 ≤ 9)
          × (get_or b 0 0 + 1 ≤ blen))
unfolding unserialize
unserialize_cases b blen = elim (Bool-cases (ltb 8 (get_or b 0 0) || leb blen (get_or b 0 0))) [
  | inl bad ↦ inl (rw bad refl, ground arith)
  | inr good ↦ inr (
    unserialize_loop b (get_or b 0 0) 0,
    rw good refl,
    unserialize_loop-lt b (get_or b 0 0) 0 (omega arith),
    ground arith,
    ground arith,
  )
]
