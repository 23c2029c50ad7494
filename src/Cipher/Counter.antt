-- ===== src/Cipher/Counter.antt =====
-- cryptopp.cpp: `incblock` counts the blocks, and the counter is the initial vector and the number of the block.
use sdk.Prelude.{
  ℕ, zero, suc, ◌+◌, ◌*◌, ◌/◌, ◌%◌, ◌^◌, ◌≡◌, ◌<◌, ◌∙◌, refl, ap, arith, List, [], ◌∷◌, ◌++◌, false,
  ltb, Bool-cases, inl, inr, higher_byte,
}
use native.Mathlib.Nat.{pow-suc}
use sdk.Cipher.{high_first, setint64, inc_from, incblock}

high_first-suc : (n v : ℕ) → high_first (suc n) v ≡ high_first n (v / 256) ++ v % 256 ∷ []
unfolding high_first
high_first-suc zero v = let e : v / 1 ≡ v = omega arith in rw e refl
high_first-suc (suc n) v =
    rw (higher_byte v n) (ap (◌∷◌ (v / 256 / 2 ^ (8 * n) % 256)) (high_first-suc n v))

inc_from-last :
    (xs : List ℕ) (b : ℕ) → b < 255 → inc_from (xs ++ b ∷ []) ≡ (xs ++ (b + 1) ∷ [], false)
unfolding inc_from
inc_from-last [] b h = ground arith
inc_from-last (x ∷ xs) b h = rw (inc_from-last xs b h) refl

inc_from-carry :
    (xs : List ℕ) → inc_from (xs ++ 255 ∷ []) ≡ ((inc_from xs).0 ++ 0 ∷ [], (inc_from xs).1)
unfolding inc_from
inc_from-carry [] = refl
inc_from-carry (x ∷ xs) =
    rw (inc_from-carry xs)
      (elim (Bool-cases ((inc_from xs).1)) [ inl e ↦ rw e refl | inr e ↦ rw e refl ])

inc_from-high_first :
    (n v : ℕ) → v + 1 < 256 ^ n → inc_from (high_first n v) ≡ (high_first n (v + 1), false)
inc_from-high_first zero v h = absurd (omega arith)
inc_from-high_first (suc n) v h = elim (Bool-cases (ltb (v % 256) 255)) [
  | inl low ↦
      let rest : (v + 1) / 256 ≡ v / 256 = ground arith in
      let last : (v + 1) % 256 ≡ v % 256 + 1 = ground arith in
      rw (high_first-suc n v, high_first-suc n (v + 1), rest, last)
        (inc_from-last (high_first n (v / 256)) (v % 256) (ground arith))
  | inr high ↦
      let full : v % 256 ≡ 255 = ground arith in
      let rest : (v + 1) / 256 ≡ v / 256 + 1 = omega arith in
      let last : (v + 1) % 256 ≡ 0 = omega arith in
      let ih = inc_from-high_first n (v / 256) (omega (arith, pow-suc 256 n)) in
      rw (high_first-suc n v, high_first-suc n (v + 1), rest, last, full)
        (inc_from-carry (high_first n (v / 256)) ∙ rw ih refl)
]

inc_from-append :
    (iv xs ys : List ℕ) → inc_from xs ≡ (ys, false) → inc_from (iv ++ xs) ≡ (iv ++ ys, false)
unfolding inc_from
inc_from-append [] xs ys h = h
inc_from-append (c ∷ iv) xs ys h = rw (inc_from-append iv xs ys h) refl

-- From the counter of one block `incblock` goes to that of the next one, as long as the number of the
-- block fits into 64 bits; the initial vector in front of it is not touched.
pub incblock-counter :
    (iv : List ℕ) (k : ℕ) → k + 1 < 2 ^ 64 → incblock (iv ++ setint64 k) ≡ iv ++ setint64 (k + 1)
unfolding incblock setint64
incblock-counter iv k h =
    ap (λ r. r.0)
      (inc_from-append iv (high_first 8 k) (high_first 8 (k + 1))
        (inc_from-high_first 8 k (omega arith)))
