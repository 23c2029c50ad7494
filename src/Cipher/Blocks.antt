-- ===== src/Cipher/Blocks.antt =====
-- cryptopp.cpp: `xorblock` on sequences of bytes.
use sdk.Prelude.{
  ℕ, zero, suc, ◌+◌, ◌≡◌, ◌≤◌, ◌∙◌, refl, ap, ap₂, arith, List, [], ◌∷◌, ◌++◌, take, drop, length,
  replicate, bit_xor, bit_xor-zero, bit_xor_twice,
}
use sdk.Cipher.{xorblock}

pub length-xorblock : (src dst : List ℕ) → length (xorblock src dst) ≡ length dst
unfolding xorblock
length-xorblock [] dst = refl
length-xorblock (s ∷ src) [] = refl
length-xorblock (s ∷ src) (d ∷ dst) = ap suc (length-xorblock src dst)

pub xorblock_twice : (src dst : List ℕ) → xorblock src (xorblock src dst) ≡ dst
unfolding xorblock
xorblock_twice [] dst = refl
xorblock_twice (s ∷ src) [] = refl
xorblock_twice (s ∷ src) (d ∷ dst) = ap₂ ◌∷◌ (bit_xor_twice d s) (xorblock_twice src dst)

-- Zero bytes leave the destination as it is.
pub xorblock-zeros : (n : ℕ) (dst : List ℕ) → xorblock (replicate n 0) dst ≡ dst
unfolding xorblock
xorblock-zeros zero dst = refl
xorblock-zeros (suc n) [] = refl
xorblock-zeros (suc n) (d ∷ dst) = ap₂ ◌∷◌ (bit_xor-zero d) (xorblock-zeros n dst)

pub xorblock_padded :
    (src dst : List ℕ) (n : ℕ) → xorblock (src ++ replicate n 0) dst ≡ xorblock src dst
unfolding xorblock
xorblock_padded [] dst n = xorblock-zeros n dst
xorblock_padded (s ∷ src) [] n = refl
xorblock_padded (s ∷ src) (d ∷ dst) n = ap (◌∷◌ (bit_xor d s)) (xorblock_padded src dst n)

-- The first bytes of the result depend on the first bytes of the destination only.
pub take-xorblock :
    (n : ℕ) (src dst : List ℕ) → take n (xorblock src dst) ≡ xorblock src (take n dst)
unfolding xorblock
take-xorblock zero [] dst = refl
take-xorblock zero (s ∷ src) [] = refl
take-xorblock zero (s ∷ src) (d ∷ dst) = refl
take-xorblock (suc n) [] dst = refl
take-xorblock (suc n) (s ∷ src) [] = refl
take-xorblock (suc n) (s ∷ src) (d ∷ dst) = ap (◌∷◌ (bit_xor d s)) (take-xorblock n src dst)

pub take-drop : (n : ℕ) (xs : List ℕ) → take n xs ++ drop n xs ≡ xs
take-drop zero xs = refl
take-drop (suc n) [] = refl
take-drop (suc n) (x ∷ xs) = ap (◌∷◌ x) (take-drop n xs)

-- `take` and `drop` at the end of a first part.
pub take-front : (n : ℕ) (xs ys : List ℕ) → length xs ≡ n → take n (xs ++ ys) ≡ xs
take-front zero [] ys h = refl
take-front zero (x ∷ xs) ys h = absurd (omega arith)
take-front (suc n) [] ys h = absurd (omega arith)
take-front (suc n) (x ∷ xs) ys h = ap (◌∷◌ x) (take-front n xs ys (omega arith))

pub drop-front : (n : ℕ) (xs ys : List ℕ) → length xs ≡ n → drop n (xs ++ ys) ≡ ys
drop-front zero [] ys h = refl
drop-front zero (x ∷ xs) ys h = absurd (omega arith)
drop-front (suc n) [] ys h = absurd (omega arith)
drop-front (suc n) (x ∷ xs) ys h = drop-front n xs ys (omega arith)

pub take-take : (n m : ℕ) (xs : List ℕ) → n ≤ m → take n (take m xs) ≡ take n xs
take-take zero m xs h = refl
take-take (suc n) zero xs h = absurd (omega arith)
take-take (suc n) (suc m) [] h = refl
take-take (suc n) (suc m) (x ∷ xs) h = ap (◌∷◌ x) (take-take n m xs (omega arith))

-- The first `n` elements, where the first part has so many.
pub take-within : (n : ℕ) (xs ys : List ℕ) → n ≤ length xs → take n (xs ++ ys) ≡ take n xs
take-within zero xs ys h = refl
take-within (suc n) [] ys h = absurd (omega arith)
take-within (suc n) (x ∷ xs) ys h = ap (◌∷◌ x) (take-within n xs ys (omega arith))

pub take-past :
    (n m : ℕ) (xs ys : List ℕ) → length xs ≡ n → take (n + m) (xs ++ ys) ≡ xs ++ take m ys
take-past n m [] ys h = let e : n + m ≡ m = omega arith in ap (λ k. take k ys) e
take-past zero m (x ∷ xs) ys h = absurd (omega arith)
take-past (suc n) m (x ∷ xs) ys h =
    let e : suc n + m ≡ suc (n + m) = omega arith in
    ap (λ k. take k (x ∷ (xs ++ ys))) e ∙ ap (◌∷◌ x) (take-past n m xs ys (omega arith))
