-- ===== src/AttrMap/Names.antt =====
-- attrmap.cpp: numeric names. A name of up to eight characters is the number that its characters stand
-- for, the first one highest.
use sdk.Prelude.{
  ℕ, zero, suc, ◌+◌, ◌*◌, ◌/◌, ◌%◌, ◌^◌, ◌≡◌, ◌≤◌, ◌<◌, ◌∙◌, refl, ap, arith, List, [], ◌∷◌, ◌++◌,
  false, ◌==◌, All, if◌then◌else◌, u64, length, length-append,
}
use native.Mathlib.Nat.{pow-suc}
use sdk.Prelude.{higher_byte}
use sdk.AttrMap.{name_loop, nameid2string, read_id}

-- The characters of a name are bytes other than NUL.
abbrev pub IsNameChar : ℕ → Type 0
IsNameChar c = (1 ≤ c) × (c < 256)

-- The number of a name that is given by its characters, the last one first.
unfoldable pub pack : List ℕ → ℕ
pack [] = 0
pack (c ∷ r) = pack r * 256 + c

-- Its characters, the first one first.
abbrev pub forwards : List ℕ → List ℕ
forwards [] = []
forwards (c ∷ r) = forwards r ++ c ∷ []

pub length-forwards : (r : List ℕ) → length (forwards r) ≡ length r
length-forwards [] = refl
length-forwards (c ∷ r) = omega (arith, length-append (forwards r) (c ∷ []), length-forwards r)

pub pack-lt : (r : List ℕ) (k : ℕ) → All IsNameChar r → length r ≤ k → pack r < 256 ^ k
unfolding pack
pack-lt [] zero h l = omega arith
pack-lt [] (suc k) h l = omega (arith, pow-suc 256 k, pack-lt [] k tt (omega arith))
pack-lt (c ∷ r) zero h l = absurd (omega arith)
pack-lt (c ∷ r) (suc k) h l = omega (arith, pow-suc 256 k, pack-lt r k h.1 (omega arith))

lowest : ℕ → List ℕ
lowest id = if id % 256 == 0 then [] else id % 256 ∷ []

name_loop_step : (id left : ℕ) → name_loop (suc left) id ≡ name_loop left (id / 256) ++ lowest id
unfolding name_loop lowest
name_loop_step id zero = let e : id / 1 ≡ id = omega arith in rw e refl
name_loop_step id (suc left) =
    let h = higher_byte id left in let ih = name_loop_step id left in rw h (ground (arith, ih))

name_loop-zero : (left : ℕ) → name_loop left 0 ≡ []
name_loop-zero zero = unfold name_loop in refl
name_loop-zero (suc left) =
    name_loop_step 0 left ∙ ap (λ t. t ++ lowest 0) (name_loop-zero left) ∙ unfold lowest in refl

-- The bytes that `nameid2string` writes for a name are the name's characters.
pub name_loop-pack :
    (r : List ℕ) (left : ℕ)
    → All IsNameChar r
    → length r ≤ left
    → name_loop left (pack r) ≡ forwards r
unfolding pack lowest
name_loop-pack [] left h l = name_loop-zero left
name_loop-pack (c ∷ r) zero h l = absurd (omega arith)
name_loop-pack (c ∷ r) (suc left) h l =
    let shifted : (pack r * 256 + c) / 256 ≡ pack r = omega arith in
    let low : (pack r * 256 + c) % 256 ≡ c = omega arith in
    let test : (c == 0) ≡ false = ground arith in
    name_loop_step (pack r * 256 + c) left
    ∙ rw (shifted, low, test, name_loop-pack r left h.1 (omega arith))

push_all : ℕ → List ℕ → ℕ
push_all id [] = id
push_all id (c ∷ cs) = push_all (u64 (u64 (id * 2 ^ 8) + c)) cs

read_id-append :
    (xs rest : List ℕ) (id : ℕ) → read_id (length xs) id (xs ++ rest) ≡ (push_all id xs, rest)
unfolding read_id push_all
read_id-append [] rest id = refl
read_id-append (c ∷ xs) rest id = read_id-append xs rest (u64 (u64 (id * 2 ^ 8) + c))

push_all-append :
    (xs : List ℕ) (c id : ℕ) → push_all id (xs ++ c ∷ []) ≡ u64 (u64 (push_all id xs * 2 ^ 8) + c)
unfolding push_all
push_all-append [] c id = refl
push_all-append (x ∷ xs) c id = push_all-append xs c (u64 (u64 (id * 2 ^ 8) + x))

push_all-forwards :
    (r : List ℕ) → All IsNameChar r → pack r < 2 ^ 64 → push_all 0 (forwards r) ≡ pack r
unfolding pack
push_all-forwards [] h fits = unfold push_all in refl
push_all-forwards (c ∷ r) h fits =
    push_all-append (forwards r) c 0 ∙ rw (push_all-forwards r h.1 (omega arith)) (omega arith)

pub read_id-forwards :
    (r rest : List ℕ)
    → All IsNameChar r
    → length r ≤ 8
    → read_id (length r) 0 (forwards r ++ rest) ≡ (pack r, rest)
read_id-forwards r rest h l =
    let back = push_all-forwards r h (omega (arith, pack-lt r 8 h l)) in
    rw (← length-forwards r) (read_id-append (forwards r) rest 0 ∙ ap (λ t. (t, rest)) back)

-- Names of up to eight characters are written as their characters, and read back from them as the same
-- number, whatever follows.
pub nameid2string-pack :
    (r rest : List ℕ)
    → All IsNameChar r
    → length r ≤ 8
    → (nameid2string (pack r) ≡ forwards r)
      × (read_id (length (nameid2string (pack r))) 0 (nameid2string (pack r) ++ rest)
          ≡ (pack r, rest))
unfolding nameid2string
nameid2string-pack r rest h l =
    let written = name_loop-pack r 8 h l in
    (written, rw (written, length-forwards r) (read_id-forwards r rest h l))
