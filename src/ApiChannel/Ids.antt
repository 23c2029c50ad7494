-- ===== src/ApiChannel/Ids.antt =====
-- megaclient.cpp: the ids of requests are the numbers with ten letters, counted on.
use sdk.Prelude.{
  ℕ, suc, ◌+◌, ◌-◌, ◌*◌, ◌%◌, ◌^◌, ◌≡◌, ◌≤◌, ◌<◌, refl, sym, ap, subst, arith, List, [], ◌∷◌, Bool,
  true, false, ltb, if◌then◌else◌, length, All, Bool-cases, inl, inr,
}
use native.Mathlib.Nat.{pow-suc, mod-eq_of_lt, mod_self}
use sdk.ApiChannel.{increment, increment_at, next_id}

abbrev pub IsLetter : ℕ → Type 0
IsLetter c = (b'a' ≤ c) × (c ≤ b'z')

-- The number that an id stands for: its letters are digits, the highest first.
pub value : List ℕ → ℕ
value [] = 0
value (c ∷ id) = (c - b'a') * 26 ^ length id + value id

value-lt : (id : List ℕ) → All IsLetter id → value id < 26 ^ length id
unfolding value
value-lt [] h = omega arith
value-lt (c ∷ id) (h, hs) = let low = value-lt id hs in grind (arith, pow-suc 26 (length id))

length-increment : (id : List ℕ) → length (increment id).0 ≡ length id
unfolding increment increment_at
length-increment [] = refl
length-increment (c ∷ id) = at (increment id).0 (increment id).1 (length-increment id)
  where
    at :
        (rest : List ℕ) (carry : Bool)
        → length rest ≡ length id
        → length (increment_at c rest carry).0 ≡ suc (length id)
    at rest false n = ap suc n
    at rest true n = ground (arith, n)

increment-All : (id : List ℕ) → All IsLetter id → All IsLetter (increment id).0
unfolding increment increment_at
increment-All [] h = tt
increment-All (c ∷ id) (h, hs) = at (increment id).0 (increment id).1 (increment-All id hs)
  where
    at :
        (rest : List ℕ) (carry : Bool)
        → All IsLetter rest
        → All IsLetter (increment_at c rest carry).0
    at rest false k = (h, k)
    at rest true k = elim (Bool-cases (ltb c b'z')) [
      | inl e ↦ rw e (ground arith, k)
      | inr e ↦ rw e (ground arith, k)
    ]

next_digit :
    (c x low v : ℕ)
    → b'a' ≤ c
    → low + x ≡ v + 1
    → (c + 1 - b'a') * x + low + 0 ≡ (c - b'a') * x + v + 1
next_digit c x low v h k =
    let more : c + 1 - b'a' ≡ suc (c - b'a') = omega arith in rw more (grind arith)

last_digit :
    (c id low v : ℕ)
    → c ≤ b'z'
    → ltb c b'z' ≡ false
    → low + 26 ^ id ≡ v + 1
    → 0 * 26 ^ id + low + 26 ^ suc id ≡ (c - b'a') * 26 ^ id + v + 1
last_digit c id low v h e k = let z : c ≡ b'z' = ground arith in rw z (grind (arith, pow-suc 26 id))

increment-value :
    (id : List ℕ)
    → All IsLetter id
    → value (increment id).0 + (if (increment id).1 then 26 ^ length id else 0) ≡ value id + 1
unfolding value increment increment_at
increment-value [] h = refl
increment-value (c ∷ id) (h, hs) =
    at (increment id).0 (increment id).1 (length-increment id) (increment-value id hs)
  where
    at :
        (rest : List ℕ) (carry : Bool)
        → length rest ≡ length id
        → value rest + (if carry then 26 ^ length id else 0) ≡ value id + 1
        → value (increment_at c rest carry).0
            + (if (increment_at c rest carry).1 then 26 ^ suc (length id) else 0)
          ≡ (c - b'a') * 26 ^ length id + value id + 1
    at rest false n k = rw n (omega arith)
    at rest true n k = elim (Bool-cases (ltb c b'z')) [
      | inl e ↦ rw (e, n) (next_digit c _ _ _ h.0 k)
      | inr e ↦ rw (e, n) (last_digit c _ _ _ h.1 e k)
    ]

wraps :
    (new v p : ℕ) (carry : Bool)
    → new < p
    → v < p
    → new + (if carry then p else 0) ≡ v + 1
    → new ≡ (v + 1) % p
wraps new v p false small below e =
    let sum : v + 1 ≡ new = omega arith in rw sum (sym (mod-eq_of_lt small))
wraps new v p true small below e =
    let sum : v + 1 ≡ p = omega arith in
    let zero_new : new ≡ 0 = omega arith in rw (sum, zero_new) (sym (mod_self p))

-- The next request id is the next number with as many letters; the last one is followed by the first one.
-- Condition: the id is made of letters.
pub next_id-value :
    (id : List ℕ) → All IsLetter id → value (next_id id) ≡ (value id + 1) % 26 ^ length id
unfolding next_id
next_id-value id h =
    let bound =
      subst (λ n. value (increment id).0 < 26 ^ n) (length-increment id)
        (value-lt (increment id).0 (increment-All id h)) in
    wraps (value (increment id).0) (value id) (26 ^ length id) (increment id).1 bound
      (value-lt id h) (increment-value id h)
