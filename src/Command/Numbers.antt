-- ===== src/Command/Numbers.antt =====
-- command.cpp: the numbers that a command writes are read back by `getint`.
use sdk.Prelude.{
  ℕ, zero, suc, ◌+◌, ◌-◌, ◌*◌, ◌/◌, ◌%◌, ◌≡◌, ◌<◌, ◌∙◌, refl, sym, ap, arith, List, [], ◌∷◌, ◌++◌,
  Bool, true, not, ◌||◌, ◌==◌, All, Bool-cases, inl, inr, peek, next,
}
use sdk.Int.{ℤ, pos, negsuc}
use sdk.Json.{is_digit, storeobject, skip_number, skip_space, value_start}
use sdk.Json.Read.{read_digits, atoll, getint}
use sdk.Json.Values.{print, num}
use sdk.Json.Values.Exact.{storeobject-value}
use sdk.Command.{digits_before, decimal}

abbrev AreDigits : List ℕ → Type 0
AreDigits = All (λ c. is_digit c ≡ true)

digits_before-AreDigits :
    (f n : ℕ) (rest : List ℕ) → AreDigits rest → AreDigits (digits_before f n rest)
unfolding digits_before
digits_before-AreDigits zero n rest h = h
digits_before-AreDigits (suc f) n rest h =
    let digit : is_digit (b'0' + n % 10) ≡ true = ground arith in
    let more = digits_before-AreDigits f (n / 10) ((b'0' + n % 10) ∷ rest) (digit, h) in
    elim (Bool-cases (n / 10 == 0)) [ inl e ↦ rw e (digit, h) | inr e ↦ rw e more ]

digits_before-append :
    (f n : ℕ) (xs rest : List ℕ) → digits_before f n (xs ++ rest) ≡ digits_before f n xs ++ rest
unfolding digits_before
digits_before-append zero n xs rest = refl
digits_before-append (suc f) n xs rest =
    let more = digits_before-append f (n / 10) ((b'0' + n % 10) ∷ xs) rest in
    elim (Bool-cases (n / 10 == 0)) [ inl e ↦ rw e refl | inr e ↦ rw e more ]

-- Reading the digits of a number gives the number.
read_digits-digits_before :
    (f n : ℕ) (rest : List ℕ) → n < f → read_digits 0 (digits_before f n rest) ≡ read_digits n rest
unfolding digits_before read_digits
read_digits-digits_before zero n rest h = absurd (omega arith)
read_digits-digits_before (suc f) n rest h =
    let digit : is_digit (b'0' + n % 10) ≡ true = ground arith in
    elim (Bool-cases (n / 10 == 0)) [
      | inl e ↦
          let small : 0 * 10 + (b'0' + n % 10 - b'0') ≡ n = ground arith in
          rw e (rw (digit, small) refl)
      | inr e ↦
          let whole : n / 10 * 10 + (b'0' + n % 10 - b'0') ≡ n = omega arith in
          let shorter : n / 10 < f = ground arith in
          rw e (
            read_digits-digits_before f (n / 10) ((b'0' + n % 10) ∷ rest) shorter
            ∙ rw (digit, whole) refl)
    ]

number_body :
    (cs : List ℕ)
    → AreDigits cs
    → All (λ d. (is_digit d || d == b'.' || d == b'e' || d == b'E') ≡ true) cs
number_body [] h = tt
number_body (c ∷ cs) h = (ground arith, number_body cs h.1)

-- `storeobject` behind the text of a number.
storeobject-digits :
    (xs rest : List ℕ)
    → (is_digit (peek xs) || peek xs == b'-') ≡ true
    → AreDigits (next xs)
    → skip_number rest ≡ rest
    → (storeobject (xs ++ rest)).1 ≡ rest
unfolding print skip_space
storeobject-digits [] rest h k stop = absurd cc
storeobject-digits (c ∷ cs) rest h k stop =
    let start : value_start (c ∷ (cs ++ rest)) ≡ c ∷ (cs ++ rest) = ground arith in
    ap (λ r. r.1)
      (storeobject-value (num c cs) (c ∷ (cs ++ rest)) rest (ground arith, number_body cs k) start
        stop)

digits_before-begins :
    (f n d : ℕ) (rest : List ℕ)
    → is_digit d ≡ true
    → is_digit (peek (digits_before f n (d ∷ rest))) ≡ true
unfolding digits_before
digits_before-begins zero n d rest h = h
digits_before-begins (suc f) n d rest h =
    let digit : is_digit (b'0' + n % 10) ≡ true = ground arith in
    let more = digits_before-begins f (n / 10) (b'0' + n % 10) (d ∷ rest) digit in
    elim (Bool-cases (n / 10 == 0)) [ inl e ↦ rw e digit | inr e ↦ rw e more ]

begins : (f n : ℕ) → is_digit (peek (digits_before (suc f) n [])) ≡ true
unfolding digits_before
begins f n =
    let digit : is_digit (b'0' + n % 10) ≡ true = ground arith in
    let more = digits_before-begins f (n / 10) (b'0' + n % 10) [] digit in
    elim (Bool-cases (n / 10 == 0)) [ inl e ↦ rw e digit | inr e ↦ rw e more ]

tail-AreDigits : (xs : List ℕ) → AreDigits xs → AreDigits (next xs)
tail-AreDigits [] h = tt
tail-AreDigits (c ∷ cs) h = h.1

peek-append : (xs rest : List ℕ) → is_digit (peek xs) ≡ true → peek (xs ++ rest) ≡ peek xs
peek-append [] rest h = absurd cc
peek-append (c ∷ cs) rest h = refl

-- A character that no number goes on with.
abbrev pub ends_number : List ℕ → Bool
ends_number p = not (is_digit (peek p) || peek p == b'.' || peek p == b'e' || peek p == b'E')

number_stops : (rest : List ℕ) → ends_number rest ≡ true → skip_number rest ≡ rest
unfolding skip_number
number_stops [] h = refl
number_stops (c ∷ cs) h = ground arith

read_digits-stops : (n : ℕ) (rest : List ℕ) → ends_number rest ≡ true → read_digits n rest ≡ n
unfolding read_digits
read_digits-stops n [] h = refl
read_digits-stops n (c ∷ cs) h = ground arith

digits_read :
    (n : ℕ) (rest : List ℕ)
    → ends_number rest ≡ true
    → read_digits 0 (digits_before (suc n) n [] ++ rest) ≡ n
digits_read n rest h =
    ap (read_digits 0) (sym (digits_before-append (suc n) n [] rest))
    ∙ read_digits-digits_before (suc n) n rest (omega arith)
    ∙ read_digits-stops n rest h

-- The number that `arg` and `element` write is read back by `getint`, which leaves `pos` behind it.
-- Condition: what follows does not go on with a number.
pub getint-decimal :
    (n : ℤ) (rest : List ℕ) → ends_number rest ≡ true → getint (decimal n ++ rest) ≡ (n, rest)
unfolding getint atoll decimal
getint-decimal (pos n) rest h =
    let xs = digits_before (suc n) n [] in
    let front = peek-append xs rest (begins n n) in
    let digits = digits_before-AreDigits (suc n) n [] tt in
    let after =
      storeobject-digits xs rest (ground (arith, begins n n)) (tail-AreDigits xs digits)
        (number_stops rest h) in
    ground (arith, front, begins n n, after, digits_read n rest h)
getint-decimal (negsuc n) rest h =
    let xs = digits_before (suc (suc n)) (suc n) [] in
    let digits = digits_before-AreDigits (suc (suc n)) (suc n) [] tt in
    let after = storeobject-digits (b'-' ∷ xs) rest refl digits (number_stops rest h) in
    rw (after, digits_read (suc n) rest h) refl
