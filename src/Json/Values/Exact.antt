-- ===== src/Json/Values/Exact.antt =====
-- json.cpp: `storeobject` on a value at the top, where nothing is open yet.
use sdk.Prelude.{
  ℕ, zero, suc, ◌+◌, ◌-◌, ◌≡◌, ◌≤◌, ◌∙◌, refl, sym, ap, arith, List, [], ◌∷◌, ◌++◌, true, false,
  ◌==◌, peek, length, length-append, take, take-append, Option-cases, inl, inr,
}
use mathlib.Core.List.{append_assoc}
use sdk.Int.{ℤ, pos}
use sdk.Json.{
  skip_number, value_start, scan_token, scan, accepted, store_scanned, storeobject, text_between,
}
use sdk.Json.Values.{
  Value, Elements, Members, str, num, empty_array, array, empty_object, object, elements_end,
  element, members_end, member, quoted, print, print_elements, print_members, IsValid, AreValid,
  HaveValid, rounds, rounds_elements, rounds_members,
}
use sdk.Json.Values.Store.{
  scan_more, scan_last, token-string, token-number, token-open_array, token-close_array,
  token-open_object, token-close_object, token-comma, scan-name, scan-value, print_elements_stops,
  print_members_stops,
}

scan-elements_last :
    (vs : Elements) (f : ℕ) (rest : List ℕ)
    → AreValid vs
    → scan (rounds_elements vs f) (print_elements vs rest) (pos 0) (pos 1) ≡ accepted rest
unfolding print rounds
scan-elements_last elements_end f rest h = scan_last f _ _ _ (token-close_array rest 0 0) refl
scan-elements_last (element v vs) f rest h =
    scan_more _ _ _ _ (token-comma _ 0 1) refl
    ∙ scan-value v _ _ 0 1 h.0 (print_elements_stops vs rest) refl
    ∙ scan-elements_last vs f rest h.1

scan-members_last :
    (ms : Members) (f : ℕ) (rest : List ℕ)
    → HaveValid ms
    → scan (rounds_members ms f) (print_members ms rest) (pos 1) (pos 0) ≡ accepted rest
unfolding print rounds
scan-members_last members_end f rest h = scan_last f _ _ _ (token-close_object rest 0 0) refl
scan-members_last (member name v ms) f rest h =
    scan_more _ _ _ _ (token-comma _ 1 0) refl
    ∙ scan-name name _ _ 1 0 h.0 refl
    ∙ scan-value v _ _ 1 0 h.1 (print_members_stops ms rest) refl
    ∙ scan-members_last ms f rest h.2

-- At the top the scan ends behind the value.
scan-value_last :
    (v : Value) (f : ℕ) (rest : List ℕ)
    → IsValid v
    → skip_number rest ≡ rest
    → scan (rounds v f) (print v rest) (pos 0) (pos 0) ≡ accepted rest
unfolding print rounds
scan-value_last (str s) f rest h e = scan_last f _ _ _ (token-string s rest (pos 0) (pos 0) h) refl
scan-value_last (num c cs) f rest h e =
    scan_last f _ _ _ (token-number c cs rest (pos 0) (pos 0) h e) refl
scan-value_last empty_array f rest h e =
    scan_more (suc f) _ _ _ (token-open_array (b']' ∷ rest) 0 0) refl
    ∙ scan_last f _ _ _ (token-close_array rest 0 0) refl
scan-value_last (array v vs) f rest h e =
    scan_more _ _ _ _ (token-open_array _ 0 0) refl
    ∙ scan-value v _ _ 0 1 h.0 (print_elements_stops vs rest) refl
    ∙ scan-elements_last vs f rest h.1
scan-value_last empty_object f rest h e =
    scan_more (suc f) _ _ _ (token-open_object (b'}' ∷ rest) 0 0) refl
    ∙ scan_last f _ _ _ (token-close_object rest 0 0) refl
scan-value_last (object name v ms) f rest h e =
    scan_more _ _ _ _ (token-open_object _ 0 0) refl
    ∙ scan-name name _ _ 1 0 h.0 refl
    ∙ scan-value v _ _ 1 0 h.1 (print_members_stops ms rest) refl
    ∙ scan-members_last ms f rest h.2

-- More fuel does not change how an accepting scan ends.
pub scan_mono :
    (f g : ℕ) (p : List ℕ) (o a : ℤ) {q : List ℕ}
    → f ≤ g
    → scan f p o a ≡ accepted q
    → scan g p o a ≡ accepted q
unfolding scan
scan_mono zero g p o a h e = cc
scan_mono (suc f) zero p o a h e = absurd (omega arith)
scan_mono (suc f) (suc g) p o a {q} h e = elim (Option-cases (scan_token p o a)) [
  | inl n ↦ ground arith
  | inr ((q', o', a'), s) ↦ ground (arith, scan_mono f g q' o' a' {q = q} (omega arith))
]

-- Every token is at least one character long.
mutual
  unfolding print rounds

  rounds-le :
      (v : Value) (f : ℕ) (rest : List ℕ) → rounds v f + length rest ≤ length (print v rest) + f
  rounds-le (str s) f rest = omega (arith, length-append s (b'"' ∷ rest))
  rounds-le (num c cs) f rest = omega (arith, length-append cs rest)
  rounds-le empty_array f rest = omega arith
  rounds-le (array v vs) f rest = omega (
    arith,
    rounds-le v (rounds_elements vs f) (print_elements vs rest),
    rounds_elements-le vs f rest,
  )
  rounds-le empty_object f rest = omega arith
  rounds-le (object name v ms) f rest = omega (
    arith,
    length-append name (b'"' ∷ b':' ∷ print v (print_members ms rest)),
    rounds-le v (rounds_members ms f) (print_members ms rest),
    rounds_members-le ms f rest,
  )

  rounds_elements-le :
      (vs : Elements) (f : ℕ) (rest : List ℕ)
      → rounds_elements vs f + length rest ≤ length (print_elements vs rest) + f
  rounds_elements-le elements_end f rest = omega arith
  rounds_elements-le (element v vs) f rest = omega (
    arith,
    rounds-le v (rounds_elements vs f) (print_elements vs rest),
    rounds_elements-le vs f rest,
  )

  rounds_members-le :
      (ms : Members) (f : ℕ) (rest : List ℕ)
      → rounds_members ms f + length rest ≤ length (print_members ms rest) + f
  rounds_members-le members_end f rest = omega arith
  rounds_members-le (member name v ms) f rest = omega (
    arith,
    length-append name (b'"' ∷ b':' ∷ print v (print_members ms rest)),
    rounds-le v (rounds_members ms f) (print_members ms rest),
    rounds_members-le ms f rest,
  )

-- The text of a value does not depend on what follows it.
mutual
  unfolding print

  print-append : (v : Value) (xs ys : List ℕ) → print v (xs ++ ys) ≡ print v xs ++ ys
  print-append (str s) xs ys = ap (◌∷◌ b'"') (sym (append_assoc s (b'"' ∷ xs) ys))
  print-append (num c cs) xs ys = ap (◌∷◌ c) (sym (append_assoc cs xs ys))
  print-append empty_array xs ys = refl
  print-append (array v vs) xs ys =
      ap (λ t. b'[' ∷ print v t) (print_elements-append vs xs ys)
      ∙ ap (◌∷◌ b'[') (print-append v (print_elements vs xs) ys)
  print-append empty_object xs ys = refl
  print-append (object name v ms) xs ys =
      ap (λ t. b'{' ∷ quoted name (b':' ∷ print v t)) (print_members-append ms xs ys)
      ∙ ap (λ t. b'{' ∷ quoted name (b':' ∷ t)) (print-append v (print_members ms xs) ys)
      ∙ ap (λ t. b'{' ∷ b'"' ∷ t)
          (sym (append_assoc name (b'"' ∷ b':' ∷ print v (print_members ms xs)) ys))

  print_elements-append :
      (vs : Elements) (xs ys : List ℕ) → print_elements vs (xs ++ ys) ≡ print_elements vs xs ++ ys
  print_elements-append elements_end xs ys = refl
  print_elements-append (element v vs) xs ys =
      ap (λ t. b',' ∷ print v t) (print_elements-append vs xs ys)
      ∙ ap (◌∷◌ b',') (print-append v (print_elements vs xs) ys)

  print_members-append :
      (ms : Members) (xs ys : List ℕ) → print_members ms (xs ++ ys) ≡ print_members ms xs ++ ys
  print_members-append members_end xs ys = refl
  print_members-append (member name v ms) xs ys =
      ap (λ t. b',' ∷ quoted name (b':' ∷ print v t)) (print_members-append ms xs ys)
      ∙ ap (λ t. b',' ∷ quoted name (b':' ∷ t)) (print-append v (print_members ms xs) ys)
      ∙ ap (λ t. b',' ∷ b'"' ∷ t)
          (sym (append_assoc name (b'"' ∷ b':' ∷ print v (print_members ms xs)) ys))

-- What `storeobject` stores for a value: a string without its quotes, any other value as it is.
abbrev pub stored : Value → List ℕ
stored (str s) = s
stored v = print v []

take-before : (xs ys : List ℕ) → take (length (xs ++ ys) - length ys) (xs ++ ys) ≡ xs
take-before xs ys =
    let e : length (xs ++ ys) - length ys ≡ length xs = omega (arith, length-append xs ys) in
    rw e (take-append xs ys)

other_text : (p xs ys : List ℕ) → (peek p == b'"') ≡ false → p ≡ xs ++ ys → text_between p ys ≡ xs
other_text p xs ys h e = rw h (rw e (take-before xs ys))

text-print : (v : Value) (rest : List ℕ) → IsValid v → text_between (print v rest) rest ≡ stored v
unfolding print
text-print (str s) rest h =
    let e : suc (length (s ++ (b'"' ∷ rest))) - length rest - 2 ≡ length s =
      omega (arith, length-append s (b'"' ∷ rest)) in
    rw e (take-append s (b'"' ∷ rest))
text-print (num c cs) rest h =
    other_text _ (c ∷ (cs ++ [])) rest (ground arith) (print-append (num c cs) [] rest)
text-print empty_array rest h = other_text _ (print empty_array []) rest refl refl
text-print (array v vs) rest h =
    other_text _ (print (array v vs) []) rest refl (print-append (array v vs) [] rest)
text-print empty_object rest h = other_text _ (print empty_object []) rest refl refl
text-print (object name v ms) rest h =
    other_text _ (print (object name v ms) []) rest refl (print-append (object name v ms) [] rest)

-- On the text of a value, behind white space and a comma if there is one, `storeobject` succeeds, stores the
-- value and leaves `pos` exactly behind it, however deep arrays and objects are nested in it.
-- Conditions: strings hold no NUL and no bare quote, and a number is not followed by more of a number.
pub storeobject-value :
    (v : Value) (p rest : List ℕ)
    → IsValid v
    → value_start p ≡ print v rest
    → skip_number rest ≡ rest
    → storeobject p ≡ ((true, stored v), rest)
unfolding storeobject store_scanned
storeobject-value v p rest h e stop =
    let top = scan-value_last v 1 rest h stop in
    let enough : rounds v 1 ≤ suc (length (print v rest)) = omega (arith, rounds-le v 1 rest) in
    let done =
      scan_mono (rounds v 1) (suc (length (print v rest))) (print v rest) (pos 0) (pos 0) enough
        top in
    rw (e, done, text-print v rest h)
