-- ===== src/Json/Values/Store.antt =====
-- json.cpp: `storeobject` takes exactly one value.
use sdk.Prelude.{
  ℕ, suc, ◌≡◌, ◌∙◌, refl, arith, List, [], ◌∷◌, ◌++◌, Bool, true, false, not, ◌&&◌, ◌||◌, ◌==◌, All,
  some,
}
use sdk.Int.{ℤ, pos, is_zero}
use sdk.Json.{is_digit, skip_string, skip_number, scan_token, scan, accepted}
use sdk.Json.Values.{
  Value, Elements, Members, str, num, empty_array, array, empty_object, object, elements_end,
  element, members_end, member, quoted, print, print_elements, print_members, is_body, IsNumber,
  IsValid, AreValid, HaveValid, rounds, rounds_elements, rounds_members,
}

-- A round that leaves something open, and one that closes the value.
pub scan_more :
    (f : ℕ) (p : List ℕ) (o a : ℤ) {q : List ℕ} {o' a' : ℤ}
    → scan_token p o a ≡ some (q, o', a')
    → (is_zero o' && is_zero a') ≡ false
    → scan (suc f) p o a ≡ scan f q o' a'
unfolding scan
scan_more f p o a e h = rw (e, scan) (rw h refl)

pub scan_last :
    (f : ℕ) (p : List ℕ) (o a : ℤ) {q : List ℕ} {o' a' : ℤ}
    → scan_token p o a ≡ some (q, o', a')
    → (is_zero o' && is_zero a') ≡ true
    → scan (suc f) p o a ≡ accepted q
unfolding scan
scan_last f p o a e h = rw (e, scan) (rw h refl)

skip_string-body :
    (escaped : Bool) (s rest : List ℕ)
    → is_body escaped s ≡ true
    → skip_string escaped (s ++ (b'"' ∷ rest)) ≡ some (b'"' ∷ rest)
unfolding skip_string
skip_string-body escaped [] rest h = ground arith
skip_string-body escaped (c ∷ cs) rest h =
    ground (arith, skip_string-body (c == 92 && not escaped) cs rest)

skip_number-append :
    (cs rest : List ℕ)
    → All (λ d. (is_digit d || d == b'.' || d == b'e' || d == b'E') ≡ true) cs
    → skip_number rest ≡ rest
    → skip_number (cs ++ rest) ≡ rest
unfolding skip_number
skip_number-append [] rest h e = e
skip_number-append (c ∷ cs) rest h e = rw h.0 (skip_number-append cs rest h.1 e)

pub token-string :
    (s rest : List ℕ) (o a : ℤ)
    → is_body false s ≡ true
    → scan_token (quoted s rest) o a ≡ some (rest, o, a)
unfolding scan_token
token-string s rest o a h = rw (skip_string-body false s rest h)

pub token-number :
    (c : ℕ) (cs rest : List ℕ) (o a : ℤ)
    → IsNumber c cs
    → skip_number rest ≡ rest
    → scan_token (c ∷ (cs ++ rest)) o a ≡ some (rest, o, a)
unfolding scan_token
token-number c cs rest o a h e = ground (arith, skip_number-append cs rest h.1 e)

-- Something is open.
abbrev pub IsOpen : ℕ → ℕ → Type 0
IsOpen o a = (is_zero (pos o) && is_zero (pos a)) ≡ false

pub IsOpen-array : (o a : ℕ) → IsOpen o (suc a)
IsOpen-array o a = ground arith

pub IsOpen-object : (o a : ℕ) → IsOpen (suc o) a
IsOpen-object o a = ground arith

-- Brackets and separators are tokens by computation.
module _ (rest : List ℕ) (o a : ℕ) where
  pub token-open_array : scan_token (b'[' ∷ rest) (pos o) (pos a) ≡ some (rest, pos o, pos (suc a))
  unfolding scan_token
  token-open_array = refl

  pub token-close_array : scan_token (b']' ∷ rest) (pos o) (pos (suc a)) ≡ some (rest, pos o, pos a)
  unfolding scan_token
  token-close_array = refl

  pub token-open_object : scan_token (b'{' ∷ rest) (pos o) (pos a) ≡ some (rest, pos (suc o), pos a)
  unfolding scan_token
  token-open_object = refl

  pub token-close_object :
      scan_token (b'}' ∷ rest) (pos (suc o)) (pos a) ≡ some (rest, pos o, pos a)
  unfolding scan_token
  token-close_object = refl

  pub token-comma : scan_token (b',' ∷ rest) (pos o) (pos a) ≡ some (rest, pos o, pos a)
  unfolding scan_token
  token-comma = refl

  token-colon : scan_token (b':' ∷ rest) (pos o) (pos a) ≡ some (rest, pos o, pos a)
  unfolding scan_token
  token-colon = refl

pub print_elements_stops :
    (vs : Elements) (rest : List ℕ) → skip_number (print_elements vs rest) ≡ print_elements vs rest
unfolding print skip_number
print_elements_stops elements_end rest = refl
print_elements_stops (element v vs) rest = refl

pub print_members_stops :
    (ms : Members) (rest : List ℕ) → skip_number (print_members ms rest) ≡ print_members ms rest
unfolding print skip_number
print_members_stops members_end rest = refl
print_members_stops (member name v ms) rest = refl

-- One round over a name and one over its colon.
pub scan-name :
    (name : List ℕ) (f : ℕ) (rest : List ℕ) (o a : ℕ)
    → is_body false name ≡ true
    → IsOpen o a
    → scan (suc (suc f)) (quoted name (b':' ∷ rest)) (pos o) (pos a) ≡ scan f rest (pos o) (pos a)
scan-name name f rest o a h op =
    scan_more (suc f) _ _ _ (token-string name (b':' ∷ rest) (pos o) (pos a) h) op
    ∙ scan_more f _ _ _ (token-colon rest o a) op

-- Where something is open, the scan goes over a value, or to the end of the innermost bracket.
mutual
  unfolding print rounds

  pub scan-value :
      (v : Value) (f : ℕ) (rest : List ℕ) (o a : ℕ)
      → IsValid v
      → skip_number rest ≡ rest
      → IsOpen o a
      → scan (rounds v f) (print v rest) (pos o) (pos a) ≡ scan f rest (pos o) (pos a)
  scan-value (str s) f rest o a h e op =
      scan_more f _ _ _ (token-string s rest (pos o) (pos a) h) op
  scan-value (num c cs) f rest o a h e op =
      scan_more f _ _ _ (token-number c cs rest (pos o) (pos a) h e) op
  scan-value empty_array f rest o a h e op =
      scan_more (suc f) _ _ _ (token-open_array (b']' ∷ rest) o a) (IsOpen-array o a)
      ∙ scan_more f _ _ _ (token-close_array rest o a) op
  scan-value (array v vs) f rest o a h e op =
      scan_more _ _ _ _ (token-open_array _ o a) (IsOpen-array o a)
      ∙ scan-value v _ _ o (suc a) h.0 (print_elements_stops vs rest) (IsOpen-array o a)
      ∙ scan-elements vs f rest o a h.1 op
  scan-value empty_object f rest o a h e op =
      scan_more (suc f) _ _ _ (token-open_object (b'}' ∷ rest) o a) (IsOpen-object o a)
      ∙ scan_more f _ _ _ (token-close_object rest o a) op
  scan-value (object name v ms) f rest o a h e op =
      scan_more _ _ _ _ (token-open_object _ o a) (IsOpen-object o a)
      ∙ scan-name name _ _ (suc o) a h.0 (IsOpen-object o a)
      ∙ scan-value v _ _ (suc o) a h.1 (print_members_stops ms rest) (IsOpen-object o a)
      ∙ scan-members ms f rest o a h.2 op

  scan-elements :
      (vs : Elements) (f : ℕ) (rest : List ℕ) (o a : ℕ)
      → AreValid vs
      → IsOpen o a
      → scan (rounds_elements vs f) (print_elements vs rest) (pos o) (pos (suc a))
        ≡ scan f rest (pos o) (pos a)
  scan-elements elements_end f rest o a h op = scan_more f _ _ _ (token-close_array rest o a) op
  scan-elements (element v vs) f rest o a h op =
      scan_more _ _ _ _ (token-comma _ o (suc a)) (IsOpen-array o a)
      ∙ scan-value v _ _ o (suc a) h.0 (print_elements_stops vs rest) (IsOpen-array o a)
      ∙ scan-elements vs f rest o a h.1 op

  scan-members :
      (ms : Members) (f : ℕ) (rest : List ℕ) (o a : ℕ)
      → HaveValid ms
      → IsOpen o a
      → scan (rounds_members ms f) (print_members ms rest) (pos (suc o)) (pos a)
        ≡ scan f rest (pos o) (pos a)
  scan-members members_end f rest o a h op = scan_more f _ _ _ (token-close_object rest o a) op
  scan-members (member name v ms) f rest o a h op =
      scan_more _ _ _ _ (token-comma _ (suc o) a) (IsOpen-object o a)
      ∙ scan-name name _ _ (suc o) a h.0 (IsOpen-object o a)
      ∙ scan-value v _ _ (suc o) a h.1 (print_members_stops ms rest) (IsOpen-object o a)
      ∙ scan-members ms f rest o a h.2 op
