-- ===== src/Json/Read/Members.antt =====
-- json.cpp: `leaveobject` skips what is left of an object, and loops for ever on a broken one.
use sdk.Prelude.{
  ℕ, zero, suc, ◌≡◌, ◌∙◌, refl, arith, List, [], ◌∷◌, true, false, ◌||◌, ◌==◌, none, some, peek,
}
use sdk.Json.{
  is_digit, skip_space, value_start, skip_number, storeobject, store_scanned, ScanResult, accepted,
  refused, stuck,
}
use sdk.Json.Read.{begins_value, skip_members, leaveobject}
use sdk.Json.Values.{
  Value, Members, str, num, empty_array, array, empty_object, object, members_end, member, print,
  print_members, IsValid, HaveValid,
}
use sdk.Json.Values.Exact.{storeobject-value}

-- Numbers as `leaveobject` knows them: they do not begin with a point.
abbrev pub IsPlainNumber : Value → Type 0
IsPlainNumber (num c cs) = (is_digit c || c == b'-') ≡ true
IsPlainNumber v = Unit {0}

abbrev pub HavePlainNumbers : Members → Type 0
HavePlainNumbers members_end = Unit {0}
HavePlainNumbers (member name v ms) = IsPlainNumber v × HavePlainNumbers ms

-- The rounds that the loop takes to the end of the object.
abbrev pub member_rounds : Members → ℕ → ℕ
member_rounds members_end f = suc f
member_rounds (member name v ms) f = suc (suc (suc (suc (member_rounds ms f))))

begins_value-print :
    (v : Value) (rest : List ℕ)
    → IsPlainNumber v
    → IsValid v
    → (begins_value (peek (print v rest)) ≡ true)
      × (peek (print v rest) == b':' || peek (print v rest) == b',') ≡ false
      × (value_start (print v rest) ≡ print v rest)
unfolding print skip_space
begins_value-print (str s) rest h k = (refl, refl, refl)
begins_value-print (num c cs) rest h k = (ground arith, ground arith, ground arith)
begins_value-print empty_array rest h k = (refl, refl, refl)
begins_value-print (array v vs) rest h k = (refl, refl, refl)
begins_value-print empty_object rest h k = (refl, refl, refl)
begins_value-print (object name v ms) rest h k = (refl, refl, refl)

-- One round over a separator, and one over a value.
skip-separator :
    (f : ℕ) (c : ℕ) (p : List ℕ)
    → (c == b':' || c == b',') ≡ true
    → skip_members (suc f) (c ∷ p) ≡ skip_members f p
unfolding skip_members
skip-separator f c p h = rw h

skip-value :
    (f : ℕ) (v : Value) (rest : List ℕ)
    → IsPlainNumber v
    → IsValid v
    → skip_number rest ≡ rest
    → skip_members (suc f) (print v rest) ≡ skip_members f rest
unfolding skip_members
skip-value f v rest h k stop =
    let (begins, other, start) = begins_value-print v rest h k in
    rw (other, begins, storeobject-value v (print v rest) rest k start stop)

members_stop :
    (ms : Members) (rest : List ℕ) → skip_number (print_members ms rest) ≡ print_members ms rest
unfolding print skip_number
members_stop members_end rest = refl
members_stop (member name v ms) rest = refl

skip_members-print :
    (ms : Members) (f : ℕ) (rest : List ℕ)
    → HaveValid ms
    → HavePlainNumbers ms
    → skip_members (member_rounds ms f) (print_members ms rest) ≡ some (b'}' ∷ rest)
unfolding print
skip_members-print members_end f rest h k = unfold skip_members in refl
skip_members-print (member name v ms) f rest h k =
    skip-separator _ b',' _ refl
    ∙ skip-value _ (str name) (b':' ∷ print v (print_members ms rest)) tt h.0
        (unfold skip_number in refl)
    ∙ skip-separator _ b':' _ refl
    ∙ skip-value _ v (print_members ms rest) k.0 h.1 (members_stop ms rest)
    ∙ skip_members-print ms f rest h.2 k.1

-- From behind any member of an object, `leaveobject` skips the members that are left and the closing
-- bracket, in four rounds for each member and one more. Conditions: the members are valid, and their
-- numbers do not begin with a point.
pub leaveobject-members :
    (ms : Members) (f : ℕ) (rest : List ℕ)
    → HaveValid ms
    → HavePlainNumbers ms
    → leaveobject (member_rounds ms f) (print_members ms rest) ≡ some (true, rest)
unfolding leaveobject
leaveobject-members ms f rest h k = rw (skip_members-print ms f rest h k, leaveobject)

refused_pos :
    (p : List ℕ) (r : ScanResult) → (store_scanned p r).0.0 ≡ false → (store_scanned p r).1 ≡ p
unfolding store_scanned
refused_pos p (accepted q) h = cc
refused_pos p refused h = refl
refused_pos p stuck h = refl

begins_value-start :
    (p : List ℕ)
    → begins_value (peek p) ≡ true
    → (value_start p ≡ p) × (peek p == b':' || peek p == b',') ≡ false
unfolding skip_space
begins_value-start [] h = cc
begins_value-start (c ∷ cs) h = (ground arith, ground arith)

failed_stays :
    (p : List ℕ)
    → begins_value (peek p) ≡ true
    → (storeobject p).0.0 ≡ false
    → (storeobject p).1 ≡ p
unfolding storeobject
failed_stays p h e = refused_pos (value_start p) _ e ∙ (begins_value-start p h).0

skip_members_diverges :
    (p : List ℕ) (fuel : ℕ)
    → begins_value (peek p) ≡ true
    → (storeobject p).0.0 ≡ false
    → skip_members fuel p ≡ none
unfolding skip_members
skip_members_diverges p zero h e = refl
skip_members_diverges p (suc fuel) h e =
    rw ((begins_value-start p h).1, h, failed_stays p h e) (skip_members_diverges p fuel h e)

-- Where a value begins that `storeobject` refuses, such as a string with no closing quote, it leaves
-- `pos` where it is, and the loop of `leaveobject` never ends: no amount of fuel gives a result.
pub leaveobject_diverges :
    (p : List ℕ) (fuel : ℕ)
    → begins_value (peek p) ≡ true
    → (storeobject p).0.0 ≡ false
    → leaveobject fuel p ≡ none
unfolding leaveobject
leaveobject_diverges p fuel h e = rw (skip_members_diverges p fuel h e, leaveobject)
