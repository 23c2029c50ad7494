-- ===== src/AttrMap/Escaping.antt =====
-- attrmap.cpp and json.cpp: attribute values pass through JSON unchanged.
use sdk.Prelude.{
  ℕ, ◌*◌, ◌/◌, ◌%◌, ◌^◌, ◌≡◌, ◌<◌, ◌∙◌, refl, sym, ap, arith, List, [], ◌∷◌, ◌++◌, true, false,
  ◌==◌, All, IsByte, u8, u32, bit_or, bit_or_field,
}
use mathlib.Core.List.{append_assoc, append-nil}
use sdk.Hex.{hexval, hex_digit, islchex, hex_digit_lem}
use sdk.AttrMap.{escape_char, escape_value}
use sdk.Json.{value_start, skip_space, skip_number, storeobject}
use sdk.Json.Unescape.{sequence, unescape_from, unescape}
use sdk.Json.Values.{print, quoted, is_body, str}
use sdk.Json.Values.Exact.{storeobject-value}

unescape-plain :
    (c : ℕ) (rest : List ℕ)
    → (c == 92) ≡ false
    → unescape_from 0 (c ∷ rest) ≡ c ∷ unescape_from 0 rest
unfolding unescape_from
unescape-plain c [] h = refl
unescape-plain c (d ∷ rest) h = rw h

hex_pair :
    (c : ℕ)
    → c < 256
    → u8 (bit_or (u32 (hexval (hex_digit (c / 16)) * 2 ^ 4)) (hexval (hex_digit (c % 16)))) ≡ c
hex_pair c h =
    let hi = (hex_digit_lem (c / 16) (omega arith)).0 in
    let lo = (hex_digit_lem (c % 16) (omega arith)).0 in
    let small : u32 (c / 16 * 2 ^ 4) ≡ c / 16 * 2 ^ 4 = omega arith in
    rw (hi, lo, small, bit_or_field 4 (c / 16) (c % 16) (omega arith)) (omega arith)

unescape-escape_char :
    (c : ℕ) (rest : List ℕ)
    → c < 256
    → unescape_from 0 (escape_char c ++ rest) ≡ c ∷ unescape_from 0 rest
unfolding escape_char unescape_from sequence
unescape-escape_char c rest h = ground (arith, unescape-plain c rest, hex_pair c h)

unescape-escape_from :
    (value rest : List ℕ)
    → All IsByte value
    → unescape_from 0 (escape_value value ++ rest) ≡ value ++ unescape_from 0 rest
unfolding escape_value
unescape-escape_from [] rest h = refl
unescape-escape_from (c ∷ cs) rest h =
    ap (unescape_from 0) (append_assoc (escape_char c) (escape_value cs) rest)
    ∙ unescape-escape_char c (escape_value cs ++ rest) h.0
    ∙ ap (◌∷◌ c) (unescape-escape_from cs rest h.1)

is_body-digit :
    (x : ℕ) (rest : List ℕ) → islchex x ≡ true → is_body false (x ∷ rest) ≡ is_body false rest
unfolding islchex
is_body-digit x rest h = ground arith

is_body-unicode :
    (c : ℕ) (rest : List ℕ)
    → c < 256
    → is_body false (92 ∷ b'u' ∷ b'0' ∷ b'0' ∷ hex_digit (c / 16) ∷ hex_digit (c % 16) ∷ rest)
      ≡ is_body false rest
is_body-unicode c rest h =
    is_body-digit (hex_digit (c / 16)) (hex_digit (c % 16) ∷ rest)
      (hex_digit_lem (c / 16) (omega arith)).1
    ∙ is_body-digit (hex_digit (c % 16)) rest (hex_digit_lem (c % 16) (omega arith)).1

is_body-escape_char :
    (c : ℕ) (rest : List ℕ)
    → c < 256
    → is_body false rest ≡ true
    → is_body false (escape_char c ++ rest) ≡ true
unfolding escape_char
is_body-escape_char c rest h k = ground (arith, is_body-unicode c rest h)

is_body-escape_value :
    (value : List ℕ) → All IsByte value → is_body false (escape_value value) ≡ true
unfolding escape_value
is_body-escape_value [] h = refl
is_body-escape_value (c ∷ cs) h =
    is_body-escape_char c (escape_value cs) h.0 (is_body-escape_value cs h.1)

quoted_start : (s rest : List ℕ) → value_start (quoted s rest) ≡ quoted s rest
unfolding skip_space
quoted_start s rest = refl

-- The value of an attribute, whatever bytes are in it, is escaped to a JSON string that `storeobject`
-- takes as one value, and `unescape` makes the same bytes of it again.
pub value_survives :
    (value rest : List ℕ)
    → All IsByte value
    → skip_number rest ≡ rest
    → (storeobject (quoted (escape_value value) rest) ≡ ((true, escape_value value), rest))
      × (unescape (escape_value value) ≡ value)
unfolding unescape print unescape_from
value_survives value rest h stop = (
  storeobject-value (str (escape_value value)) (quoted (escape_value value) rest) rest
      (is_body-escape_value value h) (quoted_start (escape_value value) rest) stop,
  ap (unescape_from 0) (sym (append-nil (escape_value value)))
      ∙ unescape-escape_from value [] h
      ∙ append-nil value,
)
