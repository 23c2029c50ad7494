-- ===== src/Json/Unescape.antt =====
-- src/json.cpp, JSON::unescape: escape sequences in a JSON string, undone in place.
use sdk.Prelude.{
  ℕ, zero, suc, ◌-◌, ◌*◌, ◌^◌, List, [], ◌∷◌, ◌==◌, if◌then◌else◌, peek, drop, bit_or, u8, u32,
}
use sdk.Hex.{hexval}

-- The `switch` on the character behind a backslash, with what follows it: the character that the
-- sequence stands for and the length of the sequence.
unfoldable pub sequence : ℕ → List ℕ → ℕ × ℕ
sequence d rest =
    if d == b'n'
    then (10, 2)
    else if d == b'r'
    then (13, 2)
    else if d == b'b'
    then (8, 2)
    else if d == b'f'
    then (12, 2)
    else if d == b't'
    then (9, 2)
    else if d == 92
    then (92, 2)
    else if d == b'u'
    then (u8 (bit_or (u32 (hexval (peek (drop 2 rest)) * 2 ^ 4)) (hexval (peek (drop 3 rest)))), 6)
    else (d, 2)

-- The loop of `unescape`. `skipped` counts the characters that `replace` still takes out.
unfoldable pub unescape_from : ℕ → List ℕ → List ℕ
unescape_from skipped [] = []
unescape_from (suc skipped) (c ∷ cs) = unescape_from skipped cs
unescape_from zero (c ∷ []) = c ∷ []
unescape_from zero (c ∷ d ∷ rest) =
    let (v, l) = if c == 92 then sequence d rest else (c, 1) in v ∷ unescape_from (l - 1) (d ∷ rest)

unfoldable pub unescape : List ℕ → List ℕ
unescape s = unescape_from 0 s
