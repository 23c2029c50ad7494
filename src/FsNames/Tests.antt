-- ===== src/FsNames/Tests.antt =====
-- filesystem.cpp: concrete runs, and the theorems at concrete inputs.
use sdk.Prelude.{ℕ, ◌≡◌, ◌↔◌, refl, arith, List, [], ◌∷◌}
use sdk.Hex.{hexval, hex_digit, islchex}
use sdk.FsNames.{islocalfscompatible, escape, decoded, unescape_at, unescape}
use sdk.FsNames.RoundTrip.{IsPlain, unescape-escape}

-- `a/b`
abbrev slashed : List ℕ
slashed = b'a' ∷ b'/' ∷ b'b' ∷ []

slashed_escaped : escape slashed ≡ b'a' ∷ b'%' ∷ b'2' ∷ b'f' ∷ b'b' ∷ []
unfolding escape islocalfscompatible hex_digit
slashed_escaped = refl

-- A remote file that is called `%2f` comes back as `/`.
literal_sequence : unescape (escape (b'%' ∷ b'2' ∷ b'f' ∷ [])) ≡ b'/' ∷ []
unfolding escape unescape unescape_at decoded islocalfscompatible hexval islchex
literal_sequence = refl

unescape-escape_example : (unescape (escape slashed) ≡ slashed) ↔ IsPlain slashed
unescape-escape_example = unescape-escape slashed (omega arith)
