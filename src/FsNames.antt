-- ===== src/FsNames.antt =====
-- src/filesystem.cpp, FileSystemAccess: names with characters that the local file system forbids.
pub mod RoundTrip
mod Tests
use sdk.Prelude.{
  ◌^◌, u32, ℕ, ◌+◌, ◌-◌, ◌*◌, ◌/◌, ◌%◌, List, [], ◌∷◌, ◌++◌, Bool, true, false, not, ◌&&◌, ◌||◌,
  Option, none, some, leb, ◌==◌, if◌then◌else◌, peek, next, u8,
}
use sdk.Hex.{hexval, hex_digit, islchex}

-- `strchr("\\/:?\"<>|*", c)`, for c other than 0.
abbrev is_forbidden : ℕ → Bool
is_forbidden c =
    c == 92
    || c == b'/'
    || c == b':'
    || c == b'?'
    || c == b'"'
    || c == b'<'
    || c == b'>'
    || c == b'|'
    || c == b'*'

-- FileSystemAccess::islocalfscompatible
pub islocalfscompatible : ℕ → Bool
islocalfscompatible c = leb b' ' c && not (is_forbidden c)

-- What `escapefsincompatible` puts in the place of one character: `sprintf(buf, "%%%02x", c)`.
abbrev pub escaped : ℕ → List ℕ → List ℕ
escaped c rest =
    if islocalfscompatible c
    then c ∷ rest
    else b'%' ∷ hex_digit (c / 16) ∷ hex_digit (c % 16) ∷ rest

-- FileSystemAccess::escapefsincompatible. The loop goes from the last character to the first, so
-- what stands behind a character is escaped already when its turn comes.
pub escape : List ℕ → List ℕ
escape [] = []
escape (c ∷ cs) = escaped c (escape cs)

-- The test of one round of `unescapefsincompatible` at a character `c` with `rest` behind it: the
-- character that a well-formed escape sequence of an incompatible character stands for.
pub decoded : ℕ → List ℕ → Option ℕ
decoded c rest =
    let hi = peek rest in
    let lo = peek (next rest) in
    let v = u8 (u32 (hexval hi * 2 ^ 4) + hexval lo) in
    if c == b'%' && islchex hi && islchex lo && not (islocalfscompatible v) then some v else none

pub unescape_at : ℕ → List ℕ → List ℕ
unescape_at c rest = elim (decoded c rest) [ some v ↦ v ∷ next (next rest) | none ↦ c ∷ rest ]

-- FileSystemAccess::unescapefsincompatible, again from the end. The loop leaves the last two
-- characters alone; no escape sequence begins there.
pub unescape : List ℕ → List ℕ
unescape [] = []
unescape (c ∷ cs) = unescape_at c (unescape cs)
