-- ===== src/Json.antt =====
-- src/json.cpp, JSON: a linear, non-strict scanner. The only state is `pos`, a pointer into a
-- NUL-terminated text; each operation takes it and returns it with its result.
pub mod Values
pub mod Read
pub mod Unescape
mod Tests
use sdk.Prelude.{
  ℕ, zero, suc, ◌+◌, ◌-◌, ◌*◌, ◌/◌, ◌^◌, List, [], ◌∷◌, Bool, true, false, not, ◌&&◌, ◌||◌, Option,
  none, some, ltb, leb, ◌==◌, if◌then◌else◌, between, peek, next, length, take, drop, get_or, u64,
}
use sdk.Int.{ℤ, pos, negsuc, inc, dec, is_zero, neg}
use sdk.Base64.{atob}

abbrev pub is_digit : ℕ → Bool
is_digit c = between b'0' b'9' c

-- `if (*pos == ',') pos++;`
abbrev pub skip_comma : List ℕ → List ℕ
skip_comma p = if peek p == b',' then next p else p

-- `if (*pos == ':' || *pos == ',') pos++;`
abbrev pub skip_separator : List ℕ → List ℕ
skip_separator p = if peek p == b':' || peek p == b',' then next p else p

-- `while (*pos > 0 && *pos <= ' ') pos++;`
unfoldable pub skip_space : List ℕ → List ℕ
skip_space [] = []
skip_space (c ∷ cs) = if ltb 0 c && leb c b' ' then skip_space cs else c ∷ cs

-- To the closing quote of a string, or `none` at the end of the text.
pub skip_string : Bool → List ℕ → Option (List ℕ)
skip_string escaped [] = none
skip_string escaped (c ∷ cs) =
    if c == 0
    then none
    else if escaped || not (c == b'"')
    then skip_string (c == 92 && not escaped) cs
    else some (c ∷ cs)

-- `while ((*ptr >= '0' && *ptr <= '9') || *ptr == '.' || *ptr == 'e' || *ptr == 'E') ptr++;`
unfoldable pub skip_number : List ℕ → List ℕ
skip_number [] = []
skip_number (c ∷ cs) =
    if is_digit c || c == b'.' || c == b'e' || c == b'E' then skip_number cs else c ∷ cs

-- One round of the loop in `storeobject`: the pointer behind the token and the numbers of open objects
-- and open arrays. `escaped` is false whenever a string begins.
pub scan_token : List ℕ → ℤ → ℤ → Option (List ℕ × ℤ × ℤ)
scan_token p objects arrays =
    let c = peek p in
    if c == b'['
    then some (next p, objects, inc arrays)
    else if c == b'{'
    then some (next p, inc objects, arrays)
    else if c == b']'
    then some (next p, objects, dec arrays)
    else if c == b'}'
    then some (next p, dec objects, arrays)
    else if c == b'"'
    then elim (skip_string false (next p)) [ none ↦ none | some q ↦ some (next q, objects, arrays) ]
    else if is_digit c || c == b'-' || c == b'.'
    then some (skip_number (next p), objects, arrays)
    else if c == b':' || c == b','
    then some (next p, objects, arrays)
    else none

-- How a loop over the text ends. `stuck` is no result of the program: the fuel ran out.
pub data ScanResult : Type 0 where
  refused stuck : ScanResult
  accepted : List ℕ → ScanResult

-- The loop of `storeobject`; it ends where nothing is open.
pub scan : ℕ → List ℕ → ℤ → ℤ → ScanResult
scan zero p objects arrays = stuck
scan (suc fuel) p objects arrays = elim (scan_token p objects arrays) [
  | none ↦ refused
  | some (q, o, a) ↦
      let rest = scan fuel q o a in if is_zero o && is_zero a then accepted q else rest
]

-- The text from `p` up to `q`, and without its quotes if it is a string.
abbrev pub text_between : List ℕ → List ℕ → List ℕ
text_between p q =
    if peek p == b'"' then take (length p - length q - 2) (next p) else take (length p - length q) p

-- Where `storeobject` starts to scan: behind white space and one comma.
abbrev pub value_start : List ℕ → List ℕ
value_start p = skip_comma (skip_space p)

pub store_scanned : List ℕ → ScanResult → (Bool × List ℕ) × List ℕ
store_scanned p (accepted q) = ((true, text_between p q), q)
store_scanned p refused = ((false, []), p)
store_scanned p stuck = ((false, []), p)

-- JSON::storeobject: success and the text that it stores, and the new `pos`.
pub storeobject : List ℕ → (Bool × List ℕ) × List ℕ
storeobject p =
    let start = value_start p in
    store_scanned start (scan (suc (length start)) start (pos 0) (pos 0))
