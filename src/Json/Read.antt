-- ===== src/Json/Read.antt =====
-- src/json.cpp, JSON: the operations that read one name, number, string or bracket.
pub mod Members
use sdk.Prelude.{
  ℕ, zero, suc, ◌+◌, ◌-◌, ◌*◌, ◌/◌, ◌%◌, ◌^◌, List, [], ◌∷◌, Bool, true, false, not, ◌&&◌, ◌||◌,
  Option, none, some, ltb, leb, ◌==◌, if◌then◌else◌, between, peek, next, length, take, drop,
  get_or, u64,
}
use sdk.Int.{ℤ, pos, neg}
use sdk.Base64.{atob}
use sdk.Json.{is_digit, skip_comma, skip_separator, storeobject}

-- JSON::isnumeric
pub isnumeric : List ℕ → Bool × List ℕ
isnumeric p =
    let start = skip_comma p in
    let ptr = if peek start == b'-' then next start else start in (is_digit (peek ptr), start)

-- `id = (id << 8) + *ptr++`, where a `char` is signed.
unfoldable pub push_char : ℕ → ℕ → ℕ
push_char id c = u64 (u64 (id * 2 ^ 8) + (if ltb c 128 then c else c + 2 ^ 64 - 256))

-- `while (*ptr && *ptr != '"') ...`: the identifier and the pointer to what ended the loop.
unfoldable pub read_name : ℕ → List ℕ → ℕ × List ℕ
read_name id [] = (id, [])
read_name id (c ∷ cs) =
    let rest = read_name (push_char id c) cs in if c == 0 || c == b'"' then (id, c ∷ cs) else rest

-- JSON::getnameid(const char*); EOO is 0.
unfoldable pub nameid_of : List ℕ → ℕ
nameid_of ptr = (read_name 0 ptr).0

-- JSON::getnameid(). Behind the closing quote it skips one more character, the colon.
unfoldable pub getnameid : List ℕ → ℕ × List ℕ
getnameid p =
    let ptr = skip_separator p in
    let (id, q) = read_name 0 (next ptr) in if peek ptr == b'"' then (id, next (next q)) else (0, p)

-- `!memcmp(p, value, strlen(value))`
pub starts_with : List ℕ → List ℕ → Bool
starts_with [] p = true
starts_with (c ∷ cs) p = peek p == c && starts_with cs (next p)

-- JSON::is
pub is : List ℕ → List ℕ → Bool × List ℕ
is value p =
    let start = skip_comma p in
    let t = length value in
    if not (peek start == b'"')
    then (false, start)
    else if not (starts_with value (next start)) || not (peek (drop (t + 1) start) == b'"')
    then (false, start)
    else (true, drop (t + 2) start)

-- JSON::storebinary(byte*, int): what it writes to the buffer, whose number is returned.
unfoldable pub storebinary : ℕ → List ℕ → List ℕ × List ℕ
storebinary dstlen p =
    let start = skip_comma p in
    if peek start == b'"' then (atob (next start) dstlen, (storeobject start).1) else ([], start)

-- `strchr(p, '"') - p`, if there is a quote.
pub quote_distance : List ℕ → Option ℕ
quote_distance [] = none
quote_distance (c ∷ cs) =
    let rest = quote_distance cs in
    if c == b'"'
    then some 0
    else if c == 0
    then none
    else elim rest [ none ↦ none | some n ↦ some (suc n) ]

-- JSON::storebinary(string*): success and the string, `none` if it is left alone.
pub storebinary_string : List ℕ → (Bool × Option (List ℕ)) × List ℕ
storebinary_string p =
    let start = skip_comma p in
    if peek start == b'"'
    then elim (quote_distance (next start)) [
      | none ↦ ((false, none), start)
      | some n ↦ ((true, some (atob (next start) (n / 4 * 3 + 3))), (storeobject start).1)
    ]
    else ((true, none), start)

-- The loop of `ishandle`: are the first `n` characters there?
pub has_chars : ℕ → List ℕ → Bool
has_chars zero p = true
has_chars (suc n) p = not (peek p == 0) && has_chars n (next p)

-- JSON::ishandle
pub ishandle : ℕ → List ℕ → Bool × List ℕ
ishandle size p =
    let chars = if size == 6 then 8 else 11 in
    let start = skip_comma p in
    if peek start == b'"'
    then (has_chars (chars + 1) start && peek (drop (chars + 1) start) == b'"', start)
    else (false, start)

-- The number that up to eight bytes of a zeroed buffer stand for on a little-endian machine.
pub little_endian : ℕ → List ℕ → ℕ
little_endian zero b = 0
little_endian (suc n) b = peek b + 2 ^ 8 * little_endian n (next b)

-- JSON::gethandle; UNDEF is ~0.
abbrev pub undef : ℕ
undef = 0xffff_ffff_ffff_ffff

pub gethandle : ℕ → List ℕ → ℕ × List ℕ
gethandle size p =
    let (buf, q) = storebinary 9 p in (if length buf == size then little_endian 8 buf else undef, q)

-- The digits that `atoll` reads.
unfoldable pub read_digits : ℕ → List ℕ → ℕ
read_digits n [] = n
read_digits n (c ∷ cs) =
    let rest = read_digits (n * 10 + (c - b'0')) cs in if is_digit c then rest else n

-- `atoll` at a digit or a minus sign, for numbers in the range of `long long`.
unfoldable pub atoll : List ℕ → ℤ
atoll p = if peek p == b'-' then neg (read_digits 0 (next p)) else pos (read_digits 0 p)

-- JSON::getint; -1 also says that no number was there.
unfoldable pub getint : List ℕ → ℤ × List ℕ
getint p =
    let start = skip_separator p in
    let ptr = if peek start == b'"' then next start else start in
    if not (is_digit (peek ptr)) && not (peek ptr == b'-')
    then (neg 1, start)
    else (atoll ptr, (storeobject start).1)

-- JSON::getvalue: the pointer to the value, and the new `pos`.
pub getvalue : List ℕ → List ℕ × List ℕ
getvalue p =
    let start = skip_separator p in
    (if peek start == b'"' then next start else start, (storeobject start).1)

-- JSON::enterarray
pub enterarray : List ℕ → Bool × List ℕ
enterarray p =
    let start = skip_comma p in if peek start == b'[' then (true, next start) else (false, start)

-- JSON::leavearray
pub leavearray : List ℕ → Bool × List ℕ
leavearray p = if peek p == b']' then (true, next p) else (false, p)

-- JSON::enterobject
pub enterobject : List ℕ → Bool × List ℕ
enterobject p =
    let start = skip_comma (if peek p == b'}' then next p else p) in
    if peek start == b'{' then (true, next start) else (false, start)

-- The characters at which `leaveobject` takes a value to begin.
abbrev pub begins_value : ℕ → Bool
begins_value c = c == b'"' || is_digit c || c == b'-' || c == b'[' || c == b'{'

-- The loop of JSON::leaveobject; `none` says that the fuel ran out.
pub skip_members : ℕ → List ℕ → Option (List ℕ)
skip_members zero p = none
skip_members (suc fuel) p =
    let after_separator = skip_members fuel (next p) in
    let after_value = skip_members fuel (storeobject p).1 in
    if peek p == b':' || peek p == b','
    then after_separator
    else if begins_value (peek p)
    then after_value
    else some p

-- JSON::leaveobject, with fuel for the loop.
pub leaveobject : ℕ → List ℕ → Option (Bool × List ℕ)
leaveobject fuel p = elim (skip_members fuel p) [
  | none ↦ none
  | some q ↦ some (if peek q == b'}' then (true, next q) else (false, q))
]
