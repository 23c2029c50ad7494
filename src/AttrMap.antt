-- ===== src/AttrMap.antt =====
-- src/attrmap.cpp, AttrMap: the attributes of a node, as a binary record and as JSON. The map is the
-- list of its entries in ascending order of the numeric names, which is the order of `std::map`.
pub mod Names
pub mod Binary
pub mod Escaping
mod Tests
use sdk.Prelude.{
  ℕ, zero, suc, ◌+◌, ◌-◌, ◌*◌, ◌/◌, ◌%◌, ◌^◌, List, [], ◌∷◌, ◌++◌, Bool, true, false, ◌&&◌, ◌||◌,
  Option, none, some, ltb, ◌==◌, if◌then◌else◌, peek, next, take, drop, length, u8, u16, u64,
}
use sdk.Hex.{hex_digit}

abbrev pub Attrs : Type 0
Attrs = List (ℕ × List ℕ)

-- The loop of AttrMap::nameid2string, with `left` of its eight bytes left.
pub name_loop : ℕ → ℕ → List ℕ
name_loop zero id = []
name_loop (suc left) id =
    let c = id / 2 ^ (8 * left) % 2 ^ 8 in
    let rest = name_loop left id in if c == 0 then rest else c ∷ rest

-- AttrMap::nameid2string: the characters that it writes, whose number it returns.
pub nameid2string : ℕ → List ℕ
nameid2string id = name_loop 8 id

-- AttrMap::storagesize
pub storagesize : ℕ → Attrs → ℕ
storagesize perrecord [] = 0
storagesize perrecord ((id, value) ∷ m) = perrecord + length value + storagesize perrecord m

-- The two bytes of a `short`, and the value of two bytes.
abbrev pub short_bytes : ℕ → List ℕ
short_bytes n = n % 2 ^ 8 ∷ n / 2 ^ 8 % 2 ^ 8 ∷ []

abbrev pub get_short : List ℕ → ℕ
get_short p = peek p + 2 ^ 8 * peek (next p)

-- One entry of AttrMap::serialize; an entry with no name is left out, and of a value the length is
-- stored modulo 2 ^ 16 and so many bytes.
pub serialize_entry : ℕ → List ℕ → List ℕ
serialize_entry id value =
    let name = nameid2string id in
    let ll = u16 (length value) in
    if length name == 0 then [] else u8 (length name) ∷ (name ++ (short_bytes ll ++ take ll value))

-- AttrMap::serialize: what it appends.
pub serialize : Attrs → List ℕ
serialize [] = 0 ∷ []
serialize ((id, value) ∷ m) = serialize_entry id value ++ serialize m

-- `map[id].assign(...)`
pub assign : ℕ → List ℕ → Attrs → Attrs
assign id value [] = (id, value) ∷ []
assign id value ((i, v) ∷ m) =
    if id == i
    then (id, value) ∷ m
    else if ltb id i
    then (id, value) ∷ (i, v) ∷ m
    else (i, v) ∷ assign id value m

-- `while (l--) id = (id << 8) + (unsigned char)*ptr++;`
pub read_id : ℕ → ℕ → List ℕ → ℕ × List ℕ
read_id zero id p = (id, p)
read_id (suc l) id p = read_id l (u64 (u64 (id * 2 ^ 8) + peek p)) (next p)

-- The loop of AttrMap::unserialize: the map, and the pointer behind the record; `none` says that the
-- fuel ran out.
pub unserialize_loop : ℕ → Attrs → List ℕ → Option (Attrs × List ℕ)
unserialize_loop zero m p = none
unserialize_loop (suc fuel) m p =
    let l = peek p in
    let (id, q) = read_id l 0 (next p) in
    let ll = get_short q in
    let value = next (next q) in
    let rest = unserialize_loop fuel (assign id (take ll value) m) (drop ll value) in
    if l == 0 then some (m, next p) else rest

-- AttrMap::unserialize. Every entry takes bytes, so a round for each byte is enough.
pub unserialize : Attrs → List ℕ → Option (Attrs × List ℕ)
unserialize m p = unserialize_loop (suc (length p)) m p

-- A character of a value in AttrMap::getjson.
pub escape_char : ℕ → List ℕ
escape_char c =
    if ltb c b' ' || c == b'"' || c == 92
    then 92
      ∷ (if c == b'"'
          then b'"' ∷ []
          else if c == 92
          then 92 ∷ []
          else if c == 10
          then b'n' ∷ []
          else if c == 13
          then b'r' ∷ []
          else if c == 8
          then b'b' ∷ []
          else if c == 12
          then b'f' ∷ []
          else if c == 9
          then b't' ∷ []
          else b'u' ∷ b'0' ∷ b'0' ∷ hex_digit (c / 16) ∷ hex_digit (c % 16) ∷ [])
    else c ∷ []

pub escape_value : List ℕ → List ℕ
escape_value [] = []
escape_value (c ∷ cs) = escape_char c ++ escape_value cs

-- AttrMap::getjson from one entry on; `first` says that nothing was written yet.
pub getjson_from : Bool → Attrs → List ℕ
getjson_from first [] = []
getjson_from first ((id, value) ∷ m) =
    (if first then b'"' ∷ [] else b',' ∷ b'"' ∷ [])
    ++ ((if id == 0
          then []
          else nameid2string id ++ (b'"' ∷ b':' ∷ b'"' ∷ (escape_value value ++ (b'"' ∷ []))))
        ++ getjson_from false m)

pub getjson : Attrs → List ℕ
getjson m = getjson_from true m
