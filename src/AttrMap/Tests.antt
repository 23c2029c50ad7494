-- ===== src/AttrMap/Tests.antt =====
-- attrmap.cpp: concrete runs, and the theorems at concrete inputs.
use sdk.Prelude.{◌≡◌, refl, arith, [], ◌∷◌, ◌++◌, true, some}
use sdk.Json.{storeobject, skip_number}
use sdk.Json.Unescape.{unescape}
use sdk.Json.Values.{quoted}
use sdk.AttrMap.{
  Attrs, nameid2string, escape_value, serialize, unserialize, getjson, getjson_from, name_loop,
  escape_char,
}
use sdk.AttrMap.Names.{pack}
use sdk.AttrMap.Binary.{unserialize-serialize_map}
use sdk.AttrMap.Escaping.{value_survives}

-- `n` = `ab"`
abbrev named : Attrs
named = (b'n', b'a' ∷ b'b' ∷ b'"' ∷ []) ∷ []

named_json : getjson named ≡ b'"' ∷ b'n' ∷ b'"' ∷ b':' ∷ b'"' ∷ b'a' ∷ b'b' ∷ 92 ∷ b'"' ∷ b'"' ∷ []
unfolding getjson getjson_from nameid2string name_loop escape_value escape_char
named_json = refl

-- An entry with the name 0 leaves a lone quote behind.
nameless_json : getjson ((0, b'a' ∷ []) ∷ []) ≡ b'"' ∷ []
unfolding getjson getjson_from
nameless_json = refl

unserialize-serialize_map_example :
    unserialize [] (serialize named ++ b'x' ∷ []) ≡ some (named, b'x' ∷ [])
unserialize-serialize_map_example = unserialize-serialize_map named (b'x' ∷ []) (
  omega arith,
  (b'n' ∷ [], (unfold pack in refl), (omega arith, tt), omega arith, omega arith, omega arith),
  tt,
)

value_survives_example :
    (storeobject (quoted (escape_value (10 ∷ b'"' ∷ [])) (b'}' ∷ []))
      ≡ ((true, escape_value (10 ∷ b'"' ∷ [])), b'}' ∷ []))
    × (unescape (escape_value (10 ∷ b'"' ∷ [])) ≡ 10 ∷ b'"' ∷ [])
unfolding skip_number
value_survives_example = value_survives (10 ∷ b'"' ∷ []) (b'}' ∷ []) (omega arith) refl
