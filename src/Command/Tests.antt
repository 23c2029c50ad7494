-- ===== src/Command/Tests.antt =====
-- command.cpp and request.cpp: concrete runs, and the theorems at concrete inputs.
use sdk.Prelude.{◌≡◌, refl, arith, [], ◌∷◌, ◌++◌, true, replicate, set}
use sdk.Base64.{btoa}
use sdk.Int.{negsuc}
use sdk.Json.{storeobject, skip_number}
use sdk.Json.Read.{getnameid, nameid_of, storebinary}
use sdk.Json.Values.{Value, str, quoted, print, array, element, elements_end, object, members_end}
use sdk.Command.{
  Command, new_command, cmd, arg_binary, addcomma, appendraw, decimal, digits_before, request,
}
use sdk.Command.Arguments.{argument, arg_binary-read}
use sdk.Command.Arrays.{binary_array, value_of, binary_array-print}
use sdk.Command.Requests.{request-print}

-- `"a":"g"`
abbrev started : Command
started = cmd (b'g' ∷ []) (new_command (replicate 8 0))

decimal_run : decimal (negsuc 41) ≡ b'-' ∷ b'4' ∷ b'2' ∷ []
unfolding decimal digits_before
decimal_run = refl

arg_binary-read_example :
    ((arg_binary (b'k' ∷ []) (200 ∷ 0 ∷ []) started).json
      ≡ (addcomma started).json ++ argument (b'k' ∷ []) (btoa (200 ∷ 0 ∷ [])) [])
    × (getnameid (argument (b'k' ∷ []) (btoa (200 ∷ 0 ∷ [])) (b'}' ∷ []))
        ≡ (nameid_of (b'k' ∷ []), quoted (btoa (200 ∷ 0 ∷ [])) (b'}' ∷ [])))
    × (storebinary 16 (quoted (btoa (200 ∷ 0 ∷ [])) (b'}' ∷ [])) ≡ (200 ∷ 0 ∷ [], b'}' ∷ []))
unfolding skip_number
arg_binary-read_example =
    arg_binary-read (b'k' ∷ []) (200 ∷ 0 ∷ []) (b'}' ∷ []) started 16 (refl, tt) (omega arith) refl

binary_array-print_example :
    ((binary_array ((1 ∷ []) ∷ (2 ∷ []) ∷ []) started).json
      ≡ (addcomma started).json ++ print (value_of ((1 ∷ []) ∷ (2 ∷ []) ∷ [])) [])
    × ((binary_array ((1 ∷ []) ∷ (2 ∷ []) ∷ []) started).level ≡ started.level)
    × ((binary_array ((1 ∷ []) ∷ (2 ∷ []) ∷ []) started).levels ≡ set started.levels 0 1)
unfolding cmd new_command appendraw
binary_array-print_example =
    binary_array-print ((1 ∷ []) ∷ (2 ∷ []) ∷ []) started 0 refl (omega arith)

-- `{"a":"g"}`
abbrev started_value : Value
started_value = object (b'a' ∷ []) (str (b'g' ∷ [])) members_end

request-print_example :
    (request (started ∷ started ∷ [])
      ≡ print (array started_value (element started_value elements_end)) [])
    × (storeobject (request (started ∷ started ∷ []))
        ≡ ((true, request (started ∷ started ∷ [])), []))
unfolding cmd new_command appendraw print
request-print_example =
    request-print started (started ∷ []) started_value (element started_value elements_end)
      (λ rest. refl) ((λ rest. refl), tt) (refl, refl, tt) ((refl, refl, tt), tt)
