-- ===== src/Json/Tests.antt =====
-- json.cpp: concrete runs, and the theorems at concrete inputs.
use sdk.Prelude.{ℕ, ◌≡◌, ◌≢◌, refl, arith, List, [], ◌∷◌, true, none, some}
use sdk.Int.{pos}
use sdk.Json.{
  scan, stuck, storeobject, store_scanned, scan_token, skip_space, skip_string, skip_number,
}
use sdk.Json.Read.{leaveobject, getnameid, read_name, push_char}
use sdk.Json.Values.{
  Value, Members, str, num, array, elements_end, element, members_end, member, object, print,
  print_members,
}
use sdk.Json.Values.Exact.{stored, storeobject-value}
use sdk.Json.Values.Ends.{scan-ne-stuck}
use sdk.Json.Read.Members.{leaveobject-members, leaveobject_diverges}

-- `["a",{"b":1}]`
abbrev nested : Value
nested =
    array (str (b'a' ∷ [])) (element (object (b'b' ∷ []) (num b'1' []) members_end) elements_end)

-- `,"c":"d"}`
abbrev one_member : Members
one_member = member (b'c' ∷ []) (str (b'd' ∷ [])) members_end

-- `"a` with no closing quote
abbrev unclosed : List ℕ
unclosed = b'"' ∷ b'a' ∷ []

name_read : getnameid (b',' ∷ b'"' ∷ b'a' ∷ b'"' ∷ b':' ∷ b'1' ∷ []) ≡ (97, b'1' ∷ [])
unfolding getnameid read_name push_char
name_read = refl

storeobject-value_example :
    storeobject (b',' ∷ print nested (b',' ∷ [])) ≡ ((true, stored nested), b',' ∷ [])
unfolding print skip_space skip_number
storeobject-value_example =
    storeobject-value nested (b',' ∷ print nested (b',' ∷ [])) (b',' ∷ [])
      (refl, ((refl, (refl, tt), tt), tt)) refl refl

scan-ne-stuck_example : scan 3 unclosed (pos 0) (pos 0) ≢ stuck
scan-ne-stuck_example = scan-ne-stuck 3 unclosed (pos 0) (pos 0) (omega arith)

leaveobject-members_example :
    leaveobject 5 (print_members one_member (b',' ∷ [])) ≡ some (true, b',' ∷ [])
leaveobject-members_example = leaveobject-members one_member 0 (b',' ∷ []) (refl, refl, tt) (tt, tt)

leaveobject_diverges_example : leaveobject 100 unclosed ≡ none
unfolding storeobject store_scanned scan scan_token skip_space skip_string
leaveobject_diverges_example = leaveobject_diverges unclosed 100 refl refl
