-- ===== src/Command/Arguments.antt =====
-- command.cpp: what JSON reads back from the arguments of a command.
use sdk.Prelude.{
  ℕ, ◌≡◌, ◌<◌, refl, arith, List, [], ◌∷◌, ◌++◌, true, false, ◌||◌, ◌==◌, All, IsByte, take,
}
use mathlib.Core.List.{append_assoc}
use sdk.Base64.{btoa, from64}
use sdk.Base64.RoundTrip.{atob-btoa}
use sdk.Base64.Bounds.{btoa-alphabet}
use sdk.Json.{storeobject, skip_number, skip_space, value_start}
use sdk.Json.Read.{push_char, read_name, nameid_of, getnameid, storebinary}
use sdk.Json.Values.{quoted, print, str, is_body}
use sdk.Json.Values.Exact.{storeobject-value}
use sdk.Command.{Command, appendraw, addcomma, arg, arg_binary}

-- A name as it stands in the text: no NUL and no quote.
abbrev pub IsName : List ℕ → Type 0
IsName = All (λ c. (c == 0 || c == b'"') ≡ false)

-- The text of an argument.
abbrev pub argument : List ℕ → List ℕ → List ℕ → List ℕ
argument name value rest = quoted name (b':' ∷ quoted value rest)

read_name-quote :
    (name : List ℕ) (id : ℕ) (rest : List ℕ)
    → IsName name
    → read_name id (name ++ (b'"' ∷ rest)) ≡ ((read_name id name).0, b'"' ∷ rest)
unfolding read_name
read_name-quote [] id rest h = refl
read_name-quote (c ∷ cs) id rest h = rw h.0 (read_name-quote cs (push_char id c) rest h.1)

getnameid-argument :
    (name rest : List ℕ)
    → IsName name
    → getnameid (quoted name (b':' ∷ rest)) ≡ (nameid_of name, rest)
unfolding getnameid nameid_of
getnameid-argument name rest h = rw (read_name-quote name 0 (b':' ∷ rest) h) refl

arg_text :
    (name value : List ℕ) (c : Command)
    → (arg name value true c).json ≡ (addcomma c).json ++ argument name value []
unfolding arg appendraw
arg_text name value c = simp append_assoc

start_quoted : (s rest : List ℕ) → value_start (quoted s rest) ≡ quoted s rest
unfolding skip_space
start_quoted s rest = refl

-- `arg` writes an argument whose name is read back by `getnameid` as the number of that name, and whose
-- value is then read back by `storeobject`, each leaving `pos` behind what it read. Conditions: no NUL
-- and no quote in the name, and no NUL and no bare quote in the value, which is not escaped.
pub arg-read :
    (name value rest : List ℕ) (c : Command)
    → IsName name
    → is_body false value ≡ true
    → skip_number rest ≡ rest
    → ((arg name value true c).json ≡ (addcomma c).json ++ argument name value [])
      × (getnameid (argument name value rest) ≡ (nameid_of name, quoted value rest))
      × (storeobject (quoted value rest) ≡ ((true, value), rest))
unfolding print
arg-read name value rest c h body stop = (
  arg_text name value c,
  getnameid-argument name (quoted value rest) h,
  storeobject-value (str value) (quoted value rest) rest body (start_quoted value rest) stop,
)

starts_quoted :
    (s rest : List ℕ) → All (λ c. (from64 c < 64) × (c < 128)) s → is_body false s ≡ true
unfolding from64
starts_quoted [] rest h = refl
starts_quoted (c ∷ cs) rest h = ground (arith, starts_quoted cs rest h.1)

-- `arg` for binary data writes an argument from which `getnameid` reads the name and `storebinary` the
-- data, cut off at the length of its buffer, whatever bytes are in it. Conditions: the name holds neither NUL nor a
-- quote, which `arg` does not escape, and what follows the argument does not start with a digit or another character
-- of a number.
pub arg_binary-read :
    (name value rest : List ℕ) (c : Command) (dstlen : ℕ)
    → IsName name
    → All IsByte value
    → skip_number rest ≡ rest
    → ((arg_binary name value c).json ≡ (addcomma c).json ++ argument name (btoa value) [])
      × (getnameid (argument name (btoa value) rest) ≡ (nameid_of name, quoted (btoa value) rest))
      × (storebinary dstlen (quoted (btoa value) rest) ≡ (take dstlen value, rest))
unfolding arg_binary storebinary
arg_binary-read name value rest c dstlen h bytes stop =
    let body = starts_quoted (btoa value) rest (btoa-alphabet value) in
    let (text, named, stored) = arg-read name (btoa value) rest c h body stop in
    (
      text,
      named,
      rw (atob-btoa value (b'"' ∷ rest) dstlen bytes (unfold from64 in refl), stored) refl,
    )
