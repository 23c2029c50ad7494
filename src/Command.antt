-- ===== src/Command.antt =====
-- src/command.cpp, Command: the JSON text of one API command as it is put together, and src/request.cpp,
-- Request::get: the text of a request.
pub mod Arguments
pub mod Arrays
pub mod Numbers
pub mod Requests
mod Tests
use sdk.Prelude.{
  ℕ, zero, suc, ◌+◌, ◌-◌, ◌*◌, ◌/◌, ◌%◌, ◌^◌, List, [], ◌∷◌, ◌++◌, Bool, true, false, not, ◌&&◌,
  ◌||◌, Option, none, some, ltb, leb, ◌==◌, if◌then◌else◌, get_or, set, length,
}
use sdk.Base64.{btoa}
use sdk.Int.{ℤ, pos, negsuc, inc, dec}

-- `levels` are the eight flags, and `level` is an index of them, -1 before anything is opened.
pub record Command : Type 0 where
  pub canceled : Bool
  pub json : List ℕ
  pub level : ℤ
  pub levels : List ℕ
  pub persistent : Bool

-- Command::Command; `levels` starts out as whatever the memory holds.
pub new_command : List ℕ → Command
new_command levels = record {
  canceled = false;
  json = [];
  level = negsuc 0;
  levels = levels;
  persistent = false;
}

-- Command::cancel
pub cancel : Command → Command
cancel c = record c { canceled = true }

-- `json.append(s)`
pub appendraw : List ℕ → Command → Command
appendraw s c = record c { json = c.json ++ s }

-- `json.append("\"")`
abbrev pub quote : List ℕ
quote = b'"' ∷ []

-- Command::cmd
pub cmd : List ℕ → Command → Command
cmd name c = appendraw (b'"' ∷ b'a' ∷ b'"' ∷ b':' ∷ b'"' ∷ (name ++ quote)) c

-- Command::notself
pub notself : List ℕ → Command → Command
notself sessionid c = appendraw (b',' ∷ b'"' ∷ b'i' ∷ b'"' ∷ b':' ∷ b'"' ∷ (sessionid ++ quote)) c

-- `json[json.size() - 1]`, of a text that is not empty.
pub last_or : ℕ → List ℕ → ℕ
last_or d [] = d
last_or d (c ∷ cs) = last_or c cs

-- The test of `addcomma`: `strchr` also finds the NUL that ends the string.
pub needs_comma : List ℕ → Bool
needs_comma json =
    let l = last_or 0 json in not (length json == 0) && not (l == b'[' || l == b'{' || l == 0)

-- Command::addcomma
pub addcomma : Command → Command
addcomma c = if needs_comma c.json then appendraw (b',' ∷ []) c else c

-- Command::arg(const char*, const char*, int)
pub arg : List ℕ → List ℕ → Bool → Command → Command
arg name value quotes c =
    let opening = b'"' ∷ (name ++ (if quotes then b'"' ∷ b':' ∷ b'"' ∷ [] else b'"' ∷ b':' ∷ [])) in
    appendraw (opening ++ (value ++ (if quotes then quote else []))) (addcomma c)

-- Command::arg(const char*, const byte*, int)
pub arg_binary : List ℕ → List ℕ → Command → Command
arg_binary name value c = arg name (btoa value) true c

-- The digits that `sprintf` writes for a number, in front of `rest`.
pub digits_before : ℕ → ℕ → List ℕ → List ℕ
digits_before zero n rest = rest
digits_before (suc fuel) n rest =
    let d = (b'0' + n % 10) ∷ rest in
    let more = digits_before fuel (n / 10) d in if n / 10 == 0 then d else more

-- `%d` and PRId64
pub decimal : ℤ → List ℕ
decimal (pos n) = digits_before (suc n) n []
decimal (negsuc n) = b'-' ∷ digits_before (suc (suc n)) (suc n) []

-- Command::arg(const char*, m_off_t)
pub arg_number : List ℕ → ℤ → Command → Command
arg_number name n c = arg name (decimal n) false c

-- The place of a level in `levels`; a negative one lies outside.
abbrev pub slot : List ℕ → ℤ → ℕ
slot levels (pos n) = n
slot levels (negsuc n) = length levels

-- Command::openobject. At the ninth level it writes behind the array `levels`; here that write is lost.
pub openobject : Command → Command
openobject c =
    let top = inc c.level in record c { level = top; levels = set c.levels (slot c.levels top) 0 }

-- Command::closeobject
pub closeobject : Command → Command
closeobject c = record c { level = dec c.level }

-- Command::elements, on an open level: whether something is there already, and the level as used.
pub elements : Command → Bool × Command
elements c =
    if get_or c.levels (slot c.levels c.level) 0 == 0
    then (false, record c { levels = set c.levels (slot c.levels c.level) 1 })
    else (true, c)

-- Command::beginarray(), and with a name
pub beginarray : Command → Command
beginarray c = openobject (appendraw (b'[' ∷ []) (addcomma c))

pub beginarray_named : List ℕ → Command → Command
beginarray_named name c =
    openobject (appendraw (b'"' ∷ (name ++ (b'"' ∷ b':' ∷ b'[' ∷ []))) (addcomma c))

-- Command::endarray
pub endarray : Command → Command
endarray c = closeobject (appendraw (b']' ∷ []) c)

-- Command::beginobject
pub beginobject : Command → Command
beginobject c = appendraw (b'{' ∷ []) (addcomma c)

-- Command::endobject
pub endobject : Command → Command
endobject c = appendraw (b'}' ∷ []) c

-- Command::element(int)
pub element : ℤ → Command → Command
element n c =
    let (more, c') = elements c in appendraw ((if more then b',' ∷ [] else []) ++ decimal n) c'

-- Command::element(const byte*, int), and with the bytes of a handle Command::element(handle, int)
pub element_binary : List ℕ → Command → Command
element_binary value c =
    let (more, c') = elements c in
    appendraw ((if more then b',' ∷ b'"' ∷ [] else quote) ++ (btoa value ++ quote)) c'

-- Request::get, from the command with number `i` on.
pub request_from : Bool → List Command → List ℕ
request_from first [] = b']' ∷ []
request_from first (c ∷ cmds) =
    (if first then b'{' ∷ [] else b',' ∷ b'{' ∷ []) ++ (c.json ++ (b'}' ∷ request_from false cmds))

pub request : List Command → List ℕ
request cmds = b'[' ∷ request_from true cmds
