-- ===== src/Command/Requests.antt =====
-- request.cpp: a request is the JSON array of its commands' objects.
use sdk.Prelude.{ℕ, ◌≡◌, ◌∙◌, refl, ap, List, [], ◌∷◌, ◌++◌, true, false}
use sdk.Json.{storeobject, skip_space, skip_number}
use sdk.Json.Values.{
  Value, Elements, elements_end, element, array, print, print_elements, IsValid, AreValid,
}
use sdk.Json.Values.Exact.{storeobject-value}
use sdk.Command.{Command, request_from, request}

-- The text of a command, in braces, is that of a value.
abbrev pub IsObject : Command → Value → Type 0
IsObject c v = (rest : List ℕ) → b'{' ∷ (c.json ++ (b'}' ∷ rest)) ≡ print v rest

abbrev pub AreObjects : List Command → Elements → Type 0
AreObjects [] elements_end = Unit {0}
AreObjects [] (element v vs) = ⊥
AreObjects (c ∷ cmds) elements_end = ⊥
AreObjects (c ∷ cmds) (element v vs) = IsObject c v × AreObjects cmds vs

request_rest :
    (cmds : List Command) (vs : Elements)
    → AreObjects cmds vs
    → request_from false cmds ≡ print_elements vs []
unfolding request_from print
request_rest [] elements_end h = refl
request_rest [] (element v vs) h = absurd h
request_rest (c ∷ cmds) elements_end h = absurd h
request_rest (c ∷ cmds) (element v vs) h =
    ap (λ t. b',' ∷ b'{' ∷ (c.json ++ (b'}' ∷ t))) (request_rest cmds vs h.1)
    ∙ ap (◌∷◌ b',') (h.0 (print_elements vs []))

-- The text of a request with at least one command is the JSON array of the objects whose members the
-- commands are, in their order, and a single `storeobject` takes all of it.
pub request-print :
    (c : Command) (cmds : List Command) (v : Value) (vs : Elements)
    → IsObject c v
    → AreObjects cmds vs
    → IsValid v
    → AreValid vs
    → (request (c ∷ cmds) ≡ print (array v vs) [])
      × (storeobject (request (c ∷ cmds)) ≡ ((true, request (c ∷ cmds)), []))
unfolding request request_from print skip_space skip_number
request-print c cmds v vs h hs k ks =
    let text : request (c ∷ cmds) ≡ print (array v vs) [] =
      ap (λ t. b'[' ∷ b'{' ∷ (c.json ++ (b'}' ∷ t))) (request_rest cmds vs hs)
      ∙ ap (◌∷◌ b'[') (h (print_elements vs [])) in
    (text, rw text (storeobject-value (array v vs) (print (array v vs) []) [] (k, ks) refl refl))
