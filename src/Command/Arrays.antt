-- ===== src/Command/Arrays.antt =====
-- command.cpp: an array of binary elements, as ShareNodeKeys::get puts it together, is a JSON value.
use sdk.Prelude.{
  ℕ, zero, suc, ◌≡◌, ◌<◌, ◌∙◌, refl, sym, ap, arith, List, [], ◌∷◌, ◌++◌, Bool, length, get_or, set,
  Bool-cases, inl, inr,
}
use mathlib.Core.List.{append_assoc}
use sdk.Base64.{btoa}
use sdk.Int.{pos, inc, dec, dec-inc}
use sdk.Json.Values.{
  Value, Elements, elements_end, element, array, empty_array, str, print, print_elements,
}
use sdk.Command.{
  Command, appendraw, addcomma, openobject, closeobject, needs_comma, beginarray, endarray,
  elements, element_binary, quote,
}

-- The loop over the elements.
pub add_elements : List (List ℕ) → Command → Command
add_elements [] c = c
add_elements (x ∷ xs) c = add_elements xs (element_binary x c)

pub binary_array : List (List ℕ) → Command → Command
binary_array xs c = endarray (add_elements xs (beginarray c))

-- The JSON value that the elements stand for.
abbrev pub rest_of : List (List ℕ) → Elements
rest_of [] = elements_end
rest_of (x ∷ xs) = element (str (btoa x)) (rest_of xs)

abbrev pub value_of : List (List ℕ) → Value
value_of [] = empty_array
value_of (x ∷ xs) = array (str (btoa x)) (rest_of xs)

get_or-set : (xs : List ℕ) (i v d : ℕ) → i < length xs → get_or (set xs i v) i d ≡ v
get_or-set [] i v d h = absurd (omega arith)
get_or-set (x ∷ xs) zero v d h = refl
get_or-set (x ∷ xs) (suc i) v d h = get_or-set xs i v d (omega arith)

length-set : (xs : List ℕ) (i v : ℕ) → length (set xs i v) ≡ length xs
length-set [] i v = refl
length-set (x ∷ xs) zero v = refl
length-set (x ∷ xs) (suc i) v = ap suc (length-set xs i v)

set-set : (xs : List ℕ) (i v w : ℕ) → set (set xs i v) i w ≡ set xs i w
set-set [] i v w = refl
set-set (x ∷ xs) zero v w = refl
set-set (x ∷ xs) (suc i) v w = ap (◌∷◌ x) (set-set xs i v w)

set-get_or : (xs : List ℕ) (i d : ℕ) → set xs i (get_or xs i d) ≡ xs
set-get_or [] i d = refl
set-get_or (x ∷ xs) zero d = refl
set-get_or (x ∷ xs) (suc i) d = ap (◌∷◌ x) (set-get_or xs i d)

-- An element behind another one.
element-next :
    (x json levels : List ℕ) (canceled persistent : Bool) (k : ℕ)
    → get_or levels k 0 ≡ 1
    → element_binary x (record {
      canceled = canceled;
      json = json;
      level = pos k;
      levels = levels;
      persistent = persistent;
    })
      ≡ record {
        canceled = canceled;
        json = json ++ (b',' ∷ b'"' ∷ (btoa x ++ quote));
        level = pos k;
        levels = levels;
        persistent = persistent;
      }
unfolding element_binary elements appendraw
element-next x json levels canceled persistent k h = rw h refl

-- The first element of a level.
element-first :
    (x json levels : List ℕ) (canceled persistent : Bool) (k : ℕ)
    → get_or levels k 0 ≡ 0
    → element_binary x (record {
      canceled = canceled;
      json = json;
      level = pos k;
      levels = levels;
      persistent = persistent;
    })
      ≡ record {
        canceled = canceled;
        json = json ++ (b'"' ∷ (btoa x ++ quote));
        level = pos k;
        levels = set levels k 1;
        persistent = persistent;
      }
unfolding element_binary elements appendraw
element-first x json levels canceled persistent k h = rw h refl

close_text :
    (json levels : List ℕ) (canceled persistent : Bool) (k : ℕ)
    → endarray (record {
      canceled = canceled;
      json = json;
      level = pos k;
      levels = levels;
      persistent = persistent;
    })
      ≡ record {
        canceled = canceled;
        json = json ++ b']' ∷ [];
        level = dec (pos k);
        levels = levels;
        persistent = persistent;
      }
unfolding endarray closeobject appendraw
close_text json levels canceled persistent k = refl

elements_text :
    (xs : List (List ℕ)) (json levels : List ℕ) (canceled persistent : Bool) (k : ℕ)
    → get_or levels k 0 ≡ 1
    → endarray (
        add_elements xs (record {
          canceled = canceled;
          json = json;
          level = pos k;
          levels = levels;
          persistent = persistent;
        }))
      ≡ record {
        canceled = canceled;
        json = json ++ print_elements (rest_of xs) [];
        level = dec (pos k);
        levels = levels;
        persistent = persistent;
      }
unfolding add_elements print
elements_text [] json levels canceled persistent k h = close_text json levels canceled persistent k
elements_text (x ∷ xs) json levels canceled persistent k h =
    ap (λ c. endarray (add_elements xs c)) (element-next x json levels canceled persistent k h)
    ∙ elements_text xs (json ++ (b',' ∷ b'"' ∷ (btoa x ++ quote))) levels canceled persistent k h
    ∙ simp append_assoc

addcomma_lem : (c : Command) → addcomma c ≡ record c { json = (addcomma c).json }
unfolding addcomma appendraw
addcomma_lem c = elim (Bool-cases (needs_comma c.json)) [ inl e ↦ rw e refl | inr e ↦ rw e refl ]

opened : List ℕ → ℕ → Command → Command
opened json k c = record {
  canceled = c.canceled;
  json = json;
  level = pos k;
  levels = set c.levels k 0;
  persistent = c.persistent;
}

open_text :
    (c : Command) (k : ℕ) (json : List ℕ)
    → inc c.level ≡ pos k
    → openobject (appendraw (b'[' ∷ []) (record c { json = json })) ≡ opened (json ++ b'[' ∷ []) k c
unfolding openobject appendraw opened
open_text c k json h = rw h refl

-- The flag of the level of an array: whether anything was put in it.
abbrev pub used : List (List ℕ) → ℕ
used [] = 0
used (x ∷ xs) = 1

closed : List ℕ → ℕ → ℕ → Command → Command
closed json k flag c = record {
  canceled = c.canceled;
  json = json;
  level = dec (pos k);
  levels = set c.levels k flag;
  persistent = c.persistent;
}

filled_text :
    (xs : List (List ℕ)) (c : Command) (k : ℕ) (json : List ℕ)
    → k < length c.levels
    → endarray (add_elements xs (opened (json ++ b'[' ∷ []) k c))
      ≡ closed (json ++ print (value_of xs) []) k (used xs) c
unfolding add_elements print opened closed
filled_text [] c k json h =
    close_text (json ++ b'[' ∷ []) (set c.levels k 0) c.canceled c.persistent k ∙ simp append_assoc
filled_text (x ∷ xs) c k json h =
    let flag = get_or-set c.levels k 0 0 h in
    let flag' : get_or (set (set c.levels k 0) k 1) k 0 ≡ 1 =
      get_or-set (set c.levels k 0) k 1 0 (omega (arith, length-set c.levels k 0)) in
    ap (λ d. endarray (add_elements xs d))
      (element-first x (json ++ b'[' ∷ []) (set c.levels k 0) c.canceled c.persistent k flag)
    ∙ elements_text xs ((json ++ b'[' ∷ []) ++ (b'"' ∷ (btoa x ++ quote)))
        (set (set c.levels k 0) k 1) c.canceled c.persistent k flag'
    ∙ rw (set-set c.levels k 0 1) (simp append_assoc)

-- An array of binary elements that is put together with `beginarray`, `element` and `endarray` is the
-- text of a JSON array of their base64 strings, behind a comma where one is needed; afterwards the level
-- is the one before, and no flag but that of the array's own level has changed. Condition: the array's
-- level is one of the levels there are.
pub binary_array-print :
    (xs : List (List ℕ)) (c : Command) (k : ℕ)
    → inc c.level ≡ pos k
    → k < length c.levels
    → ((binary_array xs c).json ≡ (addcomma c).json ++ print (value_of xs) [])
      × ((binary_array xs c).level ≡ c.level)
      × ((binary_array xs c).levels ≡ set c.levels k (used xs))
unfolding binary_array beginarray closed
binary_array-print xs c k top h =
    let text : binary_array xs c
        ≡ closed ((addcomma c).json ++ print (value_of xs) []) k (used xs) c =
      ap (λ d. endarray (add_elements xs (openobject (appendraw (b'[' ∷ []) d)))) (addcomma_lem c)
      ∙ ap (λ d. endarray (add_elements xs d)) (open_text c k (addcomma c).json top)
      ∙ filled_text xs c k (addcomma c).json h in
    (
      ap (λ d. d.json) text,
      ap (λ d. d.level) text ∙ ap dec (sym top) ∙ dec-inc c.level,
      ap (λ d. d.levels) text,
    )
