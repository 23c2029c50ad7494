-- ===== src/AttrMap/Binary.antt =====
-- attrmap.cpp: `unserialize` reads back what `serialize` wrote.
use sdk.Prelude.{
  ℕ, zero, suc, ◌+◌, ◌*◌, ◌/◌, ◌%◌, ◌^◌, ◌≡◌, ◌≤◌, ◌<◌, ◌∙◌, refl, sym, ap, arith, List, [], ◌∷◌,
  ◌++◌, false, ◌==◌, All, some, u8, u16, length, length-append, take-append, take-length,
  drop-append,
}
use mathlib.Core.List.{append_assoc, append-nil}
use sdk.AttrMap.{
  Attrs, short_bytes, serialize_entry, serialize, assign, unserialize_loop, unserialize,
}
use sdk.AttrMap.Names.{
  IsNameChar, pack, forwards, length-forwards, nameid2string-pack, read_id-forwards,
}

-- An entry that the binary form can hold: a name of 1 to 8 characters, a value of less than 64 KB.
abbrev pub IsEntry : ℕ → List ℕ → Type 0
IsEntry id value =
    (r : List ℕ) × (id ≡ pack r)
    × All IsNameChar r
    × (1 ≤ length r)
    × (length r ≤ 8)
    × (length value < 2 ^ 16)

-- A map: its names ascend from `low` on, and each entry can be held.
abbrev pub IsMap : ℕ → Attrs → Type 0
IsMap low [] = Unit {0}
IsMap low ((id, value) ∷ m) = (low ≤ id) × IsEntry id value × IsMap (suc id) m

serialize_entry_lem :
    (r value : List ℕ)
    → All IsNameChar r
    → 1 ≤ length r
    → length r ≤ 8
    → length value < 2 ^ 16
    → serialize_entry (pack r) value
      ≡ length r ∷ (forwards r ++ (short_bytes (length value) ++ value))
unfolding serialize_entry
serialize_entry_lem r value h some_char few short =
    let name = (nameid2string-pack r [] h few).0 in
    let len = length-forwards r in
    let byte : u8 (length r) ≡ length r = omega arith in
    let whole : u16 (length value) ≡ length value = omega arith in
    let test : (length r == 0) ≡ false = ground arith in
    rw (name, len, byte, whole, test, take-length (length value) value (omega arith)) refl

-- One round of the loop takes the entry in front.
round_entry :
    (f : ℕ) (acc : Attrs) (r value q : List ℕ)
    → All IsNameChar r
    → 1 ≤ length r
    → length r ≤ 8
    → length value < 2 ^ 16
    → unserialize_loop
        (suc f)
        acc
        (length r ∷ (forwards r ++ (short_bytes (length value) ++ (value ++ q))))
      ≡ unserialize_loop f (assign (pack r) value acc) q
unfolding unserialize_loop
round_entry f acc r value q h some_char few short =
    let test : (length r == 0) ≡ false = ground arith in
    let ll : length value % 2 ^ 8 + 2 ^ 8 * (length value / 2 ^ 8 % 2 ^ 8) ≡ length value =
      omega arith in
    rw (test, read_id-forwards r (short_bytes (length value) ++ (value ++ q)) h few)
      (rw (ll, take-append value q, drop-append value q) refl)

assign-last :
    (acc : Attrs) (id low : ℕ) (value : List ℕ)
    → All (λ e. e.0 < low) acc
    → low ≤ id
    → assign id value acc ≡ acc ++ (id, value) ∷ []
unfolding assign
assign-last [] id low value h l = refl
assign-last ((i, v) ∷ acc) id low value h l = ground (arith, assign-last acc id low value h.1 l)

below-append :
    (acc : Attrs) (id low : ℕ) (value : List ℕ)
    → All (λ e. e.0 < low) acc
    → low ≤ id
    → All (λ e. e.0 < suc id) (acc ++ (id, value) ∷ [])
below-append [] id low value h l = (omega arith, tt)
below-append ((i, v) ∷ acc) id low value h l = (omega arith, below-append acc id low value h.1 l)

entry-append :
    (id : ℕ) (r value s rest : List ℕ)
    → id ≡ pack r
    → All IsNameChar r
    → 1 ≤ length r
    → length r ≤ 8
    → length value < 2 ^ 16
    → (serialize_entry id value ++ s) ++ rest
      ≡ length r ∷ (forwards r ++ (short_bytes (length value) ++ (value ++ (s ++ rest))))
entry-append id r value s rest e h some_char few short =
    rw (e, serialize_entry_lem r value h some_char few short) (simp append_assoc)

nothing_left :
    (f : ℕ) (acc : Attrs) (rest : List ℕ)
    → unserialize_loop (suc f) acc (0 ∷ rest) ≡ some (acc, rest)
unfolding unserialize_loop
nothing_left f acc rest = refl

unserialize_loop-serialize :
    (m acc : Attrs) (f low : ℕ) (rest : List ℕ)
    → IsMap low m
    → All (λ e. e.0 < low) acc
    → length m < f
    → unserialize_loop f acc (serialize m ++ rest) ≡ some (acc ++ m, rest)
unfolding serialize
unserialize_loop-serialize m acc zero low rest h below enough = absurd (omega arith)
unserialize_loop-serialize [] acc (suc f) low rest h below enough =
    nothing_left f acc rest ∙ rw append-nil
unserialize_loop-serialize ((id, value) ∷ m) acc (suc f) low rest
      (l, (r, e, chars, some_char, few, short), h) below enough =
    ap (unserialize_loop (suc f) acc)
      (entry-append id r value (serialize m) rest e chars some_char few short)
    ∙ round_entry f acc r value (serialize m ++ rest) chars some_char few short
    ∙ ap (λ i. unserialize_loop f (assign i value acc) (serialize m ++ rest)) (sym e)
    ∙ ap (λ t. unserialize_loop f t (serialize m ++ rest)) (assign-last acc id low value below l)
    ∙ unserialize_loop-serialize m (acc ++ (id, value) ∷ []) f (suc id) rest h
        (below-append acc id low value below l) (omega arith)
    ∙ ap (λ t. some (t, rest)) (append_assoc acc ((id, value) ∷ []) m)

pub entries-le : (m : Attrs) (low : ℕ) → IsMap low m → length m < length (serialize m)
unfolding serialize
entries-le [] low h = omega arith
entries-le ((id, value) ∷ m) low (l, (r, e, chars, some_char, few, short), h) = omega (
  arith,
  ap length (entry-append id r value (serialize m) [] e chars some_char few short),
  length-append (serialize_entry id value ++ serialize m) [],
  length-append (forwards r) (short_bytes (length value) ++ (value ++ (serialize m ++ []))),
  length-append value (serialize m ++ []),
  length-append (serialize m) [],
  entries-le m (suc id) h,
)

-- A map is read back from its binary form, whatever follows it, and the pointer that is returned is the
-- one behind the form. Conditions: the names ascend and have 1 to 8 characters other than NUL, and the
-- values are shorter than 64 KB.
pub unserialize-serialize_map :
    (m : Attrs) (rest : List ℕ) → IsMap 0 m → unserialize [] (serialize m ++ rest) ≡ some (m, rest)
unfolding unserialize
unserialize-serialize_map m rest h =
    unserialize_loop-serialize m [] (suc (length (serialize m ++ rest))) 0 rest h tt
      (omega (arith, entries-le m 0 h, length-append (serialize m) rest))
