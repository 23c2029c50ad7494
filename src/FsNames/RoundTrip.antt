-- ===== src/FsNames/RoundTrip.antt =====
-- filesystem.cpp: what escaping and unescaping names achieve, and where they fail.
use sdk.Prelude.{
  u32, ◌^◌, ℕ, suc, ◌+◌, ◌*◌, ◌/◌, ◌%◌, ◌<◌, ◌≤◌, ◌≡◌, ◌≢◌, ◌↔◌, ◌⊎◌, inl, inr, refl, subst, ap,
  ◌∙◌, arith, List, [], ◌∷◌, true, false, none, some, next, u8, All, IsByte, length, Bool-cases,
  Option-cases,
}
use sdk.Hex.{hexval, hex_digit, islchex, hex_digit_lem}
use sdk.FsNames.{islocalfscompatible, escaped, escape, decoded, unescape_at, unescape}

percent_compatible : islocalfscompatible b'%' ≡ true
unfolding islocalfscompatible
percent_compatible = refl

hex_compatible : (c : ℕ) → islchex c ≡ true → islocalfscompatible c ≡ true
unfolding islocalfscompatible islchex
hex_compatible c h = ground arith

hex_ne_percent : (c : ℕ) → islchex c ≡ true → c ≢ b'%'
unfolding islchex
hex_ne_percent c h = ground arith

-- After escaping, every character of a name is allowed in the local file system.
pub escape-compatible :
    (name : List ℕ) → All IsByte name → All (λ c. islocalfscompatible c ≡ true) (escape name)
unfolding escape
escape-compatible [] h = tt
escape-compatible (c ∷ cs) (hc, hcs) = elim (Bool-cases (islocalfscompatible c)) [
  | inl e ↦ rw e (e, escape-compatible cs hcs)
  | inr e ↦
      let hi = (hex_digit_lem (c / 16) (omega arith)).1 in
      let lo = (hex_digit_lem (c % 16) (omega arith)).1 in
      rw e
        (percent_compatible, (hex_compatible _ hi, (hex_compatible _ lo, escape-compatible cs hcs)))
]

decoded-other : (c : ℕ) (rest : List ℕ) → c ≢ b'%' → decoded c rest ≡ none
unfolding decoded
decoded-other c rest h = ground arith

-- An escape sequence that `escape` wrote is decoded to its character.
decoded-escaped :
    (c : ℕ) (rest : List ℕ)
    → c < 256
    → islocalfscompatible c ≡ false
    → decoded b'%' (hex_digit (c / 16) ∷ hex_digit (c % 16) ∷ rest) ≡ some c
unfolding decoded
decoded-escaped c rest h bad =
    let (v, hi, _, _) = hex_digit_lem (c / 16) (omega arith) in
    let (w, lo, _, _) = hex_digit_lem (c % 16) (omega arith) in
    let whole : u8 (u32 (hexval (hex_digit (c / 16)) * 2 ^ 4) + hexval (hex_digit (c % 16))) ≡ c =
      omega arith in
    rw (hi, lo, whole, bad)

unescape_at_plain : (c : ℕ) (rest : List ℕ) → decoded c rest ≡ none → unescape_at c rest ≡ c ∷ rest
unfolding unescape_at
unescape_at_plain c rest e = rw (e, unescape_at)

-- `unescape` past the escape sequence of one character.
unescape-sequence :
    (c : ℕ) (rest : List ℕ)
    → c < 256
    → islocalfscompatible c ≡ false
    → unescape (b'%' ∷ hex_digit (c / 16) ∷ hex_digit (c % 16) ∷ rest) ≡ c ∷ unescape rest
unfolding unescape unescape_at
unescape-sequence c rest h bad =
    let u = unescape rest in
    let hi = (hex_digit_lem (c / 16) (omega arith)).1 in
    let lo = (hex_digit_lem (c % 16) (omega arith)).1 in
    let x = hex_digit (c / 16) in
    let y = hex_digit (c % 16) in
    ap (λ t. unescape_at b'%' (unescape_at x t))
      (unescape_at_plain y u (decoded-other y u (hex_ne_percent y lo)))
    ∙ ap (unescape_at b'%')
        (unescape_at_plain x (y ∷ u) (decoded-other x (y ∷ u) (hex_ne_percent x hi)))
    ∙ rw (decoded-escaped c u h bad, unescape_at)

-- One character of `unescape` after `escape`, whether it had to be escaped or not.
unescape-escaped :
    (c : ℕ) (rest : List ℕ)
    → c < 256
    → (unescape (escaped c rest) ≡ unescape_at c (unescape rest)) × (islocalfscompatible c ≡ true)
      ⊎ (unescape (escaped c rest) ≡ c ∷ unescape rest) × (islocalfscompatible c ≡ false)
unescape-escaped c rest h = elim (Bool-cases (islocalfscompatible c)) [
  | inl good ↦ inl (rw good (unfold unescape in refl), good)
  | inr bad ↦ inr (rw bad (unescape-sequence c rest h bad), bad)
]

-- No escape sequence of an incompatible character stands in the name.
abbrev pub IsPlain : List ℕ → Type 0
IsPlain [] = Unit {0}
IsPlain (c ∷ cs) = (decoded c cs ≡ none) × IsPlain cs

unescape-escape_plain :
    (name : List ℕ) → All IsByte name → IsPlain name → unescape (escape name) ≡ name
unfolding escape unescape
unescape-escape_plain [] h p = refl
unescape-escape_plain (c ∷ cs) (hc, hcs) (pc, pcs) =
    let ih = unescape-escape_plain cs hcs pcs in
    elim (unescape-escaped c (escape cs) hc) [
      | inl (e, _) ↦ e ∙ ap (unescape_at c) ih ∙ unescape_at_plain c cs pc
      | inr (e, _) ↦ e ∙ ap (◌∷◌ c) ih
    ]

decoded-two : (c : ℕ) (rest : List ℕ) (v : ℕ) → decoded c rest ≡ some v → 2 ≤ length rest
unfolding decoded islchex
decoded-two c [] v e = ground arith
decoded-two c (x ∷ []) v e = ground arith
decoded-two c (x ∷ y ∷ r) v e = omega arith

length-spliced :
    (v : ℕ) (r : List ℕ) → 2 ≤ length r → length (v ∷ next (next r)) + 2 ≡ suc (length r)
length-spliced v [] h = absurd (omega arith)
length-spliced v (x ∷ []) h = absurd (omega arith)
length-spliced v (x ∷ y ∷ r) h = omega arith

-- One round either keeps its character or makes the name two characters shorter.
unescape_at_cases :
    (c : ℕ) (rest : List ℕ)
    → ((decoded c rest ≡ none) × (unescape_at c rest ≡ c ∷ rest))
      ⊎ (length (unescape_at c rest) + 2 ≡ suc (length rest))
unfolding unescape_at
unescape_at_cases c rest = elim (Option-cases (decoded c rest)) [
  | inl e ↦ inl (e, unescape_at_plain c rest e)
  | inr (v, e) ↦ inr (rw (e, unescape_at) (length-spliced v rest (decoded-two c rest v e)))
]

-- So a name does not grow on the way, and keeps its length only if every round keeps its character.
length-unescape-escape :
    (name : List ℕ) → All IsByte name → length (unescape (escape name)) ≤ length name
unfolding escape unescape
length-unescape-escape [] h = omega arith
length-unescape-escape (c ∷ cs) (hc, hcs) =
    let ih = length-unescape-escape cs hcs in
    elim (unescape-escaped c (escape cs) hc) [
      | inl (e, _) ↦ elim (unescape_at_cases c (unescape (escape cs))) [
        | inl (_, k) ↦ omega (arith, ap length e, ap length k)
        | inr k ↦ omega (arith, ap length e)
      ]
      | inr (e, _) ↦ omega (arith, ap length e)
    ]

incompatible-plain : (c : ℕ) (rest : List ℕ) → islocalfscompatible c ≡ false → decoded c rest ≡ none
incompatible-plain c rest bad =
    decoded-other c rest (λ e. cc (percent_compatible, ap islocalfscompatible e))

IsPlain-of_kept : (name : List ℕ) → All IsByte name → unescape (escape name) ≡ name → IsPlain name
unfolding escape unescape
IsPlain-of_kept [] h e = tt
IsPlain-of_kept (c ∷ cs) (hc, hcs) e =
    let ih = IsPlain-of_kept cs hcs in
    let len = length-unescape-escape cs hcs in
    elim (unescape-escaped c (escape cs) hc) [
      | inl (f, _) ↦ elim (unescape_at_cases c (unescape (escape cs))) [
        | inl (pc, k) ↦
            let kept : unescape (escape cs) ≡ cs = cc (e, f, k) in
            (subst (λ t. decoded c t ≡ none) kept pc, ih kept)
        | inr k ↦ absurd (omega (arith, ap length e, ap length f))
      ]
      | inr (f, bad) ↦ (incompatible-plain c cs bad, ih (cc (e, f)))
    ]

-- Escaping a name and unescaping it again gives the name back exactly if no `%xx` in it reads as an
-- escape sequence of a forbidden character. (`%` itself is not escaped, so a name that holds
-- such a sequence comes back as another name.)
pub unescape-escape :
    (name : List ℕ) → All IsByte name → (unescape (escape name) ≡ name) ↔ IsPlain name
unescape-escape name h = (IsPlain-of_kept name h, unescape-escape_plain name h)
