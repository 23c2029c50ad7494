-- ===== src/Records/Shares.antt =====
-- share.cpp: a share is read back from its record.
use sdk.Prelude.{
  ℕ, zero, suc, ◌+◌, ◌^◌, ◌≡◌, ◌<◌, ◌∙◌, refl, ap, arith, List, ◌∷◌, ◌++◌, true, false, some, ltb,
  length, replicate, u8, low_first, from_low-low_first, drop-low_first, length-field,
}
use mathlib.Core.List.{append_assoc}
use sdk.Records.{Share, serialize_share, unserialize_share, skip_fields}

-- Values that the fields of a share have room for.
abbrev pub IsShare : Share → Type 0
IsShare s = (s.user < 2 ^ 64) × (s.ts < 2 ^ 64) × (s.access < 256)

share_text :
    (s : Share) (rest : List ℕ)
    → serialize_share s ++ rest
      ≡ low_first 8 s.user ++ (low_first 8 s.ts ++ (u8 s.access ∷ 0 ∷ rest))
unfolding serialize_share
share_text s rest = simp append_assoc

-- A share is read back from its record, whatever follows it, and the pointer is left behind it.
pub unserialize_share-serialize_share :
    (s : Share) (rest : List ℕ)
    → IsShare s
    → unserialize_share (serialize_share s ++ rest) ≡ some (s, rest)
unfolding unserialize_share
unserialize_share-serialize_share s rest (user, ts, access) =
    let tail = u8 s.access ∷ 0 ∷ rest in
    let p = low_first 8 s.user ++ (low_first 8 s.ts ++ tail) in
    let a = from_low-low_first 8 s.user (low_first 8 s.ts ++ tail) (omega arith) in
    let b = from_low-low_first 8 s.ts tail (omega arith) in
    let c : u8 s.access ≡ s.access = omega arith in
    let d = drop-low_first 8 s.user (low_first 8 s.ts ++ tail) in
    let e = drop-low_first 8 s.ts tail in
    let size : length p ≡ 18 + length rest =
      omega (arith, length-field 8 s.user (low_first 8 s.ts ++ tail), length-field 8 s.ts tail) in
    let long : ltb (length p) 18 ≡ false = ground (arith, size) in
    ap unserialize_share (share_text s rest) ∙ rw (long, a, d, b, e, c) refl

-- Eight empty fields are skipped, if the record does not end with them.
pub skip_fields-zeros : (n : ℕ) (p : List ℕ) → skip_fields n (replicate n 0 ++ p) ≡ p
unfolding skip_fields
skip_fields-zeros zero p = refl
skip_fields-zeros (suc n) p =
    let more : ltb 0 (suc (length (replicate {A = ℕ} n 0 ++ p))) ≡ true = ground arith in
    rw more (skip_fields-zeros n p)
