-- ===== src/Fingerprint/Text.antt =====
-- filefingerprint.cpp: the textual form of a fingerprint, an attribute of its node.
use sdk.Prelude.{
  ℕ, ◌-◌, ◌≡◌, ◌<◌, ◌^◌, refl, sym, ap, ◌∙◌, arith, List, [], ◌++◌, Bool, true, false, ltb,
  if◌then◌else◌, length, none, some, All, All-append, IsByte, take, drop, length-append,
  take-append, drop-append, take-length,
}
use mathlib.Core.List.{append-nil}
use sdk.Int.{ℤ, pos, negsuc, to_u64, from_u64, IsI64, from_u64-to_u64}
use sdk.Base64.{btoa, atob, from64}
use sdk.Base64.RoundTrip.{atob-btoa}
use sdk.Serialize64.{serialize, unserialize}
use sdk.Serialize64.RoundTrip.{unserialize-serialize, serialize_shape}
use sdk.Fingerprint.{FileFingerprint, sizeof_crc, serializefingerprint, unserializefingerprint}

to_u64-lt : (a : ℤ) → to_u64 a < 2 ^ 64
to_u64-lt (pos n) = omega arith
to_u64-lt (negsuc n) = omega arith

read_from : FileFingerprint → List ℕ → Bool × FileFingerprint
read_from g buf =
    if ltb (length buf) 17 then (false, g) else elim (unserialize (drop 16 buf) (length buf - 16)) [
      | none ↦ (false, g)
      | some (t, _) ↦ (true, record g { crc = take 16 buf; mtime = from_u64 t; isvalid = true })
    ]

read_decoded :
    (d buf : List ℕ) (g : FileFingerprint) (t n : ℕ)
    → atob d 25 ≡ buf
    → ltb (length buf) 17 ≡ false
    → unserialize (drop 16 buf) (length buf - 16) ≡ some (t, n)
    → unserializefingerprint d g
      ≡ (true, record g { crc = take 16 buf; mtime = from_u64 t; isvalid = true })
unfolding unserializefingerprint read_from
read_decoded d buf g t n decoded long read =
    ap (read_from g) decoded ∙ rw long (rw (read, read_from) refl)

-- Reading the textual form of a fingerprint into any other gives that one the checksum and the time of the
-- first, and makes it valid; the size is not part of the form. Conditions: the checksum is sixteen bytes,
-- and the time is a number of 64 bits.
pub unserializefingerprint-serializefingerprint :
    (f g : FileFingerprint)
    → length f.crc ≡ sizeof_crc
    → All IsByte f.crc
    → IsI64 f.mtime
    → unserializefingerprint (serializefingerprint f) g
      ≡ (true, record g { crc = f.crc; mtime = f.mtime; isvalid = true })
unfolding serializefingerprint
unserializefingerprint-serializefingerprint f g len bytes time =
    let t = to_u64 f.mtime in
    let (tail_bytes, lo, hi) = serialize_shape t (to_u64-lt f.mtime) in
    let buf = f.crc ++ serialize t in
    let size = length-append f.crc (serialize t) in
    let decoded : atob (btoa buf) 25 ≡ buf =
      ap (λ s. atob s 25) (sym (append-nil (btoa buf)))
      ∙ atob-btoa buf [] 25 (All-append IsByte f.crc (serialize t) bytes tail_bytes)
          (unfold from64 in refl)
      ∙ take-length 25 buf (omega arith) in
    let long : ltb (length buf) 17 ≡ false = ground arith in
    let front : take 16 buf ≡ f.crc = rw (← len) (take-append f.crc (serialize t)) in
    let back : drop 16 buf ≡ serialize t = rw (← len) (drop-append f.crc (serialize t)) in
    let count : length buf - 16 ≡ length (serialize t) = omega arith in
    let read : unserialize (serialize t) (length (serialize t)) ≡ some (t, length (serialize t)) =
      ap (λ s. unserialize s (length (serialize t))) (sym (append-nil (serialize t)))
      ∙ unserialize-serialize t (length (serialize t)) [] (to_u64-lt f.mtime) (omega arith) in
    read_decoded (btoa buf) buf g t (length (serialize t)) decoded long (rw (back, count) read)
    ∙ rw (front, from_u64-to_u64 f.mtime time) refl
