-- ===== src/Fingerprint.antt =====
-- src/filefingerprint.cpp, FileFingerprint: size, modification time and a sparse checksum of a file.
-- What it takes from the file system and from the CRC is a parameter.
pub mod Text
pub mod Compare
pub mod Generate
mod Tests
use sdk.Prelude.{
  ℕ, zero, suc, ◌+◌, ◌-◌, ◌*◌, ◌/◌, ◌%◌, ◌^◌, List, [], ◌∷◌, ◌++◌, Bool, true, false, not, ◌&&◌,
  ◌||◌, Option, none, some, ltb, leb, ◌==◌, if◌then◌else◌, take, drop, length, replicate,
}
use sdk.Int.{ℤ, pos, negsuc, ltb_ℤ, eq_ℤ, distance, to_u64, from_u64}
use sdk.Base64.{btoa, atob}
use sdk.Serialize64.{serialize, unserialize}

-- The four words of `crc` are their sixteen bytes.
pub record FileFingerprint : Type 0 where
  pub size : ℤ
  pub mtime : ℤ
  pub crc : List ℕ
  pub isvalid : Bool

-- `sizeof crc`, and MAXFULL
abbrev pub sizeof_crc : ℕ
sizeof_crc = 16

abbrev pub maxfull : ℕ
maxfull = 8192

-- FileFingerprint::FileFingerprint; `crc` starts out as whatever the memory holds.
pub new_fingerprint : List ℕ → FileFingerprint
new_fingerprint crc = record { size = negsuc 0; mtime = pos 0; crc = crc; isvalid = false }

-- `!memcmp(a, b, n)`, for sequences of the same length.
unfoldable pub same_bytes : List ℕ → List ℕ → Bool
same_bytes [] [] = true
same_bytes [] (y ∷ ys) = false
same_bytes (x ∷ xs) [] = false
same_bytes (x ∷ xs) (y ∷ ys) = x == y && same_bytes xs ys

-- `memcmp(a, b, n) < 0`
pub less_bytes : List ℕ → List ℕ → Bool
less_bytes [] ys = false
less_bytes (x ∷ xs) [] = false
less_bytes (x ∷ xs) (y ∷ ys) = ltb x y || (x == y && less_bytes xs ys)

-- operator==, with the test of the modification time, which Android leaves out.
pub equal : FileFingerprint → FileFingerprint → Bool
equal lhs rhs =
    if not (eq_ℤ lhs.size rhs.size)
    then false
    else if ltb 2 (distance lhs.mtime rhs.mtime)
    then false
    else if not lhs.isvalid || not rhs.isvalid
    then true
    else same_bytes lhs.crc rhs.crc

-- FileFingerprintCmp::operator()
pub less : FileFingerprint → FileFingerprint → Bool
less a b =
    if ltb_ℤ a.size b.size
    then true
    else if ltb_ℤ b.size a.size
    then false
    else if ltb_ℤ a.mtime b.mtime
    then true
    else if ltb_ℤ b.mtime a.mtime
    then false
    else less_bytes a.crc b.crc

-- FileFingerprint::serializefingerprint
pub serializefingerprint : FileFingerprint → List ℕ
serializefingerprint f = btoa (f.crc ++ serialize (to_u64 f.mtime))

-- FileFingerprint::unserializefingerprint: its result and the fingerprint.
pub unserializefingerprint : List ℕ → FileFingerprint → Bool × FileFingerprint
unserializefingerprint d f =
    let buf = atob d (sizeof_crc + 8 + 1) in
    let l = length buf in
    if ltb l (sizeof_crc + 1)
    then (false, f)
    else elim (unserialize (drop sizeof_crc buf) (l - sizeof_crc)) [
      | none ↦ (false, f)
      | some (t, _) ↦
          (true, record f { crc = take sizeof_crc buf; mtime = from_u64 t; isvalid = true })
    ]

-- An open file: what `fa->mtime` and `fa->size` say, and `frawread(buf, len, pos)`, which fails or gives
-- `len` bytes.
pub record FileAccess : Type 0 where
  pub mtime : ℤ
  pub size : ℕ
  pub frawread : ℕ → ℕ → Option (List ℕ)

-- What a buffer of `size` bytes holds after a read that may have failed.
unfoldable pub read_or : List ℕ → ℕ → Option (List ℕ) → List ℕ
read_or garbage size none = take size garbage
read_or garbage size (some bytes) = bytes

module _ (crc32 : List ℕ → List ℕ) (garbage : List ℕ) where
  -- A small file: the checksums of its four quarters, `left` of them still to be computed.
  pub quarters : ℕ → List ℕ → ℕ → List ℕ
  quarters zero buf size = []
  quarters (suc left) buf size =
      let i = 3 - left in
      let begin = i * size / 4 in
      let end = (i + 1) * size / 4 in
      crc32 (take (end - begin) (drop begin buf)) ++ quarters left buf size

  -- A large file: the `left` blocks that are still to be read for one checksum, the first of them
  -- number `n` of the 128 blocks that lie evenly in the file.
  pub blocks : FileAccess → ℕ → ℕ → Option (List ℕ)
  blocks fa n zero = some []
  blocks fa n (suc left) = elim (fa.frawread 64 ((fa.size - 64) * n / 127)) [
    | none ↦ none
    | some block ↦ elim (blocks fa (n + 1) left) [ none ↦ none | some rest ↦ some (block ++ rest) ]
  ]

  pub sparse : FileAccess → ℕ → Option (List ℕ)
  sparse fa zero = some []
  sparse fa (suc left) = elim (blocks fa ((3 - left) * 32) 32) [
    | none ↦ none
    | some read ↦ elim (sparse fa left) [ none ↦ none | some rest ↦ some (crc32 read ++ rest) ]
  ]

  -- The checksums of a file, or `none` if it cannot be read. Of a tiny file the result of the read is not
  -- tested: where it fails, the bytes are whatever the stack holds.
  unfoldable pub newcrc : FileAccess → Option (List ℕ)
  newcrc fa =
      if leb fa.size sizeof_crc
      then some
          (read_or garbage fa.size (fa.frawread fa.size 0) ++ replicate (sizeof_crc - fa.size) 0)
      else if leb fa.size maxfull
      then elim (fa.frawread fa.size 0) [ none ↦ none | some buf ↦ some (quarters 4 buf fa.size) ]
      else sparse fa 4

  -- FileFingerprint::genfingerprint: whether the fingerprint changed, and the fingerprint.
  unfoldable pub genfingerprint : FileAccess → Bool → FileFingerprint → Bool × FileFingerprint
  genfingerprint fa ignoremtime f =
      let newtime = not (eq_ℤ f.mtime fa.mtime) in
      let newsize = not (eq_ℤ f.size (pos fa.size)) in
      elim (newcrc fa) [
        | none ↦ (true, record f { mtime = fa.mtime; size = negsuc 0 })
        | some crc ↦ (
          (newtime && not ignoremtime) || newsize || not (same_bytes f.crc crc) || not f.isvalid,
          record { size = pos fa.size; mtime = fa.mtime; crc = crc; isvalid = true },
        )
      ]
