-- ===== src/Fingerprint/Compare.antt =====
-- filefingerprint.cpp: the order of fingerprints, and when two are taken for the same file.
use sdk.Prelude.{ℕ, ◌≡◌, refl, arith, List, [], ◌∷◌, true, false, length}
use sdk.Int.{eq_ℤ→eq}
use sdk.Fingerprint.{FileFingerprint, same_bytes, less_bytes, equal, less}

pub same_bytes_refl : (xs : List ℕ) → same_bytes xs xs ≡ true
unfolding same_bytes
same_bytes_refl [] = refl
same_bytes_refl (x ∷ xs) = ground (arith, same_bytes_refl xs)

pub same_bytes→eq : (xs ys : List ℕ) → same_bytes xs ys ≡ true → xs ≡ ys
unfolding same_bytes
same_bytes→eq [] [] h = refl
same_bytes→eq [] (y ∷ ys) h = cc
same_bytes→eq (x ∷ xs) [] h = cc
same_bytes→eq (x ∷ xs) (y ∷ ys) h = ground (arith, same_bytes→eq xs ys)

same_bytes_sym : (xs ys : List ℕ) → same_bytes xs ys ≡ same_bytes ys xs
unfolding same_bytes
same_bytes_sym [] [] = refl
same_bytes_sym [] (y ∷ ys) = refl
same_bytes_sym (x ∷ xs) [] = refl
same_bytes_sym (x ∷ xs) (y ∷ ys) = ground (arith, same_bytes_sym xs ys)

less_bytes_irrefl : (xs : List ℕ) → less_bytes xs xs ≡ false
unfolding less_bytes
less_bytes_irrefl [] = refl
less_bytes_irrefl (x ∷ xs) = ground (arith, less_bytes_irrefl xs)

less_bytes_trans :
    (xs ys zs : List ℕ)
    → less_bytes xs ys ≡ true
    → less_bytes ys zs ≡ true
    → less_bytes xs zs ≡ true
unfolding less_bytes
less_bytes_trans [] ys zs h k = cc
less_bytes_trans (x ∷ xs) [] zs h k = cc
less_bytes_trans (x ∷ xs) (y ∷ ys) [] h k = cc
less_bytes_trans (x ∷ xs) (y ∷ ys) (z ∷ zs) h k = ground (arith, less_bytes_trans xs ys zs)

less_bytes_total :
    (xs ys : List ℕ)
    → length xs ≡ length ys
    → less_bytes xs ys ≡ false
    → less_bytes ys xs ≡ false
    → xs ≡ ys
unfolding less_bytes
less_bytes_total [] [] l h k = refl
less_bytes_total [] (y ∷ ys) l h k = absurd (omega arith)
less_bytes_total (x ∷ xs) [] l h k = absurd (omega arith)
less_bytes_total (x ∷ xs) (y ∷ ys) l h k = ground (arith, less_bytes_total xs ys (omega arith))

-- `less` is a strict order, as `std::multimap` requires: it is transitive, and a fingerprint that comes
-- before another does not come after it.
pub less_strict :
    (a b c : FileFingerprint)
    → less a b ≡ true
    → less b c ≡ true
    → (less a c ≡ true) × (less b a ≡ false)
unfolding less
less_strict a b c h k = (
  ground (arith, less_bytes_trans a.crc b.crc c.crc),
  ground (arith, less_bytes_trans a.crc b.crc a.crc, less_bytes_irrefl a.crc),
)

-- Two fingerprints with checksums of the same length that are not ordered either way agree in size, time
-- and checksum, and `equal` takes them for the same file.
pub less_total :
    (a b : FileFingerprint)
    → length a.crc ≡ length b.crc
    → less a b ≡ false
    → less b a ≡ false
    → (a.size ≡ b.size) × (a.mtime ≡ b.mtime) × (a.crc ≡ b.crc) × (equal a b ≡ true)
unfolding less equal
less_total a b l h k =
    let same_crc = less_bytes_total a.crc b.crc l (ground arith) (ground arith) in
    (
      eq_ℤ→eq a.size b.size (ground arith),
      eq_ℤ→eq a.mtime b.mtime (ground arith),
      same_crc,
      ground (arith, same_bytes_refl a.crc, same_crc),
    )

-- The test for the same file is symmetric, and holds of every fingerprint and itself.
pub equal_laws : (a b : FileFingerprint) → (equal a a ≡ true) × (equal a b ≡ equal b a)
unfolding equal
equal_laws a b = (ground (arith, same_bytes_refl a.crc), ground (arith, same_bytes_sym a.crc b.crc))
