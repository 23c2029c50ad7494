-- ===== src/Fingerprint/Tests.antt =====
-- filefingerprint.cpp: the theorems at concrete inputs.
use sdk.Prelude.{ℕ, ◌≡◌, refl, List, [], ◌∷◌, true, some, replicate}
use sdk.Int.{pos}
use sdk.Fingerprint.{FileFingerprint, FileAccess, read_or, newcrc}

abbrev crc16 : List ℕ
crc16 = 200 ∷ replicate 15 7

abbrev earlier : FileFingerprint
earlier = record { size = pos 5; mtime = pos 1; crc = crc16; isvalid = true }

abbrev later : FileFingerprint
later = record { size = pos 5; mtime = pos 2; crc = crc16; isvalid = true }

abbrev latest : FileFingerprint
latest = record { size = pos 6; mtime = pos 0; crc = crc16; isvalid = true }

-- A file of three bytes, and a checksum that is always 1.
abbrev tiny : FileAccess
tiny = record { mtime = pos 9; size = 3; frawread = λ len p. some (replicate len b'x') }

abbrev one_crc : List ℕ → List ℕ
one_crc data_bytes = 0 ∷ 0 ∷ 0 ∷ 1 ∷ []

abbrev tiny_crc : List ℕ
tiny_crc = b'x' ∷ b'x' ∷ b'x' ∷ replicate 13 0

tiny_taken : newcrc one_crc [] tiny ≡ some tiny_crc
unfolding newcrc read_or
tiny_taken = refl

abbrev tiny_fingerprint : FileFingerprint
tiny_fingerprint = record { size = pos 3; mtime = pos 9; crc = tiny_crc; isvalid = true }
