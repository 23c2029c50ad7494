-- ===== src/PaddedCbc.antt =====
-- src/utils.cpp, PaddedCBC: records of any length in a block cipher. The end of the data is marked by
-- an `E`, and `P`s fill the last block.
pub mod RoundTrip
mod Tests
use sdk.Prelude.{
  ℕ, zero, suc, ◌+◌, ◌-◌, ◌%◌, List, [], ◌∷◌, ◌++◌, Bool, true, false, Option, none, some, length,
  take, replicate, ◌==◌, if◌then◌else◌, bit_and,
}
use sdk.Crypto.{SymmCipher, blocksize}

-- `std::string::find_last_of` for one character.
pub find_last_of : ℕ → List ℕ → Option ℕ
find_last_of c [] = none
find_last_of c (x ∷ xs) = elim (find_last_of c xs) [
  | some i ↦ some (suc i)
  | none ↦ if x == c then some 0 else none
]

-- `(n + BLOCKSIZE - 1) & - BLOCKSIZE`
abbrev pub whole_blocks : ℕ → ℕ
whole_blocks n = n + blocksize - 1 - (n + blocksize - 1) % blocksize

-- The data with its end mark, resized to whole blocks.
pub pad : List ℕ → List ℕ
pad d =
    let marked = d ++ b'E' ∷ [] in
    marked ++ replicate (whole_blocks (length marked) - length marked) b'P'

-- PaddedCBC::encrypt
pub encrypt : SymmCipher → List ℕ → List ℕ
encrypt key d = key.cbc_encrypt (pad d)

-- PaddedCBC::decrypt: its result, and what it leaves in `data`.
pub decrypt : SymmCipher → List ℕ → Bool × List ℕ
decrypt key d =
    if bit_and (length d) (blocksize - 1) == 0
    then elim (find_last_of b'E' (key.cbc_decrypt d)) [
      | none ↦ (false, key.cbc_decrypt d)
      | some p ↦ (true, take p (key.cbc_decrypt d))
    ]
    else (false, d)
