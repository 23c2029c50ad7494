-- ===== src/Crypto.antt =====
-- What the program takes from AES (Crypto++, behind `SymmCipher` of include/mega/crypto/cryptopp.h):
-- the modes of the cipher under one key, as functions on byte sequences, and what is documented of them.
pub mod ShiftCipher
use sdk.Prelude.{ℕ, ◌%◌, ◌≡◌, List, length}

-- SymmCipher::BLOCKSIZE
abbrev pub blocksize : ℕ
blocksize = 16

-- A sequence of whole blocks is encrypted to one of the same length, and decrypted again.
pub record SymmCipher : Type 0 where
  pub cbc_encrypt : List ℕ → List ℕ
  pub cbc_decrypt : List ℕ → List ℕ
  pub cbc_decrypt-encrypt :
      (d : List ℕ) → length d % blocksize ≡ 0 → cbc_decrypt (cbc_encrypt d) ≡ d
  pub length-cbc_encrypt :
      (d : List ℕ) → length d % blocksize ≡ 0 → length (cbc_encrypt d) ≡ length d
