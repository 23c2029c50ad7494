-- ===== src/Crypto/ShiftCipher.antt =====
-- A function that meets the assumptions on `SymmCipher`, for the examples.
use sdk.Prelude.{ℕ, suc, ◌+◌, ◌-◌, ◌≡◌, refl, ap, ap₂, arith, List, [], ◌∷◌, length, map}
use sdk.Crypto.{SymmCipher}

pub map_back : (d : List ℕ) → map (λ c. c - 1) (map (λ c. c + 1) d) ≡ d
map_back [] = refl
map_back (c ∷ d) = ap₂ ◌∷◌ (omega arith) (map_back d)

pub length-shifted : (d : List ℕ) → length (map (λ (c : ℕ). c + 1) d) ≡ length d
length-shifted [] = refl
length-shifted (c ∷ d) = ap suc (length-shifted d)

-- A cipher that adds one to each byte.
abbrev pub shift_cipher : SymmCipher
shift_cipher = record {
  cbc_encrypt = map (λ c. c + 1);
  cbc_decrypt = map (λ c. c - 1);
  cbc_decrypt-encrypt = λ d _. map_back d;
  length-cbc_encrypt = λ d _. length-shifted d;
}
