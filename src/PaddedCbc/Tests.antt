-- ===== src/PaddedCbc/Tests.antt =====
-- utils.cpp, PaddedCBC: concrete runs, and the theorems at concrete inputs.
use sdk.Prelude.{ℕ, ◌≡◌, List, [], ◌∷◌, true}
use sdk.Crypto.ShiftCipher.{shift_cipher}
use sdk.PaddedCbc.{encrypt, decrypt}
use sdk.PaddedCbc.RoundTrip.{decrypt-encrypt}

abbrev record_data : List ℕ
record_data = b'A' ∷ b'E' ∷ b'P' ∷ []

decrypt-encrypt_example :
    decrypt shift_cipher (encrypt shift_cipher record_data) ≡ (true, record_data)
decrypt-encrypt_example = decrypt-encrypt shift_cipher record_data
