-- ===== src/Cipher/ShiftKey.antt =====
-- A function that stands for the encryption of single blocks in the examples.
use sdk.Prelude.{◌+◌, ◌%◌, map}
use sdk.Cipher.{BlockCipher}

abbrev pub shift_key : BlockCipher
shift_key = record { ecb_encrypt = map (λ c. (c + 1) % 256) }
