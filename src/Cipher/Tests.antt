-- ===== src/Cipher/Tests.antt =====
-- cryptopp.cpp, counter mode: the theorems at concrete inputs.
use sdk.Prelude.{ℕ, ◌≡◌, arith, List, [], ◌∷◌, ◌++◌, true, false, take, replicate}
use sdk.Cipher.{ctr_crypt}
use sdk.Cipher.ShiftKey.{shift_key}
use sdk.Cipher.RoundTrip.{padding, ctr_crypt_twice}
use sdk.Cipher.Seeking.{counter_mode, ctr_crypt-counter_mode}

abbrev iv : List ℕ
iv = 3 ∷ 1 ∷ 4 ∷ 1 ∷ 5 ∷ 9 ∷ 2 ∷ 6 ∷ []

abbrev text : List ℕ
text = b'm' ∷ b'e' ∷ b'g' ∷ b'a' ∷ []

abbrev block : List ℕ
block = replicate 16 b'x'

ctr_crypt_twice_example :
    let (sealed, sealed_mac) = ctr_crypt shift_key (text ++ replicate (padding 4) 0) 4 32 iv true in
    let (back, back_mac) = ctr_crypt shift_key (take 4 sealed ++ 7 ∷ []) 4 32 iv false in
    (take 4 back ≡ text) × (back_mac ≡ sealed_mac)
ctr_crypt_twice_example = ctr_crypt_twice shift_key text (7 ∷ []) iv 32

ctr_crypt-counter_mode_example :
    (ctr_crypt shift_key (block ++ text) 20 32 iv false).0
    ≡ counter_mode shift_key iv 2 2 (block ++ text)
ctr_crypt-counter_mode_example =
    ctr_crypt-counter_mode shift_key (block ++ text) iv 20 32 false (omega arith)
