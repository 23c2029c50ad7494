-- ===== src/PaddedCbc/RoundTrip.antt =====
-- utils.cpp, PaddedCBC: `decrypt` undoes `encrypt`.
use sdk.Prelude.{
  ℕ, zero, suc, ◌+◌, ◌-◌, ◌%◌, ◌≤◌, ◌≡◌, refl, arith, List, [], ◌∷◌, ◌++◌, true, none, some, length,
  take, replicate, bit_and_15, length-append, length-replicate, take-append,
}
use mathlib.Core.List.{append_assoc}
use sdk.Crypto.{SymmCipher, blocksize}
use sdk.PaddedCbc.{find_last_of, whole_blocks, pad, encrypt, decrypt}

length-pad : (d : List ℕ) → length (pad d) ≡ whole_blocks (length d + 1)
unfolding pad
length-pad d =
    let marked = d ++ b'E' ∷ [] in
    omega (
      arith,
      length-append marked (replicate (whole_blocks (length marked) - length marked) b'P'),
      length-append d (b'E' ∷ []),
      length-replicate {A = ℕ} (whole_blocks (length marked) - length marked) b'P',
    )

find_last_of-replicate : (n : ℕ) → find_last_of b'E' (replicate n b'P') ≡ none
unfolding find_last_of
find_last_of-replicate zero = refl
find_last_of-replicate (suc n) = rw (find_last_of-replicate n)

-- The end mark is the last `E`, whatever the data holds.
find_last_of-marked :
    (d : List ℕ) (n : ℕ) → find_last_of b'E' (d ++ b'E' ∷ replicate n b'P') ≡ some (length d)
unfolding find_last_of
find_last_of-marked [] n = rw (find_last_of-replicate n, find_last_of)
find_last_of-marked (x ∷ d) n = rw (find_last_of-marked d n, find_last_of)

unpad-pad :
    (d : List ℕ) → (find_last_of b'E' (pad d) ≡ some (length d)) × (take (length d) (pad d) ≡ d)
unfolding pad
unpad-pad d =
    let marked = d ++ b'E' ∷ [] in
    let n = whole_blocks (length marked) - length marked in
    (
      rw (append_assoc d (b'E' ∷ []) (replicate n b'P')) (find_last_of-marked d n),
      rw (append_assoc d (b'E' ∷ []) (replicate n b'P')) (take-append d _),
    )

-- A padded record is a whole number of blocks long, at least one byte and at most one block longer
-- than the data.
pub encrypt_shape :
    (key : SymmCipher) (d : List ℕ)
    → (length (encrypt key d) % blocksize ≡ 0)
      × (length d + 1 ≤ length (encrypt key d))
      × (length (encrypt key d) ≤ length d + blocksize)
unfolding encrypt
encrypt_shape key d =
    let e = key.length-cbc_encrypt (pad d) (omega (arith, length-pad d)) in
    (omega (arith, e, length-pad d), omega (arith, e, length-pad d), omega (arith, e, length-pad d))

-- Decrypting with the key of the encryption succeeds and gives the data back, of any length and with
-- any bytes in it.
pub decrypt-encrypt : (key : SymmCipher) (d : List ℕ) → decrypt key (encrypt key d) ≡ (true, d)
unfolding decrypt
decrypt-encrypt key d =
    let whole = (encrypt_shape key d).0 in
    let back : key.cbc_decrypt (encrypt key d) ≡ pad d =
      unfold encrypt in key.cbc_decrypt-encrypt (pad d) (omega (arith, length-pad d)) in
    let (found, cut) = unpad-pad d in
    ground (arith, whole, back, found, cut, bit_and_15 (length (encrypt key d)))
