-- ===== src/Cipher/Seeking.antt =====
-- cryptopp.cpp: the data side of `ctr_crypt` is the counter mode, so a file may be cut into chunks anywhere
-- between two blocks.
use sdk.Prelude.{
  ℕ, zero, suc, ◌+◌, ◌-◌, ◌*◌, ◌/◌, ◌%◌, ◌^◌, ◌≡◌, ◌<◌, ◌∙◌, refl, sym, ap, ap₂, arith, List, [],
  ◌∷◌, ◌++◌, Bool, true, false, take, drop, length, length-take, length-drop,
}
use mathlib.Core.List.{append_assoc}
use sdk.Cipher.{
  BlockCipher, xorblock, setint64, encrypt_block, decrypt_block, crypt_blocks, ctr_crypt,
  start_counter, rounds_of,
}
use sdk.Cipher.Blocks.{take-drop, take-front, drop-front}
use sdk.Cipher.Counter.{incblock-counter}

module _ (key : BlockCipher) (iv : List ℕ) where
  -- The counter mode: block number `k` is combined with the encryption of its counter.
  pub counter_mode : ℕ → ℕ → List ℕ → List ℕ
  counter_mode k zero d = d
  counter_mode k (suc n) d =
      xorblock (key.ecb_encrypt (iv ++ setint64 k)) (take 16 d)
      ++ counter_mode (k + 1) n (drop 16 d)

  crypt_blocks-counter_mode :
      (encrypt : Bool) (n len k : ℕ) (d mac : List ℕ)
      → k + n < 2 ^ 64
      → (crypt_blocks key encrypt n len d (iv ++ setint64 k) mac).0 ≡ counter_mode k n d
  unfolding crypt_blocks encrypt_block decrypt_block counter_mode
  crypt_blocks-counter_mode encrypt zero len k d mac h = refl
  crypt_blocks-counter_mode true (suc n) len k d mac h =
      ap (λ t. xorblock (key.ecb_encrypt (iv ++ setint64 k)) (take 16 d) ++ t)
        (rw (incblock-counter iv k (omega arith))
          (crypt_blocks-counter_mode true n (len - 16) (k + 1) (drop 16 d) _ (omega arith)))
  crypt_blocks-counter_mode false (suc n) len k d mac h =
      ap (λ t. xorblock (key.ecb_encrypt (iv ++ setint64 k)) (take 16 d) ++ t)
        (rw (incblock-counter iv k (omega arith))
          (crypt_blocks-counter_mode false n (len - 16) (k + 1) (drop 16 d) _ (omega arith)))

  counter_mode-append :
      (m n k : ℕ) (xs ys : List ℕ)
      → length xs ≡ 16 * m
      → counter_mode k (m + n) (xs ++ ys) ≡ counter_mode k m xs ++ counter_mode (k + m) n ys
  unfolding counter_mode
  counter_mode-append zero n k [] ys h =
      let e : k + 0 ≡ k = omega arith in let e' : 0 + n ≡ n = omega arith in rw (e, e') refl
  counter_mode-append zero n k (x ∷ xs) ys h = absurd (omega arith)
  counter_mode-append (suc m) n k xs ys h =
      let e : suc m + n ≡ suc (m + n) = omega arith in
      let e' : k + suc m ≡ k + 1 + m = omega arith in
      let split : xs ++ ys ≡ take 16 xs ++ (drop 16 xs ++ ys) =
        ap (λ t. t ++ ys) (sym (take-drop 16 xs)) ∙ append_assoc (take 16 xs) (drop 16 xs) ys in
      let first : length (take 16 xs) ≡ 16 = omega (arith, length-take 16 xs) in
      let front : take 16 (xs ++ ys) ≡ take 16 xs =
        ap (take 16) split ∙ take-front 16 (take 16 xs) (drop 16 xs ++ ys) first in
      let back : drop 16 (xs ++ ys) ≡ drop 16 xs ++ ys =
        ap (drop 16) split ∙ drop-front 16 (take 16 xs) (drop 16 xs ++ ys) first in
      let ih = counter_mode-append m n (k + 1) (drop 16 xs) ys (omega (arith, length-drop 16 xs)) in
      let ks = xorblock (key.ecb_encrypt (iv ++ setint64 k)) (take 16 xs) in
      ap (λ t. counter_mode k t (xs ++ ys)) e
      ∙ rw (front, back) (ap (λ t. ks ++ t) ih)
      ∙ sym (append_assoc ks (counter_mode (k + 1) m (drop 16 xs)) (counter_mode (k + 1 + m) n ys))
      ∙ ap (λ t. (ks ++ counter_mode (k + 1) m (drop 16 xs)) ++ counter_mode t n ys) (sym e')

-- Whether it encrypts or decrypts, the data that `ctr_crypt` gives are those of the counter mode from the
-- block at `pos` on, if the numbers of the blocks stay below 2^64.
pub ctr_crypt-counter_mode :
    (key : BlockCipher) (d iv : List ℕ) (len pos : ℕ) (encrypt : Bool)
    → pos / 16 + rounds_of len < 2 ^ 64
    → (ctr_crypt key d len pos iv encrypt).0 ≡ counter_mode key iv (pos / 16) (rounds_of len) d
unfolding ctr_crypt start_counter
ctr_crypt-counter_mode key d iv len pos encrypt h =
    crypt_blocks-counter_mode key iv encrypt (rounds_of len) len (pos / 16) d (iv ++ iv) h

-- A sequence that is cut between two blocks is encrypted (or decrypted) in two pieces, each at its own
-- position, to the same bytes as in one.
pub ctr_crypt-append :
    (key : BlockCipher) (xs ys iv : List ℕ) (len pos : ℕ) (encrypt : Bool)
    → length xs % 16 ≡ 0
    → pos % 16 ≡ 0
    → (pos + length xs + len) / 16 + 1 < 2 ^ 64
    → (ctr_crypt key (xs ++ ys) (length xs + len) pos iv encrypt).0
      ≡ (ctr_crypt key xs (length xs) pos iv encrypt).0
        ++ (ctr_crypt key ys len (pos + length xs) iv encrypt).0
ctr_crypt-append key xs ys iv len pos encrypt whole aligned h =
    let m = length xs / 16 in
    let a : rounds_of (length xs + len) ≡ m + rounds_of len = omega arith in
    let b : rounds_of (length xs) ≡ m = omega arith in
    let c : (pos + length xs) / 16 ≡ pos / 16 + m = omega arith in
    ctr_crypt-counter_mode key (xs ++ ys) iv (length xs + len) pos encrypt (omega arith)
    ∙ ap (λ t. counter_mode key iv (pos / 16) t (xs ++ ys)) a
    ∙ counter_mode-append key iv m (rounds_of len) (pos / 16) xs ys (omega arith)
    ∙ ap₂ ◌++◌
        (ap (λ t. counter_mode key iv (pos / 16) t xs) (sym b)
          ∙ sym (ctr_crypt-counter_mode key xs iv (length xs) pos encrypt (omega arith)))
        (ap (λ t. counter_mode key iv t (rounds_of len) ys) (sym c)
          ∙ sym (ctr_crypt-counter_mode key ys iv len (pos + length xs) encrypt (omega arith)))
