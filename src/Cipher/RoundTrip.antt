-- ===== src/Cipher/RoundTrip.antt =====
-- cryptopp.cpp: `ctr_crypt` decrypts what it encrypted, and computes the same MAC both ways.
use sdk.Prelude.{
  ℕ, zero, suc, ◌+◌, ◌-◌, ◌*◌, ◌%◌, ◌≡◌, ◌≤◌, ◌<◌, ◌∙◌, refl, sym, ap, subst, arith, List, [], ◌∷◌,
  ◌++◌, true, false, ltb, take, drop, length, length-append, length-take, length-drop, take-length,
  length-replicate, replicate, Bool-cases, inl, inr,
}
use mathlib.Core.List.{append_assoc}
use sdk.Cipher.{
  BlockCipher, xorblock, incblock, encrypt_block, decrypt_block, crypt_blocks, ctr_crypt,
  start_counter, rounds_of,
}
use sdk.Cipher.Blocks.{
  length-xorblock, xorblock_twice, xorblock_padded, take-xorblock, take-drop, take-front,
  drop-front, take-take, take-within, take-past,
}

module _ (key : BlockCipher) where
  -- One round over a whole block.
  pub encrypt-full :
      (n len : ℕ) (b rest ctr mac : List ℕ)
      → length b ≡ 16
      → crypt_blocks key true (suc n) (16 + len) (b ++ rest) ctr mac ≡ (
        xorblock (key.ecb_encrypt ctr) b
            ++ (crypt_blocks key true n len rest
                (incblock ctr)
                (key.ecb_encrypt (xorblock b mac))).0,
        (crypt_blocks key true n len rest (incblock ctr) (key.ecb_encrypt (xorblock b mac))).1,
      )
  unfolding crypt_blocks encrypt_block
  encrypt-full n len b rest ctr mac h =
      let left : 16 + len - 16 ≡ len = omega arith in
      rw (take-front 16 b rest h, drop-front 16 b rest h, left) refl

  pub decrypt-full :
      (n len : ℕ) (b rest ctr mac : List ℕ)
      → length b ≡ 16
      → crypt_blocks key false (suc n) (16 + len) (b ++ rest) ctr mac ≡ (
        xorblock (key.ecb_encrypt ctr) b
            ++ (crypt_blocks key false n len rest
                (incblock ctr)
                (key.ecb_encrypt (xorblock (xorblock (key.ecb_encrypt ctr) b) mac))).0,
        (crypt_blocks key false n len rest
            (incblock ctr)
            (key.ecb_encrypt (xorblock (xorblock (key.ecb_encrypt ctr) b) mac))).1,
      )
  unfolding crypt_blocks decrypt_block
  decrypt-full n len b rest ctr mac h =
      let left : 16 + len - 16 ≡ len = omega arith in
      let whole : ltb (16 + len) 16 ≡ false = ground arith in
      rw (take-front 16 b rest h, drop-front 16 b rest h, left, whole) refl

  Trips : ℕ → List ℕ → List ℕ → List ℕ → List ℕ → ℕ → Type 0
  Trips n d tail ctr mac z =
      let (sealed, sealed_mac) = crypt_blocks key true n (length d) (d ++ replicate z 0) ctr mac in
      let (back, back_mac) =
        crypt_blocks key false n (length d) (take (length d) sealed ++ tail) ctr mac in
      (take (length d) back ≡ d) × (back_mac ≡ sealed_mac)

  -- The round over the last block, of which `d` are the bytes that count.
  last_block :
      (d tail ctr mac : List ℕ) (z : ℕ)
      → length d < 16
      → length d + z ≡ 16
      → Trips 1 d tail ctr mac z
  unfolding Trips crypt_blocks encrypt_block decrypt_block
  last_block d tail ctr mac z short full =
      let len = length d in
      let ks = key.ecb_encrypt ctr in
      let padded = d ++ replicate z 0 in
      let size : length padded ≡ 16 =
        omega (arith, length-append d (replicate z 0), length-replicate {A = ℕ} z 0) in
      let block = xorblock ks (take 16 padded) in
      let c = take len (block ++ drop 16 padded) ++ tail in
      let block_size : length block ≡ 16 =
        omega (arith, length-xorblock ks (take 16 padded), length-take 16 padded) in
      let front : take len (block ++ drop 16 padded) ≡ take len block =
        take-within len block (drop 16 padded) (omega arith) in
      let front_size : length (take len block) ≡ len = omega (arith, length-take len block) in
      let data_front : take len (take 16 c) ≡ take len block =
        take-take len 16 c (omega arith)
        ∙ ap (λ t. take len (t ++ tail)) front
        ∙ take-front len (take len block) tail front_size in
      let plain : take len (xorblock ks (take 16 c)) ≡ d =
        take-xorblock len ks (take 16 c)
        ∙ ap (xorblock ks) data_front
        ∙ sym (take-xorblock len ks block)
        ∙ ap (take len) (xorblock_twice ks (take 16 padded))
        ∙ take-take len 16 padded (omega arith)
        ∙ take-front len d (replicate z 0) refl in
      let room : len ≤ length (xorblock ks (take 16 c)) = omega (
        arith,
        length-xorblock ks (take 16 c),
        length-take 16 c,
        length-append (take len (block ++ drop 16 padded)) tail,
        ap length front,
      ) in
      let test : ltb len 16 ≡ true = ground arith in
      (
        take-within len (xorblock ks (take 16 c)) (drop 16 c) room ∙ plain,
        rw (test, plain)
            (ap (λ t. key.ecb_encrypt t)
              (sym (
                ap (λ t. xorblock t mac) (take-length 16 padded (omega arith))
                ∙ xorblock_padded d mac z))),
      )

  whole_block :
      (n : ℕ) (b d tail ctr mac : List ℕ) (z : ℕ)
      → length b ≡ 16
      → Trips n d tail (incblock ctr) (key.ecb_encrypt (xorblock b mac)) z
      → Trips (suc n) (b ++ d) tail ctr mac z
  unfolding Trips
  whole_block n b d tail ctr mac z h trip =
      let ks = key.ecb_encrypt ctr in
      let size : length (b ++ d) ≡ 16 + length d = omega (arith, length-append b d) in
      let mac' = key.ecb_encrypt (xorblock b mac) in
      let (e, m) = crypt_blocks key true n (length d) (d ++ replicate z 0) (incblock ctr) mac' in
      let xb = xorblock ks b in
      let xb_size : length xb ≡ 16 = length-xorblock ks b ∙ h in
      let sealed =
        ap (λ t. crypt_blocks key true (suc n) (16 + length d) t ctr mac)
          (append_assoc b d (replicate z 0))
        ∙ encrypt-full n (length d) b (d ++ replicate z 0) ctr mac h in
      let cut : take (16 + length d) (xb ++ e) ++ tail ≡ xb ++ (take (length d) e ++ tail) =
        ap (λ t. t ++ tail) (take-past 16 (length d) xb e xb_size)
        ∙ append_assoc xb (take (length d) e) tail in
      let back = decrypt-full n (length d) xb (take (length d) e ++ tail) ctr mac xb_size in
      let same : xorblock ks xb ≡ b = xorblock_twice ks b in
      rw (size, sealed, cut, back, same)
        (take-past 16 (length d) b _ h ∙ ap (λ t. b ++ t) trip.0, trip.1)

  no_block : (d tail ctr mac : List ℕ) (z : ℕ) → length d ≡ 0 → Trips 0 d tail ctr mac z
  unfolding Trips crypt_blocks
  no_block [] tail ctr mac z h = (refl, refl)
  no_block (x ∷ d) tail ctr mac z h = absurd (omega arith)

  next_block :
      (n : ℕ) (d tail ctr mac : List ℕ) (z : ℕ)
      → length d + z ≡ 16 * suc n
      → z < 16
      → ((c m : List ℕ) → length (drop 16 d) + z ≡ 16 * n → Trips n (drop 16 d) tail c m z)
      → Trips (suc n) d tail ctr mac z
  next_block n d tail ctr mac z full few ih = elim (Bool-cases (ltb (length d) 16)) [
    | inl short ↦
        let one : n ≡ 0 = ground arith in
        subst (λ k. Trips (suc k) d tail ctr mac z) (sym one)
          (last_block d tail ctr mac z (ground arith) (ground arith))
    | inr long ↦
        let first : length (take 16 d) ≡ 16 = ground (arith, length-take 16 d) in
        let left : length (drop 16 d) + z ≡ 16 * n = ground (arith, length-drop 16 d) in
        subst (λ t. Trips (suc n) t tail ctr mac z) (take-drop 16 d)
          (whole_block n (take 16 d) (drop 16 d) tail ctr mac z first (ih _ _ left))
  ]

  -- Encrypting the bytes of `d`, padded with zeros to whole blocks, and decrypting as many bytes of the
  -- result, whatever bytes follow them in the last block.
  blocks_trip :
      (n : ℕ) (d tail ctr mac : List ℕ) (z : ℕ)
      → length d + z ≡ 16 * n
      → z < 16
      → Trips n d tail ctr mac z
  blocks_trip zero d tail ctr mac z full few = no_block d tail ctr mac z (omega arith)
  blocks_trip (suc n) d tail ctr mac z full few =
      next_block n d tail ctr mac z full few
        (λ c m left. blocks_trip n (drop 16 d) tail c m z left few)

-- The number of bytes that fill the last block: `-len & (BLOCKSIZE - 1)`.
abbrev pub padding : ℕ → ℕ
padding len = (16 - len % 16) % 16

-- What `ctr_crypt` makes of data that is padded with zeros, cut off at its length and filled up with any
-- bytes, `ctr_crypt` decrypts to the data again, at the same position with the same counter, and the MAC
-- of the decryption is that of the encryption.
pub ctr_crypt_twice :
    (key : BlockCipher) (d tail iv : List ℕ) (pos : ℕ)
    → let (sealed, sealed_mac) =
        ctr_crypt key (d ++ replicate (padding (length d)) 0) (length d) pos iv true in
      let (back, back_mac) =
        ctr_crypt key (take (length d) sealed ++ tail) (length d) pos iv false in
      (take (length d) back ≡ d) × (back_mac ≡ sealed_mac)
unfolding ctr_crypt Trips
ctr_crypt_twice key d tail iv pos =
    blocks_trip key (rounds_of (length d)) d tail (start_counter iv pos) (iv ++ iv)
      (padding (length d)) (omega arith) (omega arith)
