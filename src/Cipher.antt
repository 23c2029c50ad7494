-- ===== src/Cipher.antt =====
-- src/crypto/cryptopp.cpp, SymmCipher: the counter mode with a MAC, in which the chunks of a file are
-- encrypted, over the encryption of single blocks, which is the library's. A block is its sixteen bytes.
pub mod Blocks
pub mod Counter
pub mod RoundTrip
pub mod Seeking
pub mod ShiftKey
mod Tests
use sdk.Prelude.{
  ℕ, zero, suc, ◌+◌, ◌-◌, ◌*◌, ◌/◌, ◌%◌, ◌^◌, ◌≡◌, ◌<◌, List, [], ◌∷◌, ◌++◌, Bool, true, false, All,
  IsByte, ltb, if◌then◌else◌, take, drop, length, replicate, bit_xor, u8, u64,
}
use sdk.Crypto.{blocksize}

-- AES in ECB mode under one key, on one block.
pub record BlockCipher : Type 0 where
  pub ecb_encrypt : List ℕ → List ℕ

-- SymmCipher::xorblock(src, dst), and with a third argument on the first bytes of `src` only.
pub xorblock : List ℕ → List ℕ → List ℕ
xorblock [] dst = dst
xorblock (s ∷ src) [] = []
xorblock (s ∷ src) (d ∷ dst) = bit_xor d s ∷ xorblock src dst

-- The lowest `n` bytes of a number, the highest first.
pub high_first : ℕ → ℕ → List ℕ
high_first zero v = []
high_first (suc n) v = v / 2 ^ (8 * n) % 2 ^ 8 ∷ high_first n v

-- SymmCipher::setint64 on a little-endian machine: the eight bytes of a number, the highest first.
pub setint64 : ℕ → List ℕ
setint64 value = high_first 8 value

-- SymmCipher::incblock. The second result is whether the loop is still running behind these bytes,
-- which it reaches from the last one on.
pub inc_from : List ℕ → List ℕ × Bool
inc_from [] = ([], true)
inc_from (b ∷ bs) =
    let (rest, carry) = inc_from bs in
    if carry
    then (u8 (b + 1) ∷ rest, if ltb 0 (u8 (b + 1)) then false else true)
    else (b ∷ rest, false)

pub incblock : List ℕ → List ℕ
incblock dst = (inc_from dst).0

-- One round of the loop of `ctr_crypt` for encryption, and for decryption: the block and the MAC.
pub encrypt_block : BlockCipher → List ℕ → List ℕ → List ℕ → List ℕ × List ℕ
encrypt_block key bytes ctr mac =
    (xorblock (key.ecb_encrypt ctr) bytes, key.ecb_encrypt (xorblock bytes mac))

pub decrypt_block : BlockCipher → ℕ → List ℕ → List ℕ → List ℕ → List ℕ × List ℕ
decrypt_block key len bytes ctr mac =
    let plain = xorblock (key.ecb_encrypt ctr) bytes in
    let hashed = if ltb len blocksize then take len plain else plain in
    (plain, key.ecb_encrypt (xorblock hashed mac))

-- The loop of `ctr_crypt`, with its rounds: the data and the MAC.
pub crypt_blocks : BlockCipher → Bool → ℕ → ℕ → List ℕ → List ℕ → List ℕ → List ℕ × List ℕ
crypt_blocks key encrypt zero len bytes ctr mac = (bytes, mac)
crypt_blocks key encrypt (suc rounds) len bytes ctr mac =
    let block = take blocksize bytes in
    let (done, mac') =
      if encrypt then encrypt_block key block ctr mac else decrypt_block key len block ctr mac in
    let (rest, mac'') =
      crypt_blocks key encrypt rounds (len - blocksize) (drop blocksize bytes) (incblock ctr)
        mac' in
    (done ++ rest, mac'')

-- `while ((int)len > 0)` with `len -= BLOCKSIZE` in each round.
abbrev pub rounds_of : ℕ → ℕ
rounds_of len = (len + (blocksize - 1)) / blocksize

-- The counter that `ctr_crypt` starts with; `iv` are the eight bytes of `ctriv`.
pub start_counter : List ℕ → ℕ → List ℕ
start_counter iv pos = iv ++ setint64 (pos / blocksize)

-- SymmCipher::ctr_crypt: what it makes of `data`, and the MAC.
pub ctr_crypt : BlockCipher → List ℕ → ℕ → ℕ → List ℕ → Bool → List ℕ × List ℕ
ctr_crypt key bytes len pos iv encrypt =
    crypt_blocks key encrypt (rounds_of len) len bytes (start_counter iv pos) (iv ++ iv)
