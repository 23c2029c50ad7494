-- ===== src/FileKey.antt =====
-- The key of a file node: src/transferslot.cpp, where an upload makes it from the key, the counter and the
-- MAC of the file; src/crypto/cryptopp.cpp, SymmCipher::setkey, and src/megaclient.cpp,
-- MegaClient::dispatch, where a download takes them out of it again.
mod Tests
use sdk.Prelude.{
  ℕ, ◌≡◌, ◌∙◌, refl, sym, ap, ap₂, arith, List, ◌++◌, Bool, true, false, if◌then◌else◌, take, drop,
  length, length-append, take-length,
}
use mathlib.Core.List.{append_assoc}
use sdk.Cipher.{xorblock}
use sdk.Cipher.Blocks.{xorblock_twice, length-xorblock, take-front, drop-front}

-- `transfer->filekey`, at a completed upload.
pub filekey : List ℕ → List ℕ → List ℕ → List ℕ
filekey key ctriv mac =
    let raw = key ++ (ctriv ++ mac) in xorblock (drop 16 raw) (take 16 raw) ++ drop 16 raw

-- SymmCipher::setkey: the key of sixteen bytes. The key of a file node (`type` is 0) is folded.
pub setkey : List ℕ → Bool → List ℕ
setkey newkey folded = if folded then xorblock (drop 16 newkey) (take 16 newkey) else take 16 newkey

-- What `dispatch` takes from the key of a file: the key, `ctriv` and `metamac`.
pub unpack_key : List ℕ → List ℕ × List ℕ × List ℕ
unpack_key k = (setkey k true, take 8 (drop 16 k), take 8 (drop 24 k))

-- A download gets the key, the counter and the MAC back from the key that the upload made of them, of
-- sixteen, eight and eight bytes.
pub unpack_key-filekey :
    (key ctriv mac : List ℕ)
    → length key ≡ 16
    → length ctriv ≡ 8
    → length mac ≡ 8
    → unpack_key (filekey key ctriv mac) ≡ (key, ctriv, mac)
unfolding unpack_key setkey filekey
unpack_key-filekey key ctriv mac h k l =
    let tail = ctriv ++ mac in
    let folded = xorblock tail key in
    let size : length folded ≡ 16 = length-xorblock tail key ∙ h in
    let both : length (folded ++ ctriv) ≡ 24 = omega (arith, length-append folded ctriv) in
    let end : take 8 mac ≡ mac = take-length 8 mac (omega arith) in
    rw (take-front 16 key tail h, drop-front 16 key tail h)
      (rw (take-front 16 folded tail size, drop-front 16 folded tail size)
        (rw (xorblock_twice tail key, take-front 8 ctriv mac k)
          (ap (λ t. (key, ctriv, take 8 (drop 24 t))) (sym (append_assoc folded ctriv mac))
            ∙ rw (drop-front 24 (folded ++ ctriv) mac both, end) refl)))
