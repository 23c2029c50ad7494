-- ===== src/FileChunks/OneChunk.antt =====
-- http.cpp: what one side sends of a chunk, the other side writes, with the same MAC.
use sdk.Prelude.{ℕ, ◌+◌, ◌-◌, ◌≡◌, refl, ap, arith, List, ◌++◌, true, some, take, length, replicate}
use sdk.Int.{negsuc}
use sdk.Cipher.{BlockCipher, ctr_crypt}
use sdk.Cipher.RoundTrip.{padding, ctr_crypt_twice}
use sdk.FileIo.{FileAccess, openf, fread_open}
use sdk.FileChunks.{ChunkMacs, set_mac, prepare_upload, Download, margins, finalize}

module _ (key : BlockCipher) (iv : List ℕ) where
  -- A chunk as it is sent, and its MAC.
  abbrev pub sealed : ℕ → List ℕ → List ℕ
  sealed at d =
      take (length d)
        (ctr_crypt key (d ++ replicate (padding (length d)) 0) (length d) at iv true).0

  abbrev pub sealed_mac : ℕ → List ℕ → List ℕ
  sealed_mac at d = (ctr_crypt key (d ++ replicate (padding (length d)) 0) (length d) at iv true).1

  -- A download that has received all of a chunk, in a buffer with any bytes behind them.
  abbrev pub received : ℕ → List ℕ → List ℕ → Download
  received at d tail = record {
    dlpos = at;
    size = length d;
    buf = sealed at d ++ tail;
    buflen = length d;
    bufpos = length d;
  }

  prepare_upload-sealed :
      (fa : FileAccess) (macs : ChunkMacs) (at npos : ℕ) (d : List ℕ)
      → openf fa ≡ true
      → fa.sysread (npos - at) at ≡ some d
      → length d ≡ npos - at
      → prepare_upload key iv fa macs at npos
        ≡ some (sealed at d, set_mac at (sealed_mac at d) macs)
  unfolding prepare_upload
  prepare_upload-sealed fa macs at npos d opens bytes size =
      rw (fread_open fa (npos - at) (padding (npos - at)) at d opens bytes, prepare_upload)
        (rw (← size) refl)

  pub finalize-received :
      (macs : ChunkMacs) (at : ℕ) (d tail : List ℕ)
      → finalize key iv macs 0 (negsuc 0) (received at d tail)
        ≡ ((d, at), set_mac at (sealed_mac at d) macs)
  unfolding finalize margins
  finalize-received macs at d tail =
      let (back, mac) = ctr_crypt_twice key d tail iv at in
      let whole : length d - 0 - 0 ≡ length d = omega arith in
      let there : at + 0 ≡ at = omega arith in
      rw (whole, there, mac) (ap (λ t. ((t, at), set_mac at (sealed_mac at d) macs)) back)

  -- A chunk that is read from a file, encrypted, sent and received as a whole is decrypted to the bytes
  -- of the file and written at the same position, and both sides note the same MAC at that position.
  pub finalize-prepare_upload :
      (fa : FileAccess) (macs macs' : ChunkMacs) (at npos : ℕ) (d tail : List ℕ)
      → openf fa ≡ true
      → fa.sysread (npos - at) at ≡ some d
      → length d ≡ npos - at
      → (prepare_upload key iv fa macs at npos
          ≡ some (sealed at d, set_mac at (sealed_mac at d) macs))
        × (finalize key iv macs' 0 (negsuc 0) (received at d tail)
            ≡ ((d, at), set_mac at (sealed_mac at d) macs'))
  finalize-prepare_upload fa macs macs' at npos d tail opens bytes size =
      (prepare_upload-sealed fa macs at npos d opens bytes size, finalize-received macs' at d tail)
