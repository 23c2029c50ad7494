-- ===== src/FileChunks.antt =====
-- src/http.cpp, HttpReqUL and HttpReqDL: one chunk of a file, encrypted and sent, or received, decrypted
-- and written; and src/transferslot.cpp, TransferSlot::macsmac: the MAC of the file.
pub mod OneChunk
pub mod AnyOrder
mod Tests
use sdk.Prelude.{
  ℕ, zero, suc, ◌+◌, ◌-◌, ◌%◌, List, [], ◌∷◌, ◌++◌, Bool, true, false, not, ◌&&◌, Option, none,
  some, ltb, leb, ◌==◌, if◌then◌else◌, take, drop, length, replicate,
}
use sdk.Int.{ℤ, pos, negsuc}
use sdk.Cipher.{BlockCipher, xorblock, ctr_crypt}
use sdk.Cipher.RoundTrip.{padding}
use sdk.FileIo.{FileAccess, fread}

-- `chunkmac_map`: the MACs of the chunks in ascending order of their positions.
abbrev pub ChunkMacs : Type 0
ChunkMacs = List (ℕ × List ℕ)

-- `memcpy((*macs)[pos].mac, mac, sizeof mac)`
pub set_mac : ℕ → List ℕ → ChunkMacs → ChunkMacs
set_mac at mac [] = (at, mac) ∷ []
set_mac at mac ((p, m) ∷ macs) =
    let rest = set_mac at mac macs in
    if at == p
    then (at, mac) ∷ macs
    else if ltb at p
    then (at, mac) ∷ (p, m) ∷ macs
    else (p, m) ∷ rest

-- HttpReqUL::prepare: the data to post and the MACs, or `none` if the file cannot be read.
pub prepare_upload :
    BlockCipher → List ℕ → FileAccess → ChunkMacs → ℕ → ℕ → Option (List ℕ × ChunkMacs)
prepare_upload key iv fa macs at npos =
    let size = npos - at in
    elim (fread fa size (padding size) at) [
      | none ↦ none
      | some out ↦
          let (sealed, mac) = ctr_crypt key out size at iv true in
          some (take size sealed, set_mac at mac macs)
    ]

-- A HttpReqDL: the position of its chunk, the size of the chunk and the buffer, of which the first
-- `bufpos` bytes were received.
pub record Download : Type 0 where
  pub dlpos : ℕ
  pub size : ℕ
  pub buf : List ℕ
  pub buflen : ℕ
  pub bufpos : ℕ

-- HttpReqDL::prepare. A buffer that is allocated anew, at whole blocks, holds whatever the memory holds.
unfoldable pub prepare_download : (ℕ → List ℕ) → ℕ → ℕ → Download → Download
prepare_download memory at npos r =
    let size = npos - at in
    if r.buflen == size && not (length r.buf == 0)
    then record r { dlpos = at; size = size }
    else record r { dlpos = at; size = size; buf = memory (size + padding size); buflen = size }

-- `skip` and `prune` of `finalize`.
pub margins : ℕ → ℤ → Download → ℕ × ℕ
margins startpos (negsuc n) r = (0, 0)
margins startpos (pos endpos) r = (
  (if ltb r.dlpos startpos then startpos - r.dlpos else 0),
  (if ltb endpos (r.dlpos + r.bufpos) then r.dlpos + r.bufpos - endpos else 0),
)

-- HttpReqDL::finalize: what is written to the file and at which position, and the MACs. An `endpos` of
-- -1 says that the whole chunk is wanted.
pub finalize : BlockCipher → List ℕ → ChunkMacs → ℕ → ℤ → Download → (List ℕ × ℕ) × ChunkMacs
finalize key iv macs startpos endpos r =
    let (plain, mac) = ctr_crypt key r.buf r.bufpos r.dlpos iv false in
    let (skip, prune) = margins startpos endpos r in
    ((take (r.bufpos - skip - prune) (drop skip plain), r.dlpos + skip), set_mac r.dlpos mac macs)

-- The loop of TransferSlot::macsmac.
pub chain : BlockCipher → List ℕ → ChunkMacs → List ℕ
chain key mac [] = mac
chain key mac ((p, m) ∷ macs) = chain key (key.ecb_encrypt (xorblock m mac)) macs

-- TransferSlot::macsmac: the eight bytes of the result. The map is cleared.
pub macsmac : BlockCipher → ChunkMacs → List ℕ × ChunkMacs
macsmac key macs =
    let mac = chain key (replicate 16 0) macs in
    (
      xorblock (take 4 (drop 4 mac)) (take 4 mac)
          ++ xorblock (take 4 (drop 12 mac)) (take 4 (drop 8 mac)),
      [],
    )
