-- ===== src/Chunks.antt =====
-- src/utils.cpp, ChunkedHash: the boundaries of the chunks in which a file is transferred and
-- MACed. The first eight chunks have 1, 2, ... 8 segments of 128 KB, all others eight.
pub mod Boundaries
mod Tests
use sdk.Prelude.{ℕ, zero, suc, ◌+◌, ◌-◌, ◌*◌, ◌/◌, ◌%◌, ◌^◌, ltb, leb, if◌then◌else◌, ◌&&◌}

-- ChunkedHash::SEGSIZE
abbrev pub segsize : ℕ
segsize = 131072

-- `p & - (8 * SEGSIZE)`, for `p` from 0 on.
abbrev floor_mask : ℕ → ℕ
floor_mask p = p - p % (8 * segsize)

-- The loop of `chunkfloor`: `left` of its eight rounds are left, `i` is its counter.
chunkfloor_loop : ℕ → ℕ → ℕ → ℕ → ℕ
chunkfloor_loop zero i cp p = floor_mask (p - cp) + cp
chunkfloor_loop (suc left) i cp p =
    let np = cp + i * segsize in
    let rest = chunkfloor_loop left (i + 1) np p in if leb cp p && ltb p np then cp else rest

-- ChunkedHash::chunkfloor, the start of the chunk that `p` lies in.
pub chunkfloor : ℕ → ℕ
chunkfloor p = chunkfloor_loop 8 1 0 p

chunkceil_loop : ℕ → ℕ → ℕ → ℕ → ℕ
chunkceil_loop zero i cp p = floor_mask (p - cp) + cp + 8 * segsize
chunkceil_loop (suc left) i cp p =
    let np = cp + i * segsize in
    let rest = chunkceil_loop left (i + 1) np p in if leb cp p && ltb p np then np else rest

-- ChunkedHash::chunkceil, the end of the chunk that `p` lies in.
pub chunkceil : ℕ → ℕ
chunkceil p = chunkceil_loop 8 1 0 p
