-- ===== src/Chunks/Boundaries.antt =====
-- utils.cpp, ChunkedHash: `chunkfloor` and `chunkceil` cut a file into the same consecutive chunks.
use Prim.Native.Nat.{min}
use sdk.Prelude.{ℕ, zero, suc, ◌+◌, ◌-◌, ◌*◌, ◌%◌, ◌≤◌, ◌<◌, ◌≡◌, refl, sym, ◌∙◌, arith, dec_lt}
use sdk.Chunks.{segsize, chunkfloor_loop, chunkfloor, chunkceil_loop, chunkceil}

-- Where chunk number n begins, counted from 0: it is n + 1 segments long, and never more than eight.
abbrev pub chunk_start : ℕ → ℕ
chunk_start zero = 0
chunk_start (suc n) = chunk_start n + min (suc n) 8 * segsize

-- The chunk that holds the byte at `p` contains it, and is 1 to 8 whole segments long.
pub chunk_bounds :
    (p : ℕ)
    → (chunkfloor p ≤ p)
      × (p < chunkceil p)
      × (chunkfloor p + segsize ≤ chunkceil p)
      × (chunkceil p ≤ chunkfloor p + 8 * segsize)
      × (chunkfloor p % segsize ≡ 0)
      × (chunkceil p % segsize ≡ 0)
unfolding chunkfloor chunkfloor_loop chunkceil chunkceil_loop
chunk_bounds p = ground arith

abbrev eight_more : ℕ → ℕ
eight_more m = suc (suc (suc (suc (suc (suc (suc (suc m)))))))

chunk_start_late : (m : ℕ) → chunk_start (eight_more m) ≡ (36 + m * 8) * segsize
chunk_start_late zero = refl
chunk_start_late (suc m) = omega (arith, chunk_start_late m)

-- Behind the first eight chunks, that is from 36 segments on.
late_bounds :
    (p : ℕ)
    → 36 * segsize ≤ p
    → (chunkfloor p ≡ p - 36 * segsize - (p - 36 * segsize) % (8 * segsize) + 36 * segsize)
      × (chunkceil p ≡ chunkfloor p + 8 * segsize)
unfolding chunkfloor chunkfloor_loop chunkceil chunkceil_loop
late_bounds p h = ground arith

late_multiple :
    (m r : ℕ)
    → m * 8 * segsize ≤ r
    → r < (m + 1) * 8 * segsize
    → r - r % (8 * segsize) ≡ m * 8 * segsize
late_multiple m r lo hi = omega arith

abbrev IsChunk : ℕ → ℕ → Type 0
IsChunk n p = (chunkfloor p ≡ chunk_start n) × (chunkceil p ≡ chunk_start (suc n))

late-IsChunk :
    (m p : ℕ)
    → (36 + m * 8) * segsize ≤ p
    → p < (36 + suc m * 8) * segsize
    → IsChunk (eight_more m) p
late-IsChunk m p lo hi =
    let (f, c) = late_bounds p (omega arith) in
    let e = late_multiple m (p - 36 * segsize) (omega arith) (omega arith) in
    (omega (arith, f, e, chunk_start_late m), omega (arith, f, c, e, chunk_start_late (suc m)))

-- The loops find chunk n for every byte in it.
IsChunk-of_mem : (n p : ℕ) → chunk_start n ≤ p → p < chunk_start (suc n) → IsChunk n p
unfolding chunkfloor chunkfloor_loop chunkceil chunkceil_loop
IsChunk-of_mem zero p lo hi = ground arith
IsChunk-of_mem (suc zero) p lo hi = ground arith
IsChunk-of_mem (suc (suc zero)) p lo hi = ground arith
IsChunk-of_mem (suc (suc (suc zero))) p lo hi = ground arith
IsChunk-of_mem (suc (suc (suc (suc zero)))) p lo hi = ground arith
IsChunk-of_mem (suc (suc (suc (suc (suc zero))))) p lo hi = ground arith
IsChunk-of_mem (suc (suc (suc (suc (suc (suc zero)))))) p lo hi = ground arith
IsChunk-of_mem (suc (suc (suc (suc (suc (suc (suc zero))))))) p lo hi = ground arith
IsChunk-of_mem (suc (suc (suc (suc (suc (suc (suc (suc m)))))))) p lo hi =
    late-IsChunk m p (rw (chunk_start_late m) at lo) (rw (chunk_start_late (suc m)) at hi)

chunk_containing : (p : ℕ) → (n : ℕ) × (chunk_start n ≤ p) × (p < chunk_start (suc n))
chunk_containing zero = (0, omega arith, omega arith)
chunk_containing (suc p) =
    let (n, lo, hi) = chunk_containing p in
    elim (dec_lt (suc p) (chunk_start (suc n))) [
      | yes h ↦ (n, omega arith, h)
      | no h ↦ (suc n, omega arith, omega arith)
    ]

-- Every position lies in one of the chunks that `chunk_start` lists, and `chunkfloor` and
-- `chunkceil` are that chunk's start and the start of the next one.
pub chunk_located :
    (p : ℕ)
    → (n : ℕ) × (chunk_start n ≤ p)
      × (p < chunk_start (suc n))
      × (chunkfloor p ≡ chunk_start n)
      × (chunkceil p ≡ chunk_start (suc n))
chunk_located p =
    let (n, lo, hi) = chunk_containing p in
    let (f, c) = IsChunk-of_mem n p lo hi in (n, lo, hi, f, c)

-- All bytes of a chunk have the same chunk, and the end of a chunk is the start of the next one.
pub chunk_partition :
    (p q : ℕ)
    → chunkfloor p ≤ q
    → q < chunkceil p
    → (chunkfloor q ≡ chunkfloor p)
      × (chunkceil q ≡ chunkceil p)
      × (chunkfloor (chunkceil p) ≡ chunkceil p)
chunk_partition p q lo hi =
    let (n, _, _, f, c) = chunk_located p in
    let (f', c') = IsChunk-of_mem n q (omega arith) (omega arith) in
    let (f'', _) = IsChunk-of_mem (suc n) (chunkceil p) (omega arith) (omega arith) in
    (f' ∙ sym f, c' ∙ sym c, f'' ∙ sym c)
