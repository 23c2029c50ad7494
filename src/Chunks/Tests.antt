-- ===== src/Chunks/Tests.antt =====
-- utils.cpp, ChunkedHash: concrete runs, and the theorems at concrete inputs.
use sdk.Prelude.{ℕ, suc, ◌≡◌, ◌<◌, ◌≤◌, refl, arith}
use sdk.Chunks.{chunkfloor_loop, chunkfloor, chunkceil_loop, chunkceil}
use sdk.Chunks.Boundaries.{chunk_start, chunk_located}

third_chunk : chunkceil 500_000 ≡ 786_432
unfolding chunkceil chunkceil_loop
third_chunk = refl

late_chunk_start : chunkfloor 10_000_000 ≡ 9_961_472
unfolding chunkfloor chunkfloor_loop
late_chunk_start = refl

chunk_located_example :
    (n : ℕ) × (chunk_start n ≤ 500_000)
    × (500_000 < chunk_start (suc n))
    × (chunkfloor 500_000 ≡ chunk_start n)
    × (chunkceil 500_000 ≡ chunk_start (suc n))
chunk_located_example = chunk_located 500_000

in_third_chunk : (chunkfloor 500_000 ≤ 400_000) × (400_000 < chunkceil 500_000)
unfolding chunkfloor chunkfloor_loop chunkceil chunkceil_loop
in_third_chunk = omega arith
