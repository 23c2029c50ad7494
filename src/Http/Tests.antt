-- ===== src/Http/Tests.antt =====
-- http.cpp: concrete runs, and the theorems at concrete inputs.
use sdk.Prelude.{ℕ, List, [], ◌∷◌}
use sdk.Int.{pos}
use sdk.Http.{post}
use sdk.Http.Receiving.{put_all, joined, fixed, HasReceived, put_all-received}

-- Two pieces, together longer than the buffer.
abbrev pieces : List (List ℕ)
pieces = (1 ∷ 2 ∷ []) ∷ (3 ∷ 4 ∷ []) ∷ []

put_all-received_example :
    HasReceived 3 (joined pieces) (put_all pieces (post (fixed (0 ∷ 0 ∷ 0 ∷ []) 3 2 [] (pos 9))))
put_all-received_example = put_all-received pieces (0 ∷ 0 ∷ 0 ∷ []) [] 2 (pos 9)
