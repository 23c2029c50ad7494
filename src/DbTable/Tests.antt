-- ===== src/DbTable/Tests.antt =====
-- db.cpp: the theorems at concrete inputs.
use sdk.Prelude.{
  ℕ, ◌+◌, ◌^◌, ◌%◌, ◌≡◌, ◌≢◌, ◌<◌, refl, arith, List, [], ◌∷◌, true, Option, none, some, All,
}
use sdk.Crypto.ShiftCipher.{shift_cipher}
use sdk.DbTable.{Cachable, Table, idspacing, new_id, assign_id, put, next, seen_id, load_ids}
use sdk.DbTable.Memory.{memory}
use sdk.DbTable.Records.{next-put}
use sdk.DbTable.Allocation.{new_id-fresh}

abbrev user : Cachable
user = record { dbid = 0; serialized = some (1 ∷ 2 ∷ 3 ∷ []) }

abbrev empty : Table (ℕ → Option (List ℕ))
empty = record { nextid = 32; store = λ _. none }

stored_id : (put memory shift_cipher 2 user empty).1.dbid ≡ 50
unfolding put assign_id new_id
stored_id = refl

stored : (put memory shift_cipher 2 user empty).0 ≡ true
unfolding put
stored = refl

next-put_example :
    let id = (put memory shift_cipher 2 user empty).1.dbid in
    let store' = (put memory shift_cipher 2 user empty).2.store in
    (row : List ℕ) × (memory.get store' id ≡ some row)
    × ((next shift_cipher 0 (some (id, row))).0 ≡ (true, id, 1 ∷ 2 ∷ 3 ∷ []))
    × (7 ≢ id → memory.get store' 7 ≡ none)
next-put_example =
    next-put memory shift_cipher 2 0 7 user empty (1 ∷ 2 ∷ 3 ∷ []) refl stored
      (omega (arith, stored_id))

loaded : load_ids 0 (17 ∷ 50 ∷ 33 ∷ []) + idspacing < 2 ^ 32
unfolding load_ids seen_id
loaded = omega arith

new_id-fresh_example :
    All (λ id. id < (new_id (load_ids 0 (17 ∷ 50 ∷ 33 ∷ [])) 1).1) (17 ∷ 50 ∷ 33 ∷ [])
    × ((new_id (load_ids 0 (17 ∷ 50 ∷ 33 ∷ [])) 1).1 % idspacing ≡ 1)
    × ((new_id (load_ids 0 (17 ∷ 50 ∷ 33 ∷ [])) 1).1 ≢ 0)
new_id-fresh_example = new_id-fresh (17 ∷ 50 ∷ 33 ∷ []) 1 (omega arith) loaded
