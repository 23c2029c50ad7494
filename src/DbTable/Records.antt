-- ===== src/DbTable/Records.antt =====
-- db.cpp: what `put` stores, and that it can be read back.
use sdk.Prelude.{ℕ, ◌≡◌, ◌≢◌, arith, List, true, some}
use sdk.Crypto.{SymmCipher}
use sdk.PaddedCbc.{encrypt}
use sdk.PaddedCbc.RoundTrip.{decrypt-encrypt}
use sdk.DbTable.{Backend, Cachable, Table, assign_id, put, next}

module _ (b : Backend) (key : SymmCipher) where
  -- If `put` reports success for a record that can be serialized, and the identifier that the record
  -- has then is not 0, the row under this identifier, read by `next`, is the serialization again; the
  -- rows under all other identifiers are what they were.
  pub next-put :
      (type nextid other : ℕ) (r : Cachable) (t : Table b.State) (d : List ℕ)
      → r.serialized ≡ some d
      → (put b key type r t).0 ≡ true
      → (put b key type r t).1.dbid ≢ 0
      → let id = (put b key type r t).1.dbid in
        let store' = (put b key type r t).2.store in
        (row : List ℕ) × (b.get store' id ≡ some row)
        × ((next key nextid (some (id, row))).0 ≡ (true, id, d))
        × (other ≢ id → b.get store' other ≡ b.get t.store other)
  unfolding put next
  next-put type nextid other r t d ser done pos =
      let id = (assign_id type r t.nextid).0.dbid in
      let stored = encrypt key d in
      let same = b.get-put_self t.store id stored in
      let others = b.get-put_other t.store id other stored in
      (stored, ground (arith, same), ground (arith, decrypt-encrypt key d), ground (arith, others))

  -- Where the store takes everything, the row under the identifier is the encrypted serialization.
  pub put-get :
      (type dbid other : ℕ) (d : List ℕ) (t : Table b.State)
      → ((st : b.State) (index : ℕ) (x : List ℕ) → (b.put st index x).0 ≡ true)
      → let r = put b key type (record { dbid = dbid; serialized = some d }) t in
        (b.get r.2.store r.1.dbid ≡ some (encrypt key d))
        × (other ≢ r.1.dbid → b.get r.2.store other ≡ b.get t.store other)
  unfolding put
  put-get type dbid other d t takes =
      let id = (assign_id type (record { dbid = dbid; serialized = some d }) t.nextid).0.dbid in
      (
        b.get-put_self t.store id (encrypt key d) (takes t.store id (encrypt key d)),
        b.get-put_other t.store id other (encrypt key d),
      )
