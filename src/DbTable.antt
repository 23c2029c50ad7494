-- ===== src/DbTable.antt =====
-- src/db.cpp, DbTable: encrypted records over a key-value store (SQLite or Berkeley DB), and the
-- allocation of their identifiers.
pub mod Records
pub mod Allocation
pub mod Memory
mod Tests
use sdk.Prelude.{
  ℕ, zero, suc, ◌+◌, ◌-◌, ◌%◌, ◌≡◌, ◌≢◌, List, [], ◌∷◌, Bool, true, false, Option, none, some, ltb,
  ◌==◌, if◌then◌else◌, bit_or, u32,
}
use sdk.Crypto.{SymmCipher}
use sdk.PaddedCbc.{encrypt, decrypt}

-- DbTable::IDSPACING
abbrev pub idspacing : ℕ
idspacing = 16

-- The store behind the virtual functions: a `put` that succeeds is what `get` finds under that index,
-- and touches no other index.
pub record Backend : Type 1 where
  pub State : Type 0
  pub put : State → ℕ → List ℕ → Bool × State
  pub get : State → ℕ → Option (List ℕ)
  pub get-put_self :
      (s : State) (index : ℕ) (d : List ℕ)
      → (put s index d).0 ≡ true
      → get (put s index d).1 index ≡ some d
  pub get-put_other :
      (s : State) (index other : ℕ) (d : List ℕ)
      → other ≢ index
      → get (put s index d).1 other ≡ get s other

-- A Cachable: its identifier, 0 before it is stored, and what its `serialize` returns (`none` for
-- failure).
pub record Cachable : Type 0 where
  pub dbid : ℕ
  pub serialized : Option (List ℕ)

-- `(nextid += IDSPACING) | type`: the new `nextid` and the identifier.
pub new_id : ℕ → ℕ → ℕ × ℕ
new_id nextid type = let nextid' = u32 (nextid + idspacing) in (nextid', bit_or nextid' type)

-- `*type & - IDSPACING`
abbrev pub mask_id : ℕ → ℕ
mask_id id = id - id % idspacing

-- The effect of `next` on `nextid` for a record that is stored under `id`.
pub seen_id : ℕ → ℕ → ℕ
seen_id nextid id = if id == 0 then nextid else if ltb nextid id then mask_id id else nextid

-- DbTable::next on the next row of the store, if there is one: success, the identifier, the data
-- and `nextid`. The record under 0 (the sequence number) is not encrypted.
pub next : SymmCipher → ℕ → Option (ℕ × List ℕ) → (Bool × ℕ × List ℕ) × ℕ
next key nextid none = ((false, 0, []), nextid)
next key nextid (some (id, d)) =
    if id == 0
    then ((true, id, d), seen_id nextid id)
    else let (done, plain) = decrypt key d in ((done, id, plain), seen_id nextid id)

pub record Table (State : Type 0) : Type 0 where
  pub nextid : ℕ
  pub store : State

-- `if (!record->dbid) record->dbid = ...`: the record and `nextid`.
pub assign_id : ℕ → Cachable → ℕ → Cachable × ℕ
assign_id type r nextid =
    let (nextid', id) = new_id nextid type in
    if r.dbid == 0 then (record r { dbid = id }, nextid') else (r, nextid)

-- DbTable::put for a Cachable: the result, the record (which may get an identifier) and the table. A
-- record that cannot be serialized makes it `return -1`, which is `true` as a `bool`.
pub put :
    (b : Backend) → SymmCipher → ℕ → Cachable → Table b.State → Bool × Cachable × Table b.State
put b key type r t = elim r.serialized [
  | none ↦ (true, r, t)
  | some d ↦
      let (r', nextid') = assign_id type r t.nextid in
      let (done, store') = b.put t.store r'.dbid (encrypt key d) in
      (done, r', record { nextid = nextid'; store = store' })
]

-- Reading the whole table: `nextid` after `next` has seen the records under these identifiers.
pub load_ids : ℕ → List ℕ → ℕ
load_ids nextid [] = nextid
load_ids nextid (id ∷ ids) = load_ids (seen_id nextid id) ids
