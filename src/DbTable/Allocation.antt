-- ===== src/DbTable/Allocation.antt =====
-- db.cpp: the identifiers that `put` hands out.
use sdk.Prelude.{
  ℕ, ◌+◌, ◌*◌, ◌/◌, ◌%◌, ◌^◌, ◌<◌, ◌≤◌, ◌≡◌, ◌≢◌, arith, List, [], ◌∷◌, Bool, true, false, some,
  ◌==◌, if◌then◌else◌, bit_or_field, bit_or_halves, u32, All, refl,
}
use sdk.Crypto.{SymmCipher}
use sdk.DbTable.{Backend, Cachable, Table, assign_id, put, idspacing, new_id, seen_id, load_ids}

-- `nextid` is always a multiple of the spacing, and what was seen lies below the next one.
seen_id-aligned : (nextid id : ℕ) → nextid % idspacing ≡ 0 → seen_id nextid id % idspacing ≡ 0
unfolding seen_id
seen_id-aligned nextid id h = ground arith

load_ids-aligned :
    (nextid : ℕ) (ids : List ℕ) → nextid % idspacing ≡ 0 → load_ids nextid ids % idspacing ≡ 0
unfolding load_ids
load_ids-aligned nextid [] h = h
load_ids-aligned nextid (id ∷ ids) h =
    load_ids-aligned (seen_id nextid id) ids (seen_id-aligned nextid id h)

seen_id-le :
    (nextid id : ℕ)
    → nextid % idspacing ≡ 0
    → (nextid ≤ seen_id nextid id) × (id < seen_id nextid id + idspacing)
unfolding seen_id
seen_id-le nextid id h = ground arith

load_ids-ge :
    (nextid : ℕ) (ids : List ℕ)
    → nextid % idspacing ≡ 0
    → (nextid ≤ load_ids nextid ids) × All (λ id. id < load_ids nextid ids + idspacing) ids
unfolding load_ids
load_ids-ge nextid [] h = (omega arith, tt)
load_ids-ge nextid (id ∷ ids) h =
    let (up, seen) = seen_id-le nextid id h in
    let (ge, all) = load_ids-ge (seen_id nextid id) ids (seen_id-aligned nextid id h) in
    (omega arith, (omega arith, all))

All-mono : (m n : ℕ) (ids : List ℕ) → m ≤ n → All (λ id. id < m) ids → All (λ id. id < n) ids
All-mono m n [] h a = tt
All-mono m n (id ∷ ids) h a = (omega arith, All-mono m n ids h a.1)

new_id_lem :
    (nextid type : ℕ)
    → nextid % idspacing ≡ 0
    → nextid + idspacing < 2 ^ 32
    → type < idspacing
    → (new_id nextid type).1 ≡ nextid + idspacing + type
unfolding new_id
new_id_lem nextid type al fits small =
    let q = (nextid + idspacing) / 16 in
    let whole : u32 (nextid + idspacing) ≡ q * 2 ^ 4 = omega arith in
    rw (whole, bit_or_field 4 q type small) (omega arith)

new_id-nextid :
    (nextid type : ℕ) → nextid + idspacing < 2 ^ 32 → (new_id nextid type).0 ≡ nextid + idspacing
unfolding new_id
new_id-nextid nextid type fits = omega arith

-- After the whole table was read (`ids` are the identifiers of its records), the identifier of a new
-- record is above all of them, so it overwrites none, and its low four bits are the record's type.
-- Conditions: the type is below 16 and the counter does not pass 2 ^ 32.
pub new_id-fresh :
    (ids : List ℕ) (type : ℕ)
    → type < idspacing
    → load_ids 0 ids + idspacing < 2 ^ 32
    → All (λ id. id < (new_id (load_ids 0 ids) type).1) ids
      × ((new_id (load_ids 0 ids) type).1 % idspacing ≡ type)
      × ((new_id (load_ids 0 ids) type).1 ≢ 0)
new_id-fresh ids type small fits =
    let n = load_ids 0 ids in
    let al = load_ids-aligned 0 ids (omega arith) in
    let e = new_id_lem n type al fits small in
    (
      All-mono (n + idspacing) (new_id n type).1 ids (omega arith)
          (load_ids-ge 0 ids (omega arith)).1,
      omega arith,
      omega arith,
    )

new_id-set : (nextid type : ℕ) → type % 2 ≡ 1 → (new_id nextid type).1 ≢ 0
unfolding new_id
new_id-set nextid type odd none =
    let low = bit_or_halves (u32 (nextid + idspacing)) type in omega (arith, low, none, odd)

-- A record that was stored has an identifier.
pub put-dbid :
    (b : Backend) (key : SymmCipher) (type dbid : ℕ) (d : List ℕ) (t : Table b.State)
    → type % 2 ≡ 1
    → (put b key type (record { dbid = dbid; serialized = some d }) t).1.dbid ≢ 0
unfolding put assign_id
put-dbid b key type dbid d t odd = by_id (dbid == 0) refl
  where
    by_id :
        (z : Bool)
        → (dbid == 0) ≡ z
        → (if◌then◌else◌ {A = Cachable × ℕ} z
            (
              record { dbid = (new_id t.nextid type).1; serialized = some d },
              (new_id t.nextid type).0,
            )
            (record { dbid = dbid; serialized = some d }, t.nextid)).0.dbid
          ≢ 0
    by_id true z = new_id-set t.nextid type odd
    by_id false z = (λ none. ground (arith, z, none))

-- A record that has an identifier keeps it; otherwise it gets the next one.
pub put_old :
    (b : Backend) (key : SymmCipher) (type dbid : ℕ) (d : List ℕ) (t : Table b.State)
    → dbid ≢ 0
    → let r = put b key type (record { dbid = dbid; serialized = some d }) t in
      (r.1.dbid ≡ dbid) × (r.2.nextid ≡ t.nextid)
unfolding put assign_id
put_old b key type dbid d t set =
    let old : (dbid == 0) ≡ false = ground (arith, set) in rw old (refl, refl)

pub put_new :
    (b : Backend) (key : SymmCipher) (type dbid : ℕ) (d : List ℕ) (t : Table b.State)
    → dbid ≡ 0
    → t.nextid % idspacing ≡ 0
    → t.nextid + idspacing < 2 ^ 32
    → type < idspacing
    → let r = put b key type (record { dbid = dbid; serialized = some d }) t in
      (r.1.dbid ≡ t.nextid + idspacing + type) × (r.2.nextid ≡ t.nextid + idspacing)
unfolding put assign_id
put_new b key type dbid d t unset al fits small =
    let new : (dbid == 0) ≡ true = ground (arith, unset) in
    rw new (new_id_lem t.nextid type al fits small, new_id-nextid t.nextid type fits)
