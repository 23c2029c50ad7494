-- ===== src/SyncCache.antt =====
-- src/sync.cpp, Sync: statecachedel, statecacheadd and cachenodes, which keep the table of the LocalNodes of a
-- synchronized folder. LocalNodes are numbered; a pointer is a number.
pub mod Queues
pub mod Loop
pub mod Rows
pub mod Kept
pub mod Storing
pub mod Deleting
pub mod Outcome
pub mod Caching
mod Tests
use sdk.Prelude.{
  ℕ, zero, suc, ◌+◌, List, [], ◌∷◌, Bool, true, false, not, ◌&&◌, ◌||◌, Option, none, some, ltb,
  ◌==◌, if◌then◌else◌, ◌>>=◌, ◌≡◌, ◌≢◌,
}
use sdk.Crypto.{SymmCipher}
use sdk.DbTable.{Backend, Cachable, Table, put}
use sdk.Records.LocalNodes.{LocalNode, serialize_local}

-- MegaClient::CACHEDLOCALNODE
abbrev pub cachedlocalnode : ℕ
cachedlocalnode = 3

-- syncstate_t
pub data SyncState : Type 0 where
  sync_canceled : SyncState
  sync_initialscan : SyncState
  sync_active : SyncState
  sync_failed : SyncState

-- A LocalNode below the root: its identifier in the table, 0 before it is stored, its parent, and the other
-- fields of its record.
pub record Local : Type 0 where
  pub dbid : ℕ
  pub parent : ℕ
  pub fields : LocalNode

-- The C++ sets, in ascending order.
pub set_insert : ℕ → List ℕ → List ℕ
set_insert a [] = a ∷ []
set_insert a (b ∷ bs) =
    let rest = set_insert a bs in
    if a == b then b ∷ bs else if ltb a b then a ∷ b ∷ bs else b ∷ rest

pub set_erase : ℕ → List ℕ → List ℕ
set_erase a [] = []
set_erase a (b ∷ bs) = let rest = set_erase a bs in if a == b then bs else b ∷ rest

-- `localroot` is the number of the root.
pub record Sync (T : Type 0) : Type 0 where
  pub state : SyncState
  pub localroot : ℕ
  pub locals : ℕ → Local
  pub insertq : List ℕ
  pub deleteq : List ℕ
  pub statecachetable : Option T

abbrev pub is_active : SyncState → Bool
is_active sync_active = true
is_active sync_canceled = false
is_active sync_initialscan = false
is_active sync_failed = false

abbrev pub is_canceled : SyncState → Bool
is_canceled sync_canceled = true
is_canceled sync_active = false
is_canceled sync_initialscan = false
is_canceled sync_failed = false

-- Sync::statecachedel
pub statecachedel : {T : Type 0} → ℕ → Sync T → Sync T
statecachedel l s =
    let dbid = (s.locals l).dbid in
    if is_canceled s.state then s else record s {
      insertq = set_erase l s.insertq;
      deleteq = if dbid == 0 then s.deleteq else set_insert dbid s.deleteq;
    }

-- Sync::statecacheadd
pub statecacheadd : {T : Type 0} → ℕ → Sync T → Sync T
statecacheadd l s =
    let dbid = (s.locals l).dbid in
    if is_canceled s.state then s else record s {
      deleteq = if dbid == 0 then s.deleteq else set_erase dbid s.deleteq;
      insertq = set_insert l s.insertq;
    }

-- The record of a LocalNode as it is now: the identifier of its parent is part of it. The root has none.
pub cachable : (ℕ → Local) → ℕ → Cachable
cachable locals l =
    let x = locals l in
    record {
      dbid = x.dbid;
      serialized =
          some (serialize_local (record x.fields { parent_dbid = (locals x.parent).dbid }));
    }

abbrev pub put_at : ℕ → Local → (ℕ → Local) → ℕ → Local
put_at l x locals m = if m == l then x else locals m

-- `put(CACHEDLOCALNODE, *it, &client->key)`: what it does to the LocalNodes and the table.
pub put_local :
    (b : Backend) → SymmCipher → ℕ → (ℕ → Local) × Table b.State → (ℕ → Local) × Table b.State
put_local b key l (locals, t) =
    let (done, r, t') = put b key cachedlocalnode (cachable locals l) t in
    (put_at l (record (locals l) { dbid = r.dbid }) locals, t')

-- The state of the loop: the LocalNodes and the table.
pub record Cached (T : Type 0) : Type 0 where
  pub locals : ℕ → Local
  pub table : T

-- `(*it)->parent->dbid || (*it)->parent == &localroot`
pub is_ready : ℕ → (ℕ → Local) → ℕ → Bool
is_ready localroot locals l =
    let parent = (locals l).parent in not ((locals parent).dbid == 0) || parent == localroot

pub write : (b : Backend) → SymmCipher → ℕ → Cached (Table b.State) → Cached (Table b.State)
write b key l c =
    let (locals, t) = put_local b key l (c.locals, c.table) in record { locals = locals; table = t }

-- The inner loop: what stays in `insertq`, whether a LocalNode was put, and the state.
pub pass :
    (b : Backend)
    → SymmCipher
    → ℕ
    → List ℕ
    → Cached (Table b.State)
    → List ℕ × Bool × Cached (Table b.State)
pass b key root [] c = ([], false, c)
pass b key root (l ∷ ls) c = elim (is_ready root c.locals l) [
  | true ↦ let (q, added, c') = pass b key root ls (write b key l c) in (q, true, c')
  | false ↦ let (q, added, c') = pass b key root ls c in (l ∷ q, added, c')
]

-- The outer loop; `none` says that the fuel ran out.
pub additions :
    (b : Backend)
    → SymmCipher
    → ℕ
    → ℕ
    → List ℕ
    → Cached (Table b.State)
    → Option (List ℕ × Cached (Table b.State))
additions b key root zero q c = none
additions b key root (suc fuel) q c =
    let (q', added, c') = pass b key root q c in
    elim added [ true ↦ additions b key root fuel q' c' | false ↦ some (q', c') ]

-- The virtual functions of DbTable that the stores add to `put` and `get`: a transaction changes no row, and
-- `del` takes away the row under the index alone.
pub record Transaction (b : Backend) : Type 0 where
  pub begin : b.State → b.State
  pub del : b.State → ℕ → b.State
  pub commit : b.State → b.State
  pub get-begin : (s : b.State) (index : ℕ) → b.get (begin s) index ≡ b.get s index
  pub get-commit : (s : b.State) (index : ℕ) → b.get (commit s) index ≡ b.get s index
  pub get-del_self : (s : b.State) (index : ℕ) → b.get (del s index) index ≡ none
  pub get-del_other :
      (s : b.State) (index other : ℕ) → other ≢ index → b.get (del s index) other ≡ b.get s other

abbrev pub on_store : {S : Type 0} → (S → S) → Table S → Table S
on_store f t = record { nextid = t.nextid; store = f t.store }

pub delete_all : (b : Backend) → Transaction b → List ℕ → Table b.State → Table b.State
delete_all b v [] t = t
delete_all b v (id ∷ ids) t = delete_all b v ids (on_store (λ st. v.del st id) t)

-- With the table open, and something to do.
pub cache_into :
    (b : Backend)
    → Transaction b
    → SymmCipher
    → ℕ
    → Table b.State
    → Sync (Table b.State)
    → Option (Sync (Table b.State))
cache_into b v key fuel t s = do
  let t' = delete_all b v s.deleteq (on_store v.begin t)
  (q, c) ← additions b key s.localroot fuel s.insertq (record { locals = s.locals; table = t' })
  some (record s {
    locals = c.locals;
    insertq = q;
    deleteq = [];
    statecachetable = some (on_store v.commit c.table);
  })

abbrev pub is_empty : List ℕ → Bool
is_empty [] = true
is_empty (a ∷ rest) = false

-- Sync::cachenodes
pub cachenodes :
    (b : Backend)
    → Transaction b
    → SymmCipher
    → ℕ
    → Sync (Table b.State)
    → Option (Sync (Table b.State))
cachenodes b v key fuel s = elim s.statecachetable [
  | none ↦ some s
  | some t ↦
      if is_active s.state && (not (is_empty s.deleteq) || not (is_empty s.insertq))
      then cache_into b v key fuel t s
      else some s
]
