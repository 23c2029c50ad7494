-- ===== src/SyncCache/Tests.antt =====
-- sync.cpp: the theorems on a small folder, with a store in memory.
use mathlib.Core.List.{Memᴰ}
use sdk.Prelude.{
  ℕ, zero, suc, ◌≡◌, ◌≢◌, refl, arith, List, [], ◌∷◌, Option, none, some, All, true, ◌==◌,
  if◌then◌else◌, ◌⊎◌, inl, inr,
}
use sdk.Int.{pos}
use sdk.Crypto.ShiftCipher.{shift_cipher}
use sdk.DbTable.{Table}
use sdk.DbTable.Memory.{memory}
use sdk.Records.LocalNodes.{LocalNode}
use sdk.SyncCache.{Local, Sync, sync_active, Transaction, cachenodes}
use sdk.SyncCache.Rows.{IsStored}
use sdk.SyncCache.Outcome.{IsStuck, IsSound, IsAccounted}
use sdk.SyncCache.Caching.{cachenodes-ends, cachenodes_complete}
use sdk.SyncCache.Queues.{IsApart, HasOwnIds, op_add, op_del, queue_ops, queue_ops-IsApart}

deleted_self :
    (s : ℕ → Option (List ℕ)) (index : ℕ) → (if index == index then none else s index) ≡ none
deleted_self s index = ground arith

deleted_other :
    (s : ℕ → Option (List ℕ)) (index other : ℕ)
    → other ≢ index
    → (if other == index then none else s other) ≡ s other
deleted_other s index other h = ground arith

-- Transactions that take effect at once.
abbrev at_once : Transaction memory
at_once = record {
  begin = λ s. s;
  del = λ s index. λ i. if i == index then none else s i;
  commit = λ s. s;
  get-begin = λ s index. refl;
  get-commit = λ s index. refl;
  get-del_self = deleted_self;
  get-del_other = deleted_other;
}

abbrev table : Table (ℕ → Option (List ℕ))
table = record { nextid = 32; store = λ i. if i == 19 then some (7 ∷ []) else none }

abbrev folder : LocalNode
folder = record {
  node_type = 1;
  size = pos 0;
  fsid = 5;
  parent_dbid = 0;
  node = none;
  localname = b'a' ∷ [];
  name = b'a' ∷ [];
  crc = [];
  mtime = pos 0;
  isvalid = true;
}

-- Below the root 0 is the folder 2, and below that the folder 1; nothing has been stored.
abbrev locals : ℕ → Local
locals zero = record { dbid = 0; parent = 0; fields = folder }
locals (suc zero) = record { dbid = 0; parent = 2; fields = folder }
locals (suc (suc n)) = record { dbid = 0; parent = 0; fields = folder }

abbrev sync : Sync (Table (ℕ → Option (List ℕ)))
sync = record {
  state = sync_active;
  localroot = 0;
  locals = locals;
  insertq = 1 ∷ 2 ∷ [];
  deleteq = 19 ∷ [];
  statecachetable = some table;
}

no_id : (m : ℕ) → (locals m).dbid ≡ 0
no_id zero = refl
no_id (suc zero) = refl
no_id (suc (suc m)) = refl

sync-IsSound : IsSound table sync
sync-IsSound = record {
  fits = record {
    aligned = refl;
    room = omega arith;
    below = (λ m. omega (arith, no_id m));
    own = (λ l m set same. absurd (set (no_id l)));
  };
  below = (omega arith, tt);
  queues = record {
    inserts = ((omega arith, tt), (tt, tt));
    deletes = (tt, tt);
    nonzero = (omega arith, tt);
    apart = ((omega arith, tt), ((omega arith, tt), tt));
  };
  no_root = (omega arith, (omega arith, tt));
}

cachenodes-ends_example :
    (s' : Sync (Table (ℕ → Option (List ℕ)))) × (t' : Table (ℕ → Option (List ℕ))) × (cachenodes
        memory at_once shift_cipher 3 sync
      ≡ some s')
    × (s'.statecachetable ≡ some t')
    × (s'.deleteq ≡ [])
    × All
        (λ l. Memᴰ l s'.insertq ⊎ IsStored memory shift_cipher 0 locals s'.locals t'.store l)
        (1 ∷ 2 ∷ [])
    × All (IsStuck 0 s'.locals) s'.insertq
    × All (λ d. t'.store d ≡ none) (19 ∷ [])
    × IsAccounted memory table sync t' s' 35
cachenodes-ends_example =
    cachenodes-ends memory at_once shift_cipher (λ st index x. refl) 3 table sync 35 refl refl
      (omega arith) sync-IsSound (omega arith)

cachenodes_complete_example :
    (s' : Sync (Table (ℕ → Option (List ℕ)))) × (t' : Table (ℕ → Option (List ℕ))) × (cachenodes
        memory at_once shift_cipher 3 sync
      ≡ some s')
    × (s'.statecachetable ≡ some t')
    × (s'.deleteq ≡ [])
    × (s'.insertq ≡ [])
    × All (IsStored memory shift_cipher 0 locals s'.locals t'.store) (1 ∷ 2 ∷ [])
    × All (λ d. t'.store d ≡ none) (19 ∷ [])
cachenodes_complete_example =
    cachenodes_complete memory at_once shift_cipher (λ st index x. refl) 3 table sync refl refl
      (omega arith) sync-IsSound
      (((1, refl), inr (inr (Memᴰ.tail (Memᴰ.head refl)))), (((0, refl), inl refl), tt))

-- All LocalNodes are stored.
abbrev stored : Sync (Table (ℕ → Option (List ℕ)))
stored = record {
  state = sync_active;
  localroot = 0;
  locals = (λ l. record { dbid = l; parent = 0; fields = folder });
  insertq = 1 ∷ 2 ∷ [];
  deleteq = 19 ∷ [];
  statecachetable = some table;
}

stored-HasOwnIds : HasOwnIds stored
stored-HasOwnIds l m set same = same

stored-IsApart : IsApart stored
stored-IsApart = record {
  inserts = ((omega arith, tt), (tt, tt));
  deletes = (tt, tt);
  nonzero = (omega arith, tt);
  apart = ((omega arith, tt), ((omega arith, tt), tt));
}

queue_ops-IsApart_example : IsApart (queue_ops (op_del 1 ∷ op_add 19 ∷ op_del 2 ∷ []) stored)
queue_ops-IsApart_example =
    queue_ops-IsApart (op_del 1 ∷ op_add 19 ∷ op_del 2 ∷ []) stored stored-HasOwnIds stored-IsApart
