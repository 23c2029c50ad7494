-- ===== src/SyncCache/Caching.antt =====
-- sync.cpp, Sync::cachenodes: what is in the table afterwards.
use mathlib.Core.List.{Memᴰ}
use mathlib.Core.List.Memᴰ
use sdk.Prelude.{
  true, ℕ, zero, suc, ◌≡◌, ◌≢◌, ◌<◌, ◌∙◌, refl, subst, List, [], ◌∷◌, none, some, All, length, inl,
  inr, ◌⊎◌,
}
use sdk.Crypto.{SymmCipher}
use sdk.DbTable.{Backend, Table}
use sdk.SyncCache.{Local, Sync, sync_active, Transaction, cachenodes}
use sdk.SyncCache.Rows.{IsStored}
use sdk.SyncCache.Deleting.{to_All, from_All}
use sdk.SyncCache.Outcome.{IsStuck, IsSound, IsAccounted, IsCached, cachenodes-IsCached}

-- If the table is open, the folder is active and the fuel is above the number of LocalNodes in the queue, `cachenodes`
-- ends. It is assumed that the store takes every row; that no two LocalNodes have the same identifier; that the counter
-- of the table is a multiple of 16 with which all identifiers are allotted already, of LocalNodes and those to be
-- deleted, and has room for the queue below 2 ^ 32; that the queues are sets without the identifier 0, and no LocalNode
-- to be put has an identifier to be deleted; and that the root is not in the queue. Afterwards, each LocalNode of the
-- queue is still in it, or has an identifier, under which the table has its encrypted record, in which the identifier
-- is that its parent now has, and the parent has one or is the root. Of what is still in the queue, the parent has no
-- identifier and is not the root. No identifier is left to be deleted, and the rows that were to be deleted are gone.
-- Any other row `i`, but 0, is as it was, unless `i` is the identifier of a LocalNode that was in the queue.
pub cachenodes-ends :
    (b : Backend) (v : Transaction b) (key : SymmCipher)
    (takes : (st : b.State) (index : ℕ) (x : List ℕ) → (b.put st index x).0 ≡ true) (fuel : ℕ)
    (t : Table b.State) (s : Sync (Table b.State)) (i : ℕ)
    → s.state ≡ sync_active
    → s.statecachetable ≡ some t
    → length s.insertq < fuel
    → IsSound t s
    → i ≢ 0
    → (s' : Sync (Table b.State)) × (t' : Table b.State) × (cachenodes b v key fuel s ≡ some s')
      × (s'.statecachetable ≡ some t')
      × (s'.deleteq ≡ [])
      × All
          (λ l. Memᴰ l s'.insertq ⊎ IsStored b key s.localroot s.locals s'.locals t'.store l)
          s.insertq
      × All (IsStuck s.localroot s'.locals) s'.insertq
      × All (λ d. b.get t'.store d ≡ none) s.deleteq
      × IsAccounted b t s t' s' i
cachenodes-ends b v key takes fuel t s i active open_table le sound set =
    let (s', t', e, c) = cachenodes-IsCached b v key takes fuel t s active open_table le sound in
    (
      s',
      t',
      e,
      c.open_table,
      c.deleted,
      to_All (λ l. Memᴰ l s'.insertq ⊎ IsStored b key s.localroot s.locals s'.locals t'.store l)
          s.insertq c.stored,
      c.stuck,
      to_All (λ d. b.get t'.store d ≡ none) s.deleteq c.gone,
      c.others i set,
    )

-- The root is `k` steps above the parent.
abbrev pub HasRoot : (ℕ → Local) → ℕ → ℕ → ℕ → Type 0
HasRoot locals root zero l = (locals l).parent ≡ root
HasRoot locals root (suc k) l = HasRoot locals root k (locals l).parent

-- Its parent is the root, or is stored, or is in the queue, too.
abbrev pub IsReachable : ℕ → (ℕ → Local) → List ℕ → ℕ → Type 0
IsReachable root locals q l =
    ((k : ℕ) × HasRoot locals root k l)
    × (((locals l).parent ≡ root)
        ⊎ ((locals (locals l).parent).dbid ≢ 0)
        ⊎ Memᴰ (locals l).parent q)

no_members : (q : List ℕ) → ((l : ℕ) → Memᴰ l q → ⊥) → q ≡ []
no_members [] f = refl
no_members (l ∷ q) f = absurd (f l (Memᴰ.head refl))

module _ (b : Backend) (v : Transaction b) (key : SymmCipher)
    (takes : (st : b.State) (index : ℕ) (x : List ℕ) → (b.put st index x).0 ≡ true)
    (t : Table b.State) (s : Sync (Table b.State)) (t' : Table b.State) (s' : Sync (Table b.State))
    (c : IsCached b v key takes t s t' s')
    (reachable : All (IsReachable s.localroot s.locals s.insertq) s.insertq) where
  -- With a LocalNode that is stuck, its parent is stuck, which is not the root.
  parent_stuck :
      (l : ℕ)
      → Memᴰ l s'.insertq
      → ((s.locals l).parent ≢ s.localroot) × Memᴰ (s.locals l).parent s'.insertq
  parent_stuck l i =
      let same = (c.same_parents l).0 in
      let stuck = from_All (IsStuck s.localroot s'.locals) s'.insertq l c.stuck i in
      let unset = subst (λ p. (s'.locals p).dbid ≡ 0) same stuck.0 in
      let below =
        from_All (IsReachable s.localroot s.locals s.insertq) s.insertq l reachable (c.only l i) in
      (
        (λ top. stuck.1 (same ∙ top)),
        elim below.1 [
          | inl top ↦ absurd (stuck.1 (same ∙ top))
          | inr (inl set) ↦ absurd ((c.same_parents (s.locals l).parent).1 set unset)
          | inr (inr queued) ↦ elim (c.stored (s.locals l).parent queued) [
            | inr row ↦ absurd (row.0 unset)
            | inl j ↦ j
          ]
        ],
      )

  nothing_left : (k l : ℕ) → HasRoot s.locals s.localroot k l → Memᴰ l s'.insertq → ⊥
  nothing_left zero l h i = (parent_stuck l i).0 h
  nothing_left (suc k) l h i = nothing_left k (s.locals l).parent h (parent_stuck l i).1

-- If the table is open, the folder is active, the fuel is above the number of LocalNodes in the queue, and the parents
-- of all LocalNodes in the queue lead to the root, and are the root, have an identifier or are in the queue themselves,
-- then `cachenodes` empties both queues in one go, in whatever order the LocalNodes are in the queue: each of them has
-- an identifier, under which the table has its encrypted record, in which the identifier is that its parent now has;
-- and no row is left that was to be deleted. It is assumed that the store takes every row; that no two LocalNodes have
-- the same identifier; that the counter of the table is a multiple of 16 with which all identifiers are allotted
-- already, of LocalNodes and those to be deleted, and has room for the queue below 2 ^ 32; that the queues are sets
-- without the identifier 0, and no LocalNode to be put has an identifier to be deleted; and that the root is not in the
-- queue.
pub cachenodes_complete :
    (b : Backend) (v : Transaction b) (key : SymmCipher)
    (takes : (st : b.State) (index : ℕ) (x : List ℕ) → (b.put st index x).0 ≡ true) (fuel : ℕ)
    (t : Table b.State) (s : Sync (Table b.State))
    → s.state ≡ sync_active
    → s.statecachetable ≡ some t
    → length s.insertq < fuel
    → IsSound t s
    → All (IsReachable s.localroot s.locals s.insertq) s.insertq
    → (s' : Sync (Table b.State)) × (t' : Table b.State) × (cachenodes b v key fuel s ≡ some s')
      × (s'.statecachetable ≡ some t')
      × (s'.deleteq ≡ [])
      × (s'.insertq ≡ [])
      × All (IsStored b key s.localroot s.locals s'.locals t'.store) s.insertq
      × All (λ d. b.get t'.store d ≡ none) s.deleteq
cachenodes_complete b v key takes fuel t s active open_table le sound reachable =
    let (s', t', e, c) = cachenodes-IsCached b v key takes fuel t s active open_table le sound in
    let none_left = no_members s'.insertq (λ l i.
      let below =
        from_All (IsReachable s.localroot s.locals s.insertq) s.insertq l reachable (c.only l i) in
      nothing_left b v key takes t s t' s' c reachable below.0.0 l below.0.1 i) in
    (
      s',
      t',
      e,
      c.open_table,
      c.deleted,
      none_left,
      to_All (IsStored b key s.localroot s.locals s'.locals t'.store) s.insertq (λ l i.
          elim (c.stored l i) [
            | inl j ↦ absurd (Memᴰ.not-nil (subst (λ q. Memᴰ l q) none_left j))
            | inr row ↦ row
          ]),
      to_All (λ d. b.get t'.store d ≡ none) s.deleteq c.gone,
    )
