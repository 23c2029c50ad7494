-- ===== src/SyncCache/Outcome.antt =====
-- sync.cpp, Sync::cachenodes: the queues and the rows of the table afterwards.
use mathlib.Core.List.{Memᴰ}
use mathlib.Core.List.Memᴰ
use sdk.Prelude.{
  ◌+◌, ◌==◌, ==_iff, ap, ap₂, arith, true, Bool-cases, ℕ, ◌≡◌, ◌≢◌, ◌<◌, ◌∙◌, refl, sym, subst,
  List, [], ◌∷◌, not, ◌&&◌, ◌||◌, Option, none, some, if◌then◌else◌, All, length, inl, inr, ◌⊎◌,
}
use sdk.Crypto.{SymmCipher}
use sdk.DbTable.{Backend, Table}
use sdk.SyncCache.{
  Local, Cached, Sync, SyncState, sync_active, Transaction, delete_all, on_store, is_active,
  is_empty, cache_into, cachenodes,
}
use sdk.SyncCache.Loop.{additions-IsEnd}
use sdk.SyncCache.Rows.{Fits, IsStored}
use sdk.SyncCache.Storing.{HasRows, additions-HasRows}
use sdk.SyncCache.Queues.{IsApart}
use sdk.PaddedCbc.{encrypt}
use sdk.Records.LocalNodes.{LocalNode, serialize_local}
use sdk.SyncCache.Deleting.{from_All, delete_all-nextid, delete_all-get}

-- The parent of the LocalNode has no identifier, and is not the root.
abbrev pub IsStuck : ℕ → (ℕ → Local) → ℕ → Type 0
IsStuck root locals l = ((locals (locals l).parent).dbid ≡ 0) × ((locals l).parent ≢ root)

-- No two LocalNodes have the same identifier; the counter of the table is above all identifiers, with room for the
-- queue below 2 ^ 32; no LocalNode to be put has an identifier to be deleted; and the root is not in the queue.
pub record IsSound {S : Type 0} (t : Table S) (s : Sync (Table S)) : Type 0 where
  pub fits : Fits (length s.insertq) s.locals t
  pub below : All (λ d. d < t.nextid + 16) s.deleteq
  pub queues : IsApart s
  pub no_root : All (λ l. l ≢ s.localroot) s.insertq

-- The LocalNode with that identifier, if there is one in the queue.
with_id :
    (locals : ℕ → Local) (i : ℕ) (q : List ℕ)
    → ((l : ℕ) × Memᴰ l q × ((locals l).dbid ≡ i)) ⊎ ((l : ℕ) → Memᴰ l q → (locals l).dbid ≢ i)
with_id locals i [] = inr (λ l j. absurd (Memᴰ.not-nil j))
with_id locals i (m ∷ q) = elim (Bool-cases ((locals m).dbid == i)) [
  | inl e ↦ inl (m, Memᴰ.head refl, (==_iff _ i).0 e)
  | inr e ↦ elim (with_id locals i q) [
    | inl (l, j, at) ↦ inl (l, Memᴰ.tail j, at)
    | inr away ↦ inr (λ l j. elim (Memᴰ.cases_cons j) [
      | inl same ↦ λ at. ground (arith, ap (λ i. (locals i).dbid) same, at, e)
      | inr k ↦ away l k
    ])
  ]
]

-- A row is as it was, or it was to be deleted, or it is the one of a LocalNode of the queue.
abbrev pub IsAccounted :
    (b : Backend)
    → Table b.State
    → Sync (Table b.State)
    → Table b.State
    → Sync (Table b.State)
    → ℕ
    → Type 0
IsAccounted b t s t' s' i =
    (b.get t'.store i ≡ b.get t.store i)
    ⊎ Memᴰ i s.deleteq
    ⊎ ((l : ℕ) × Memᴰ l s.insertq × ((s'.locals l).dbid ≡ i))

module _ (b : Backend) (v : Transaction b) (key : SymmCipher)
    (takes : (st : b.State) (index : ℕ) (x : List ℕ) → (b.put st index x).0 ≡ true) where
  -- What `cachenodes` has done.
  pub record IsCached (t : Table b.State) (s : Sync (Table b.State)) (t' : Table b.State)
      (s' : Sync (Table b.State)) : Type 0 where
    pub open_table : s'.statecachetable ≡ some t'
    pub same_parents :
        (m : ℕ)
        → ((s'.locals m).parent ≡ (s.locals m).parent)
          × ((s.locals m).dbid ≢ 0 → (s'.locals m).dbid ≢ 0)
    pub stored :
        (l : ℕ)
        → Memᴰ l s.insertq
        → Memᴰ l s'.insertq ⊎ IsStored b key s.localroot s.locals s'.locals t'.store l
    pub only : (l : ℕ) → Memᴰ l s'.insertq → Memᴰ l s.insertq
    pub stuck : All (IsStuck s.localroot s'.locals) s'.insertq
    pub deleted : s'.deleteq ≡ []
    pub gone : (d : ℕ) → Memᴰ d s.deleteq → b.get t'.store d ≡ none
    pub others : (i : ℕ) → i ≢ 0 → IsAccounted b t s t' s' i

  -- The record of a LocalNode, whose parent and other fields are as they were, in the committed table.
  committed :
      (root l : ℕ) (before : ℕ → Local) (c : Cached (Table b.State))
      → ((m : ℕ)
          → ((c.locals m).parent ≡ (before m).parent) × ((c.locals m).fields ≡ (before m).fields))
      → IsStored b key root c.locals c.locals c.table.store l
      → IsStored b key root before c.locals (v.commit c.table.store) l
  committed root l before c same (set, parent, row) = (
    set,
    elim parent [
      | inl given ↦ inl (subst (λ p. (c.locals p).dbid ≢ 0) (same l).0 given)
      | inr top ↦ inr (sym (same l).0 ∙ top)
    ],
    v.get-commit c.table.store (c.locals l).dbid
        ∙ row
        ∙ ap₂
            (λ (f : LocalNode) (p : ℕ).
              some (encrypt key (serialize_local (record f { parent_dbid = (c.locals p).dbid }))))
            (same l).1 (same l).0,
  )

  into-IsCached :
      (fuel : ℕ) (t : Table b.State) (s : Sync (Table b.State))
      → length s.insertq < fuel
      → IsSound t s
      → (s' : Sync (Table b.State)) × (t' : Table b.State) × (cache_into b v key fuel t s ≡ some s')
        × IsCached t s t' s'
  unfolding cache_into
  into-IsCached fuel t s le sound =
      let (q, c, e, end) = additions-IsEnd b key s.localroot fuel s.insertq start le in
      let rows =
        additions-HasRows b key s.localroot takes fuel s.insertq start q c
          (λ l i. from_All (λ l. l ≢ s.localroot) s.insertq l sound.no_root i) fits e in
      (
        record s {
          locals = c.locals;
          insertq = q;
          deleteq = [];
          statecachetable = some (on_store v.commit c.table);
        },
        on_store v.commit c.table,
        rw e refl,
        record {
          open_table = refl;
          same_parents = end.grown;
          stored = (λ l i. elim (rows.new l i) [
            | inl j ↦ inl j
            | inr row ↦ inr (committed s.localroot l s.locals c rows.same row)
          ]);
          only = end.only;
          stuck = end.no_more;
          deleted = refl;
          gone = (λ d i.
              v.get-commit c.table.store d
              ∙ rows.rest d (from_All (λ d. d ≢ 0) s.deleteq d sound.queues.nonzero i)
                  (λ l j. clear rows d l i j)
              ∙ gone_before d i);
          others = (λ i set. elim (with_id c.locals i s.insertq) [
            | inl found ↦ inr (inr found)
            | inr away ↦ elim (delete_all-get b v s.deleteq (on_store v.begin t) i) [
              | inl (j, e) ↦ inr (inl j)
              | inr (k, e) ↦
                  inl (
                    v.get-commit c.table.store i ∙ rows.rest i set away ∙ e ∙ v.get-begin t.store i)
            ]
          ]);
        },
      )
    where
      start : Cached (Table b.State)
      start = record { locals = s.locals; table = delete_all b v s.deleteq (on_store v.begin t) }

      fits : Fits (length s.insertq) s.locals (delete_all b v s.deleteq (on_store v.begin t))
      fits =
          let same = delete_all-nextid b v s.deleteq (on_store v.begin t) in
          record {
            aligned = omega (arith, same, sound.fits.aligned);
            room = omega (arith, same, sound.fits.room);
            below = (λ m. omega (arith, same, sound.fits.below m));
            own = sound.fits.own;
          }

      gone_before : (d : ℕ) → Memᴰ d s.deleteq → b.get start.table.store d ≡ none
      gone_before d i = elim (delete_all-get b v s.deleteq (on_store v.begin t) d) [
        | inl (j, e) ↦ e
        | inr (k, e) ↦ absurd (k i)
      ]

      -- No LocalNode of the queue has an identifier that was to be deleted.
      clear :
          {q : List ℕ} {c : Cached (Table b.State)}
          → HasRows b key s.localroot takes 0 s.insertq start q c
          → (d l : ℕ) → Memᴰ d s.deleteq
          → Memᴰ l s.insertq
          → (c.locals l).dbid ≢ d
      clear {c = c} rows d l i j at = elim (Bool-cases ((s.locals l).dbid == 0)) [
        | inl e ↦
            let given : (c.locals l).dbid ≢ 0 =
              λ none. from_All (λ d. d ≢ 0) s.deleteq d sound.queues.nonzero i (sym at ∙ none) in
            let low = from_All (λ d. d < t.nextid + 16) s.deleteq d sound.below i in
            let above = rows.fresh l ((==_iff _ 0).0 e) given in
            omega (arith, low, above, at, delete_all-nextid b v s.deleteq (on_store v.begin t))
        | inr e ↦
            let given =
              λ (none : (s.locals l).dbid ≡ 0). absurd {A = ⊥} (ground (arith, none, e)) in
            from_All (λ d. d ≢ (s.locals l).dbid) s.deleteq d
              (from_All (λ l. All (λ d. d ≢ (s.locals l).dbid) s.deleteq) s.insertq l
                sound.queues.apart j)
              i (sym at ∙ rows.ids l given)
      ]

  pub cachenodes-IsCached :
      (fuel : ℕ) (t : Table b.State) (s : Sync (Table b.State))
      → s.state ≡ sync_active
      → s.statecachetable ≡ some t
      → length s.insertq < fuel
      → IsSound t s
      → (s' : Sync (Table b.State)) × (t' : Table b.State) × (cachenodes b v key fuel s ≡ some s')
        × IsCached t s t' s'
  unfolding cachenodes
  cachenodes-IsCached fuel t s active open_table le sound =
      subst (λ o. Ends (by_table o)) (sym open_table)
        (subst (λ st. Ends (by_state st)) (sym active) (by_queues s.deleteq s.insertq refl refl))
    where
      Ends : Option (Sync (Table b.State)) → Type 0
      Ends o =
          (s' : Sync (Table b.State)) × (t' : Table b.State) × (o ≡ some s') × IsCached t s t' s'

      by_state : SyncState → Option (Sync (Table b.State))
      by_state st =
          if is_active st && (not (is_empty s.deleteq) || not (is_empty s.insertq))
          then cache_into b v key fuel t s
          else some s

      by_table : Option (Table b.State) → Option (Sync (Table b.State))
      by_table o = elim o [
        | none ↦ some s
        | some t ↦
            if is_active s.state && (not (is_empty s.deleteq) || not (is_empty s.insertq))
            then cache_into b v key fuel t s
            else some s
      ]

      nothing : s.deleteq ≡ [] → s.insertq ≡ [] → IsCached t s t s
      nothing no_d no_i = record {
        open_table = open_table;
        same_parents = (λ m. (refl, λ set. set));
        stored = (λ l i. inl i);
        only = (λ l i. i);
        stuck = subst (All (IsStuck s.localroot s.locals)) (sym no_i) tt;
        deleted = no_d;
        gone = (λ d i. absurd (Memᴰ.not-nil (subst (λ q. Memᴰ d q) no_d i)));
        others = (λ i set. inl refl);
      }

      by_queues :
          (d i : List ℕ)
          → s.deleteq ≡ d
          → s.insertq ≡ i
          → Ends
              (if not (is_empty d) || not (is_empty i) then cache_into b v key fuel t s else some s)
      by_queues [] [] no_d no_i = (s, t, refl, nothing no_d no_i)
      by_queues [] (l ∷ ls) d i = into-IsCached fuel t s le sound
      by_queues (id ∷ ids) i d e = into-IsCached fuel t s le sound
