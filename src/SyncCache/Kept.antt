-- ===== src/SyncCache/Kept.antt =====
-- sync.cpp, Sync::cachenodes: what putting one LocalNode leaves as it was.
use sdk.Prelude.{
  ℕ, suc, ◌+◌, ◌≡◌, ◌≢◌, ◌≤◌, ◌<◌, ◌∙◌, sym, ap, ap₂, subst, arith, List, true, false, some, ◌==◌,
  Bool-cases, inl, inr, ◌⊎◌, ==_iff,
}
use sdk.Crypto.{SymmCipher}
use sdk.PaddedCbc.{encrypt}
use sdk.DbTable.{Backend, Table}
use sdk.Records.LocalNodes.{LocalNode, serialize_local}
use sdk.SyncCache.{Cached}
use sdk.SyncCache.Rows.{text, HasParentId, IsStored, Fits, Written}

module _ (b : Backend) (key : SymmCipher)
    (takes : (st : b.State) (index : ℕ) (x : List ℕ) → (b.put st index x).0 ≡ true) where
  pub Written-dbid :
      (l : ℕ) (c c' : Cached (Table b.State))
      → Written b key takes l c c'
      → (m : ℕ) → (c.locals m).dbid ≢ 0
      → (c'.locals m).dbid ≡ (c.locals m).dbid
  Written-dbid l c c' w m set = elim (Bool-cases (m == l)) [
    | inl e ↦
        let same = (==_iff m l).0 e in
        elim w.id [
          | inl (old, keeps, next) ↦
              subst (λ i. (c'.locals i).dbid ≡ (c.locals i).dbid) (sym same) keeps
          | inr (unset, id, next) ↦ absurd (set (ap (λ i. (c.locals i).dbid) same ∙ unset))
        ]
    | inr e ↦ w.others m (λ same. ground (arith, same, e))
  ]

  pub Written-nextid :
      (l : ℕ) (c c' : Cached (Table b.State))
      → Written b key takes l c c'
      → c.table.nextid ≤ c'.table.nextid
  Written-nextid l c c' w = elim w.id [
    | inl (old, keeps, next) ↦ omega (arith, next)
    | inr (unset, id, next) ↦ omega (arith, next)
  ]

  -- A new identifier is above the counter.
  pub Written-fresh :
      (l m : ℕ) (c c' : Cached (Table b.State))
      → Written b key takes l c c'
      → (c.locals m).dbid ≡ 0
      → ((c'.locals m).dbid ≡ 0)
        ⊎ (((c'.locals m).dbid ≢ 0) × (c.table.nextid + 16 ≤ (c'.locals m).dbid))
  Written-fresh l m c c' w unset = elim (Bool-cases (m == l)) [
    | inl e ↦
        let at = ap (λ i. (c'.locals i).dbid) ((==_iff m l).0 e) in
        elim w.id [
          | inl (old, keeps, next) ↦
              absurd (old (ap (λ i. (c.locals i).dbid) (sym ((==_iff m l).0 e)) ∙ unset))
          | inr (none, id, next) ↦ inr ((λ z. omega (arith, at, id, z)), omega (arith, at, id))
        ]
    | inr e ↦ inl (w.others m (λ same. ground (arith, same, e)) ∙ unset)
  ]

  -- What another LocalNode has as its identifier is not the one of the LocalNode that was put.
  other_id :
      (n l m : ℕ) (c c' : Cached (Table b.State))
      → Fits (suc n) c.locals c.table
      → Written b key takes l c c'
      → m ≢ l
      → (c.locals m).dbid ≢ 0
      → (c.locals m).dbid ≢ (c'.locals l).dbid
  other_id n l m c c' v w other set e = elim w.id [
    | inl (old, keeps, next) ↦ other (v.own l m old (e ∙ keeps))
    | inr (unset, id, next) ↦ omega (arith, v.below m, e, id)
  ]

  pub Written-Fits :
      (n l : ℕ) (c c' : Cached (Table b.State))
      → Fits (suc n) c.locals c.table
      → Written b key takes l c c'
      → Fits n c'.locals c'.table
  Written-Fits n l c c' v w = record {
    aligned = elim w.id [
      | inl (old, keeps, next) ↦ omega (arith, v.aligned, next)
      | inr (unset, id, next) ↦ omega (arith, v.aligned, next)
    ];
    room = elim w.id [
      | inl (old, keeps, next) ↦ omega (arith, v.room, next)
      | inr (unset, id, next) ↦ omega (arith, v.room, next)
    ];
    below = (λ m. elim (Bool-cases (m == l)) [
      | inl e ↦
          subst (λ i. (c'.locals i).dbid < c'.table.nextid + 16) (sym ((==_iff m l).0 e)) first
      | inr e ↦
          let same = w.others m (λ same. ground (arith, same, e)) in
          omega (arith, same, v.below m, grown)
    ]);
    own = (λ k m set e. by_tests k m (Bool-cases (k == l)) (Bool-cases (m == l)) set e);
  }
    where
      grown : c.table.nextid ≤ c'.table.nextid
      grown = Written-nextid l c c' w

      first : (c'.locals l).dbid < c'.table.nextid + 16
      first = elim w.id [
        | inl (old, keeps, next) ↦ omega (arith, v.below l, keeps, next)
        | inr (unset, id, next) ↦ omega (arith, id, next)
      ]

      away :
          (k m : ℕ)
          → (k == l) ≡ true
          → m ≢ l
          → (c'.locals k).dbid ≢ 0
          → (c'.locals m).dbid ≡ (c'.locals k).dbid
          → ⊥
      away k m e other set same =
          let kl = (==_iff k l).0 e in
          let at = ap (λ i. (c'.locals i).dbid) kl in
          let old = w.others m other in
          other_id n l m c c' v w other (λ none. set (sym same ∙ old ∙ none)) (sym old ∙ same ∙ at)

      by_tests :
          (k m : ℕ)
          → ((k == l) ≡ true) ⊎ ((k == l) ≡ false)
          → ((m == l) ≡ true) ⊎ ((m == l) ≡ false)
          → (c'.locals k).dbid ≢ 0
          → (c'.locals m).dbid ≡ (c'.locals k).dbid
          → m ≡ k
      by_tests k m (inl e) (inl f) set same = (==_iff m l).0 f ∙ sym ((==_iff k l).0 e)
      by_tests k m (inl e) (inr f) set same =
          absurd (away k m e (λ s. ground (arith, s, f)) set same)
      by_tests k m (inr e) (inl f) set same =
          absurd (away m k f (λ s. ground (arith, s, e)) (λ none. set (sym same ∙ none)) (sym same))
      by_tests k m (inr e) (inr f) set same =
          let old_k = w.others k (λ s. ground (arith, s, e)) in
          let old_m = w.others m (λ s. ground (arith, s, f)) in
          v.own k m (λ none. set (old_k ∙ none)) (sym old_m ∙ same ∙ old_k)

  -- The identifier of a parent that has one, or is the root, stays.
  parent_id :
      (root l m : ℕ) (c c' : Cached (Table b.State))
      → Written b key takes l c c'
      → l ≢ root
      → HasParentId root c.locals c.locals m
      → (c'.locals (c.locals m).parent).dbid ≡ (c.locals (c.locals m).parent).dbid
  parent_id root l m c c' w not_root (inl set) = Written-dbid l c c' w (c.locals m).parent set
  parent_id root l m c c' w not_root (inr top) =
      w.others (c.locals m).parent (λ e. not_root (sym e ∙ top))

  Written-HasParentId :
      (root l m : ℕ) (c c' : Cached (Table b.State))
      → Written b key takes l c c'
      → HasParentId root c.locals c.locals m
      → HasParentId root c'.locals c'.locals m
  Written-HasParentId root l m c c' w (inl set) = inl (λ none. set (
      sym (Written-dbid l c c' w (c.locals m).parent set)
      ∙ ap (λ p. (c'.locals p).dbid) (sym (w.same m).0)
      ∙ none))
  Written-HasParentId root l m c c' w (inr top) = inr ((w.same m).0 ∙ top)

  Written-text :
      (root l m : ℕ) (c c' : Cached (Table b.State))
      → Written b key takes l c c'
      → l ≢ root
      → HasParentId root c.locals c.locals m
      → text c'.locals c'.locals m ≡ text c.locals c.locals m
  Written-text root l m c c' w not_root parent =
      ap₂ (λ (f : LocalNode) (i : ℕ). serialize_local (record f { parent_dbid = i })) (w.same m).1
        (ap (λ p. (c'.locals p).dbid) (w.same m).0 ∙ parent_id root l m c c' w not_root parent)

  pub Written-self :
      (root n l : ℕ) (c c' : Cached (Table b.State))
      → Written b key takes l c c'
      → l ≢ root
      → HasParentId root c.locals c.locals l
      → IsStored b key root c'.locals c'.locals c'.table.store l
  Written-self root n l c c' w not_root parent = (
    elim w.id [
      | inl (old, keeps, next) ↦ λ none. old (sym keeps ∙ none)
      | inr (unset, id, next) ↦ λ none. omega (arith, id, none)
    ],
    Written-HasParentId root l l c c' w parent,
    w.row ∙ ap (λ x. some (encrypt key x)) (sym (Written-text root l l c c' w not_root parent)),
  )

  -- What is stored remains so.
  pub Written-IsStored :
      (root n l m : ℕ) (c c' : Cached (Table b.State))
      → Fits (suc n) c.locals c.table
      → Written b key takes l c c'
      → l ≢ root
      → IsStored b key root c.locals c.locals c.table.store m
      → IsStored b key root c'.locals c'.locals c'.table.store m
  Written-IsStored root n l m c c' v w not_root (set, parent, row) = elim (Bool-cases (m == l)) [
    | inl e ↦
        let same = (==_iff m l).0 e in
        subst (IsStored b key root c'.locals c'.locals c'.table.store) (sym same) (
          Written-self root n l c c' w not_root
            (subst (HasParentId root c.locals c.locals) same parent))
    | inr e ↦
        let other = λ (s : m ≡ l). absurd {A = ⊥} (ground (arith, s, e)) in
        let id = w.others m other in
        let away = other_id n l m c c' v w other set in
        (
          (λ none. set (sym id ∙ none)),
          Written-HasParentId root l m c c' w parent,
          ap (b.get c'.table.store) id
              ∙ w.rest (c.locals m).dbid away
              ∙ row
              ∙ ap (λ x. some (encrypt key x)) (sym (Written-text root l m c c' w not_root parent)),
        )
  ]
