-- ===== src/SyncCache/Rows.antt =====
-- sync.cpp, Sync::cachenodes: what putting one LocalNode does to the rows of the table.
use sdk.Prelude.{
  ℕ, suc, ◌+◌, ◌*◌, ◌%◌, ◌^◌, ◌≡◌, ◌≢◌, ◌<◌, ◌∙◌, refl, sym, ap, subst, arith, List, Bool, true,
  false, some, ◌==◌, if◌then◌else◌, Bool-cases, inl, inr, ◌⊎◌, ==_iff,
}
use sdk.Crypto.{SymmCipher}
use sdk.PaddedCbc.{encrypt}
use sdk.DbTable.{Backend, Cachable, Table, put}
use sdk.DbTable.Records.{put-get}
use sdk.DbTable.Allocation.{put_old, put_new}
use sdk.Records.LocalNodes.{serialize_local}
use sdk.SyncCache.{Local, Cached, cachedlocalnode, cachable, put_at, put_local, write}
use sdk.SyncCache.Loop.{put_at-field}

-- The record of a LocalNode, with the identifier that its parent has in `now`.
abbrev pub text : (ℕ → Local) → (ℕ → Local) → ℕ → List ℕ
text locals now l =
    serialize_local (record (locals l).fields { parent_dbid = (now (locals l).parent).dbid })

-- The parent has an identifier, or is the root.
abbrev pub HasParentId : ℕ → (ℕ → Local) → (ℕ → Local) → ℕ → Type 0
HasParentId root locals now l = ((now (locals l).parent).dbid ≢ 0) ⊎ ((locals l).parent ≡ root)

module _ (b : Backend) (key : SymmCipher) where
  -- The row under the identifier of the LocalNode is its encrypted record, in which its parent's identifier is.
  abbrev pub IsStored : ℕ → (ℕ → Local) → (ℕ → Local) → b.State → ℕ → Type 0
  IsStored root locals now store l =
      ((now l).dbid ≢ 0)
      × HasParentId root locals now l
      × (b.get store (now l).dbid ≡ some (encrypt key (text locals now l)))

-- No identifier is used twice, the counter is above all of them, and there is room for `n` more.
pub record Fits {S : Type 0} (n : ℕ) (locals : ℕ → Local) (t : Table S) : Type 0 where
  pub aligned : t.nextid % 16 ≡ 0
  pub room : t.nextid + 16 * n < 2 ^ 32
  pub below : (m : ℕ) → (locals m).dbid < t.nextid + 16
  pub own : (l m : ℕ) → (locals l).dbid ≢ 0 → (locals m).dbid ≡ (locals l).dbid → m ≡ l

module _ (b : Backend) (key : SymmCipher)
    (takes : (st : b.State) (index : ℕ) (x : List ℕ) → (b.put st index x).0 ≡ true) where
  -- What `write` has done with a LocalNode.
  pub record Written (l : ℕ) (c c' : Cached (Table b.State)) : Type 0 where
    pub same :
        (m : ℕ)
        → ((c'.locals m).parent ≡ (c.locals m).parent)
          × ((c'.locals m).fields ≡ (c.locals m).fields)
    pub others : (m : ℕ) → m ≢ l → (c'.locals m).dbid ≡ (c.locals m).dbid
    pub id :
        (((c.locals l).dbid ≢ 0)
          × ((c'.locals l).dbid ≡ (c.locals l).dbid)
          × (c'.table.nextid ≡ c.table.nextid))
        ⊎ (((c.locals l).dbid ≡ 0)
            × ((c'.locals l).dbid ≡ c.table.nextid + 19)
            × (c'.table.nextid ≡ c.table.nextid + 16))
    pub row :
        b.get c'.table.store (c'.locals l).dbid ≡ some (encrypt key (text c.locals c.locals l))
    pub rest : (i : ℕ) → i ≢ (c'.locals l).dbid → b.get c'.table.store i ≡ b.get c.table.store i

  back {ℓ} :
      {A : Type ℓ} (f : Local → A) (l : ℕ) (x : Local) (locals : ℕ → Local)
      → f x ≡ f (locals l)
      → (m : ℕ) → f (put_at l x locals m) ≡ f (locals m)
  back f l x locals same m = put_at-field f l m x locals ∙ by_test (m == l) refl
    where
      by_test : (t : Bool) → (m == l) ≡ t → (if t then f x else f (locals m)) ≡ f (locals m)
      by_test true e = same ∙ ap (λ i. f (locals i)) (sym ((==_iff m l).0 e))
      by_test false e = refl

  here : (l : ℕ) (x : Local) (locals : ℕ → Local) → (put_at l x locals l).dbid ≡ x.dbid
  here l x locals =
      let self : (l == l) ≡ true = ground arith in
      put_at-field (λ x. x.dbid) l l x locals ∙ rw self refl

  elsewhere :
      (l : ℕ) (x : Local) (locals : ℕ → Local) (m : ℕ)
      → m ≢ l
      → (put_at l x locals m).dbid ≡ (locals m).dbid
  elsewhere l x locals m other =
      let no : (m == l) ≡ false = ground (arith, other) in
      put_at-field (λ x. x.dbid) l m x locals ∙ rw no refl

  pub write-Written :
      (n l : ℕ) (c : Cached (Table b.State))
      → Fits (suc n) c.locals c.table
      → Written l c (write b key l c)
  unfolding write put_local cachable
  write-Written n l c v = record {
    same = (λ m.
        (back (λ x. x.parent) l new c.locals refl m, back (λ x. x.fields) l new c.locals refl m));
    others = elsewhere l new c.locals;
    id = ids (Bool-cases ((c.locals l).dbid == 0));
    row =
        subst (λ i. b.get r.2.store i ≡ some (encrypt key body)) (sym at)
          (put-get b key cachedlocalnode (c.locals l).dbid 0 body c.table takes).0;
    rest = (λ i other.
        (put-get b key cachedlocalnode (c.locals l).dbid i body c.table takes).1
          (λ e. other (e ∙ sym at)));
  }
    where
      body : List ℕ
      body = text c.locals c.locals l

      r : Bool × Cachable × Table b.State
      r =
          put b key cachedlocalnode (record { dbid = (c.locals l).dbid; serialized = some body })
            c.table

      new : Local
      new = record (c.locals l) { dbid = r.1.dbid }

      at : (put_at l new c.locals l).dbid ≡ r.1.dbid
      at = here l new c.locals

      ids :
          (((c.locals l).dbid == 0) ≡ true) ⊎ (((c.locals l).dbid == 0) ≡ false)
          → (((c.locals l).dbid ≢ 0)
              × ((put_at l new c.locals l).dbid ≡ (c.locals l).dbid)
              × (r.2.nextid ≡ c.table.nextid))
            ⊎ (((c.locals l).dbid ≡ 0)
                × ((put_at l new c.locals l).dbid ≡ c.table.nextid + 19)
                × (r.2.nextid ≡ c.table.nextid + 16))
      ids (inl e) =
          let unset = (==_iff _ 0).0 e in
          let (id, next) =
            put_new b key cachedlocalnode (c.locals l).dbid body c.table unset v.aligned
              (omega (arith, v.room)) (omega arith) in
          inr (unset, at ∙ omega (arith, id), next)
      ids (inr e) =
          let set : (c.locals l).dbid ≢ 0 = λ none. ground (arith, none, e) in
          let (id, next) = put_old b key cachedlocalnode (c.locals l).dbid body c.table set in
          inl (set, at ∙ id, next)
