-- ===== src/SyncCache/Loop.antt =====
-- sync.cpp, Sync::cachenodes: the loop over `insertq` ends, and what it leaves behind is stuck.
use mathlib.Core.List.{Memᴰ}
use mathlib.Core.List.Memᴰ
use sdk.Prelude.{
  ℕ, zero, suc, ◌≡◌, ◌≢◌, ◌≤◌, ◌<◌, ◌∙◌, refl, sym, ap, subst, arith, List, [], ◌∷◌, Bool, true,
  false, Option, some, ◌==◌, if◌then◌else◌, All, length, Bool-cases, inl, inr, ◌⊎◌, ==_iff,
}
use sdk.Crypto.{SymmCipher}
use sdk.DbTable.{Backend, Table, put}
use sdk.DbTable.Allocation.{put-dbid}
use sdk.SyncCache.{
  Local, Cached, cachedlocalnode, cachable, put_at, put_local, is_ready, write, pass, additions,
}

-- Parents are as they were, and a LocalNode with an identifier keeps one.
abbrev pub Grows : {T : Type 0} → Cached T → Cached T → Type 0
Grows c c' =
    (m : ℕ)
    → ((c'.locals m).parent ≡ (c.locals m).parent)
      × ((c.locals m).dbid ≢ 0 → (c'.locals m).dbid ≢ 0)

pub put_at-field {ℓ} :
    {A : Type ℓ} (f : Local → A) (l m : ℕ) (x : Local) (locals : ℕ → Local)
    → f (put_at l x locals m) ≡ (if m == l then f x else f (locals m))
put_at-field f l m x locals = elim (Bool-cases (m == l)) [ inl e ↦ rw e refl | inr e ↦ rw e refl ]

module _ (b : Backend) (key : SymmCipher) (root : ℕ) where
  pub write-parent :
      (l m : ℕ) (c : Cached (Table b.State))
      → ((write b key l c).locals m).parent ≡ (c.locals m).parent
  unfolding write put_local
  write-parent l m c = put_at-field (λ x. x.parent) l m _ c.locals ∙ by_test (m == l) refl
    where
      by_test :
          (t : Bool)
          → (m == l) ≡ t
          → (if t then (c.locals l).parent else (c.locals m).parent) ≡ (c.locals m).parent
      by_test true e = ap (λ i. (c.locals i).parent) (sym ((==_iff m l).0 e))
      by_test false e = refl

  write-dbid :
      (l m : ℕ) (c : Cached (Table b.State))
      → (m ≡ l) ⊎ ((c.locals m).dbid ≢ 0)
      → ((write b key l c).locals m).dbid ≢ 0
  unfolding write put_local cachable
  write-dbid l m c h =
      λ e. by_test (m == l) refl h (sym (put_at-field (λ x. x.dbid) l m _ c.locals) ∙ e)
    where
      new : ℕ
      new = (put b key cachedlocalnode (cachable c.locals l) c.table).1.dbid

      by_test :
          (t : Bool)
          → (m == l) ≡ t
          → (m ≡ l) ⊎ ((c.locals m).dbid ≢ 0)
          → (if t then new else (c.locals m).dbid) ≢ 0
      by_test true e h = put-dbid b key cachedlocalnode (c.locals l).dbid _ c.table refl
      by_test false e (inl same) = λ none. ground (arith, same, e)
      by_test false e (inr set) = set

  pub ready_lem :
      (locals : ℕ → Local) (l : ℕ)
      → is_ready root locals l ≡ true
      → ((locals (locals l).parent).dbid ≢ 0) ⊎ ((locals l).parent ≡ root)
  unfolding is_ready
  ready_lem locals l h = elim (Bool-cases ((locals l).parent == root)) [
    | inl e ↦ inr ((==_iff _ root).0 e)
    | inr e ↦ inl (λ none. ground (arith, h, e, none))
  ]

  not_ready :
      (locals : ℕ → Local) (l : ℕ)
      → is_ready root locals l ≡ false
      → ((locals (locals l).parent).dbid ≡ 0) × ((locals l).parent ≢ root)
  unfolding is_ready
  not_ready locals l h = (ground (arith, h), (λ e. ground (arith, h, e)))

  -- The two cases of a round of the inner loop.
  pub pass_ready :
      (l : ℕ) (ls : List ℕ) (c : Cached (Table b.State))
      → is_ready root c.locals l ≡ true
      → pass b key root (l ∷ ls) c
        ≡ (let r = pass b key root ls (write b key l c) in (r.0, true, r.2))
  unfolding pass
  pass_ready l ls c e = rw (e, pass) refl

  pub pass_stays :
      (l : ℕ) (ls : List ℕ) (c : Cached (Table b.State))
      → is_ready root c.locals l ≡ false
      → pass b key root (l ∷ ls) c ≡ (let r = pass b key root ls c in (l ∷ r.0, r.1, r.2))
  unfolding pass
  pass_stays l ls c e = rw (e, pass) refl

  -- What holds of every pass.
  pub record IsPass (q : List ℕ) (c : Cached (Table b.State))
      (r : List ℕ × Bool × Cached (Table b.State)) : Type 0 where
    pub grows : Grows c r.2
    pub kept : (l : ℕ) → Memᴰ l q → Memᴰ l r.0 ⊎ ((r.2.locals l).dbid ≢ 0)
    pub subset : (l : ℕ) → Memᴰ l r.0 → Memᴰ l q
    pub shorter : (r.1 ≡ true → length r.0 < length q) × (length r.0 ≤ length q)
    pub stuck : r.1 ≡ false → (r.2 ≡ c) × All (λ l. is_ready root c.locals l ≡ false) r.0

  pub pass-IsPass : (q : List ℕ) (c : Cached (Table b.State)) → IsPass q c (pass b key root q c)
  pass-IsPass [] c =
      unfold pass in
      record {
        grows = (λ m. (refl, (λ set. set)));
        kept = (λ l i. inl i);
        subset = (λ l i. i);
        shorter = ((λ e. cc), omega arith);
        stuck = (λ e. (refl, tt));
      }
  pass-IsPass (l ∷ ls) c = elim (Bool-cases (is_ready root c.locals l)) [
    | inl e ↦
        let c' = write b key l c in
        let rest = pass-IsPass ls c' in
        subst (IsPass (l ∷ ls) c) (sym (pass_ready l ls c e)) (record {
          grows = (λ m. (
            (rest.grows m).0 ∙ write-parent l m c,
            (λ set. (rest.grows m).1 (write-dbid l m c (inr set))),
          ));
          kept = (λ m i. elim (Memᴰ.cases_cons i) [
            | inl same ↦ inr ((rest.grows m).1 (write-dbid l m c (inl same)))
            | inr j ↦ rest.kept m j
          ]);
          subset = (λ m i. Memᴰ.tail (rest.subset m i));
          shorter = ((λ t. omega (arith, rest.shorter.1)), omega (arith, rest.shorter.1));
          stuck = (λ e. cc);
        })
    | inr e ↦
        let rest = pass-IsPass ls c in
        subst (IsPass (l ∷ ls) c) (sym (pass_stays l ls c e)) (record {
          grows = rest.grows;
          kept = (λ m i. elim (Memᴰ.cases_cons i) [
            | inl same ↦ inl (Memᴰ.head same)
            | inr j ↦ elim (rest.kept m j) [ inl k ↦ inl (Memᴰ.tail k) | inr set ↦ inr set ]
          ]);
          subset = (λ m i. elim (Memᴰ.cases_cons i) [
            | inl same ↦ Memᴰ.head same
            | inr j ↦ Memᴰ.tail (rest.subset m j)
          ]);
          shorter = ((λ t. omega (arith, rest.shorter.0 t)), omega (arith, rest.shorter.1));
          stuck = (λ t. ((rest.stuck t).0, (e, (rest.stuck t).1)));
        })
  ]

  -- What the outer loop ends with.
  pub record IsEnd (q : List ℕ) (c : Cached (Table b.State)) (q' : List ℕ)
      (c' : Cached (Table b.State)) : Type 0 where
    pub grown : Grows c c'
    pub left : (l : ℕ) → Memᴰ l q → Memᴰ l q' ⊎ ((c'.locals l).dbid ≢ 0)
    pub only : (l : ℕ) → Memᴰ l q' → Memᴰ l q
    pub no_more :
        All (λ l. ((c'.locals (c'.locals l).parent).dbid ≡ 0) × ((c'.locals l).parent ≢ root)) q'

  All-not_ready :
      (locals : ℕ → Local) (q : List ℕ)
      → All (λ l. is_ready root locals l ≡ false) q
      → All (λ l. ((locals (locals l).parent).dbid ≡ 0) × ((locals l).parent ≢ root)) q
  All-not_ready locals [] h = tt
  All-not_ready locals (l ∷ q) (h, hs) = (not_ready locals l h, All-not_ready locals q hs)

  pub additions-IsEnd :
      (fuel : ℕ) (q : List ℕ) (c : Cached (Table b.State))
      → length q < fuel
      → (q' : List ℕ) × (c' : Cached (Table b.State)) × (additions b key root fuel q c
          ≡ some (q', c'))
        × IsEnd q c q' c'
  unfolding additions
  additions-IsEnd zero q c le = absurd (omega arith)
  additions-IsEnd (suc fuel) q c le =
      by_added (pass b key root q c) (pass-IsPass q c) (λ q' c' le. additions-IsEnd fuel q' c' le)
    where
      go_on : List ℕ × Bool × Cached (Table b.State) → Option (List ℕ × Cached (Table b.State))
      go_on (q', added, c') = elim added [
        | true ↦ additions b key root fuel q' c'
        | false ↦ some (q', c')
      ]

      by_added :
          (r : List ℕ × Bool × Cached (Table b.State))
          → IsPass q c r
          → ((q' : List ℕ) (c' : Cached (Table b.State))
              → length q' < fuel
              → (q'' : List ℕ) × (c'' : Cached (Table b.State)) × (additions b key root fuel q' c'
                  ≡ some (q'', c''))
                × IsEnd q' c' q'' c'')
          → (q'' : List ℕ) × (c'' : Cached (Table b.State)) × (go_on r ≡ some (q'', c''))
            × IsEnd q c q'' c''
      by_added (q', true, c') v later =
          let (q'', c'', e, end) = later q' c' (omega (arith, v.shorter.0 refl)) in
          (
            q'',
            c'',
            e,
            record {
              grown = (λ m.
                  ((end.grown m).0 ∙ (v.grows m).0, (λ set. (end.grown m).1 ((v.grows m).1 set))));
              left = (λ l i. elim (v.kept l i) [
                | inl j ↦ end.left l j
                | inr set ↦ inr ((end.grown l).1 set)
              ]);
              only = (λ l i. v.subset l (end.only l i));
              no_more = end.no_more;
            },
          )
      by_added (q', false, c') v later = (
        q',
        c',
        refl,
        record {
          grown = v.grows;
          left = v.kept;
          only = v.subset;
          no_more =
              subst
                (λ (d : Cached (Table b.State)).
                  All
                    (λ l. ((d.locals (d.locals l).parent).dbid ≡ 0) × ((d.locals l).parent ≢ root))
                    q')
                (sym (v.stuck refl).0) (All-not_ready c.locals q' (v.stuck refl).1);
        },
      )
