-- ===== src/SyncCache/Storing.antt =====
-- sync.cpp, Sync::cachenodes: the rows of the table after the loop over `insertq`.
use mathlib.Core.List.{Memᴰ}
use mathlib.Core.List.Memᴰ
use mathlib.Core.Option.{some-injective}
use sdk.Prelude.{
  ℕ, zero, suc, ◌+◌, ◌≡◌, ◌≢◌, ◌≤◌, ◌==◌, ==_iff, ◌∙◌, refl, sym, subst, arith, List, [], ◌∷◌, Bool,
  true, false, Option, some, length, Bool-cases, inl, inr, ◌⊎◌,
}
use sdk.Crypto.{SymmCipher}
use sdk.DbTable.{Backend, Table}
use sdk.SyncCache.{Cached, is_ready, write, pass, additions}
use sdk.SyncCache.Loop.{ready_lem, pass_ready, pass_stays, pass-IsPass}
use sdk.SyncCache.Rows.{Fits, IsStored, write-Written}
use sdk.SyncCache.Kept.{
  Written-dbid, Written-nextid, Written-fresh, Written-Fits, Written-self, Written-IsStored,
}

module _ (b : Backend) (key : SymmCipher) (root : ℕ)
    (takes : (st : b.State) (index : ℕ) (x : List ℕ) → (b.put st index x).0 ≡ true) where
  -- What a part of the loop does to a queue and the table; `k` more LocalNodes wait.
  pub record HasRows (k : ℕ) (q : List ℕ) (c : Cached (Table b.State)) (q' : List ℕ)
      (c' : Cached (Table b.State)) : Type 0 where
    pub fits : Fits (k + length q') c'.locals c'.table
    pub same :
        (m : ℕ)
        → ((c'.locals m).parent ≡ (c.locals m).parent)
          × ((c'.locals m).fields ≡ (c.locals m).fields)
    pub ids : (m : ℕ) → (c.locals m).dbid ≢ 0 → (c'.locals m).dbid ≡ (c.locals m).dbid
    pub grown : c.table.nextid ≤ c'.table.nextid
    pub fresh :
        (m : ℕ)
        → (c.locals m).dbid ≡ 0
        → (c'.locals m).dbid ≢ 0
        → c.table.nextid + 16 ≤ (c'.locals m).dbid
    pub kept :
        (m : ℕ)
        → IsStored b key root c.locals c.locals c.table.store m
        → IsStored b key root c'.locals c'.locals c'.table.store m
    pub new :
        (l : ℕ) → Memᴰ l q → Memᴰ l q' ⊎ IsStored b key root c'.locals c'.locals c'.table.store l
    pub rest :
        (i : ℕ)
        → i ≢ 0
        → ((l : ℕ) → Memᴰ l q → (c'.locals l).dbid ≢ i)
        → b.get c'.table.store i ≡ b.get c.table.store i

  pass-HasRows :
      (k : ℕ) (q : List ℕ) (c : Cached (Table b.State))
      → ((l : ℕ) → Memᴰ l q → l ≢ root)
      → Fits (k + length q) c.locals c.table
      → HasRows k q c (pass b key root q c).0 (pass b key root q c).2
  pass-HasRows k [] c below v =
      unfold pass in
      record {
        fits = v;
        same = (λ m. (refl, refl));
        ids = (λ m set. refl);
        grown = omega arith;
        fresh = (λ m unset set. absurd (set unset));
        kept = (λ m s. s);
        new = (λ l i. inl i);
        rest = (λ i set away. refl);
      }
  pass-HasRows k (l ∷ ls) c below v = elim (Bool-cases (is_ready root c.locals l)) [
    | inl e ↦
        let fit = subst (λ n. Fits n c.locals c.table) {y = suc (k + length ls)} (omega arith) v in
        let c' = write b key l c in
        let w = write-Written b key takes (k + length ls) l c fit in
        let self =
          Written-self b key takes root (k + length ls) l c c' w (below l (Memᴰ.head refl))
            (ready_lem b key root c.locals l e) in
        let later =
          pass-HasRows k ls c' (λ m i. below m (Memᴰ.tail i))
            (Written-Fits b key takes (k + length ls) l c c' fit w) in
        subst (λ (r : List ℕ × Bool × Cached (Table b.State)). HasRows k (l ∷ ls) c r.0 r.2)
          (sym (pass_ready b key root l ls c e))
          (record {
            fits = later.fits;
            same = (λ m. ((later.same m).0 ∙ (w.same m).0, (later.same m).1 ∙ (w.same m).1));
            ids = (λ m set.
                let once = Written-dbid b key takes l c c' w m set in
                later.ids m (λ none. set (sym once ∙ none)) ∙ once);
            grown = omega (arith, Written-nextid b key takes l c c' w, later.grown);
            fresh = (λ m unset set. elim (Written-fresh b key takes l m c c' w unset) [
              | inl still ↦
                  omega (arith, later.fresh m still set, Written-nextid b key takes l c c' w)
              | inr (given, above) ↦ omega (arith, later.ids m given, above)
            ]);
            kept = (λ m s. later.kept m (
                Written-IsStored b key takes root (k + length ls) l m c c' fit w
                  (below l (Memᴰ.head refl)) s));
            new = (λ m i. elim (Memᴰ.cases_cons i) [
              | inl at ↦ inr (
                  later.kept m
                    (subst (IsStored b key root c'.locals c'.locals c'.table.store) (sym at) self))
              | inr j ↦ later.new m j
            ]);
            rest = (λ i set away.
                later.rest i set (λ m j. away m (Memᴰ.tail j))
                ∙ w.rest i (λ at. away l (Memᴰ.head refl) (later.ids l self.0 ∙ sym at)));
          })
    | inr e ↦
        let fit = subst (λ n. Fits n c.locals c.table) {y = suc k + length ls} (omega arith) v in
        let later = pass-HasRows (suc k) ls c (λ m i. below m (Memᴰ.tail i)) fit in
        subst (λ (r : List ℕ × Bool × Cached (Table b.State)). HasRows k (l ∷ ls) c r.0 r.2)
          (sym (pass_stays b key root l ls c e))
          (record {
            fits =
                subst (λ n. Fits n (pass b key root ls c).2.locals (pass b key root ls c).2.table)
                  (omega arith) later.fits;
            same = later.same;
            ids = later.ids;
            grown = later.grown;
            fresh = later.fresh;
            kept = later.kept;
            new = (λ m i. elim (Memᴰ.cases_cons i) [
              | inl at ↦ inl (Memᴰ.head at)
              | inr j ↦ elim (later.new m j) [ inl h ↦ inl (Memᴰ.tail h) | inr s ↦ inr s ]
            ]);
            rest = (λ i set away. later.rest i set (λ m j. away m (Memᴰ.tail j)));
          })
  ]

  then-HasRows :
      (q q' q'' : List ℕ) (c c' c'' : Cached (Table b.State))
      → ((l : ℕ) → Memᴰ l q' → Memᴰ l q)
      → HasRows 0 q c q' c'
      → HasRows 0 q' c' q'' c''
      → HasRows 0 q c q'' c''
  then-HasRows q q' q'' c c' c'' subset one two = record {
    fits = two.fits;
    same = (λ m. ((two.same m).0 ∙ (one.same m).0, (two.same m).1 ∙ (one.same m).1));
    ids = (λ m set. let once = one.ids m set in two.ids m (λ none. set (sym once ∙ none)) ∙ once);
    grown = omega (arith, one.grown, two.grown);
    fresh = (λ m unset set. elim (Bool-cases ((c'.locals m).dbid == 0)) [
      | inl e ↦ omega (arith, two.fresh m ((==_iff _ 0).0 e) set, one.grown)
      | inr e ↦
          let given = λ (none : (c'.locals m).dbid ≡ 0). absurd {A = ⊥} (ground (arith, none, e)) in
          omega (arith, two.ids m given, one.fresh m unset given)
    ]);
    kept = (λ m s. two.kept m (one.kept m s));
    new = (λ l i. elim (one.new l i) [ inl j ↦ two.new l j | inr s ↦ inr (two.kept l s) ]);
    rest = (λ i set away.
        two.rest i set (λ l j. away l (subset l j))
        ∙ one.rest i set (λ l j at. away l j (two.ids l (λ none. set (sym at ∙ none)) ∙ at)));
  }

  pub additions-HasRows :
      (fuel : ℕ) (q : List ℕ) (c : Cached (Table b.State)) (q' : List ℕ)
      (c' : Cached (Table b.State))
      → ((l : ℕ) → Memᴰ l q → l ≢ root)
      → Fits (length q) c.locals c.table
      → additions b key root fuel q c ≡ some (q', c')
      → HasRows 0 q c q' c'
  unfolding additions
  additions-HasRows zero q c q' c' below v e = cc
  additions-HasRows (suc fuel) q c q' c' below v e =
      let one = pass-HasRows 0 q c below (subst (λ n. Fits n c.locals c.table) (omega arith) v) in
      let subset = (pass-IsPass b key root q c).subset in
      by_added (pass b key root q c) one subset
        (λ r one subset e.
          additions-HasRows fuel r.0 r.2 q' c' (λ l i. below l (subset l i))
            (subst (λ n. Fits n r.2.locals r.2.table) (omega arith) one.fits) e)
        e
    where
      go_on : List ℕ × Bool × Cached (Table b.State) → Option (List ℕ × Cached (Table b.State))
      go_on (q', added, c') = elim added [
        | true ↦ additions b key root fuel q' c'
        | false ↦ some (q', c')
      ]

      by_added :
          (r : List ℕ × Bool × Cached (Table b.State))
          → HasRows 0 q c r.0 r.2
          → ((l : ℕ) → Memᴰ l r.0 → Memᴰ l q)
          → ((r : List ℕ × Bool × Cached (Table b.State))
              → HasRows 0 q c r.0 r.2
              → ((l : ℕ) → Memᴰ l r.0 → Memᴰ l q)
              → additions b key root fuel r.0 r.2 ≡ some (q', c')
              → HasRows 0 r.0 r.2 q' c')
          → go_on r ≡ some (q', c')
          → HasRows 0 q c q' c'
      by_added (q₁, true, c₁) one subset later e =
          then-HasRows q q₁ q' c c₁ c' subset one (later (q₁, true, c₁) one subset e)
      by_added (q₁, false, c₁) one subset later e =
          let same = some-injective (q₁, c₁) (q', c') e in
          subst (λ (r : List ℕ × Cached (Table b.State)). HasRows 0 q c r.0 r.1) same one
