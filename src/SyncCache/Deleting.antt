-- ===== src/SyncCache/Deleting.antt =====
-- sync.cpp, Sync::cachenodes: what the deletions do to the rows of the table.
use mathlib.Core.List.{Memᴰ}
use mathlib.Core.List.Memᴰ
use sdk.Prelude.{
  ◌==◌, ==_iff, ap, arith, Bool-cases, ℕ, ◌≡◌, ◌∙◌, refl, sym, subst, List, [], ◌∷◌, none, All, inl,
  inr, ◌⊎◌,
}
use sdk.DbTable.{Backend, Table}
use sdk.SyncCache.{Transaction, delete_all, on_store}

pub to_All : (P : ℕ → Type 0) (q : List ℕ) → ((l : ℕ) → Memᴰ l q → P l) → All P q
to_All P [] f = tt
to_All P (l ∷ q) f = (f l (Memᴰ.head refl), to_All P q (λ m i. f m (Memᴰ.tail i)))

pub from_All : (P : ℕ → Type 0) (q : List ℕ) (l : ℕ) → All P q → Memᴰ l q → P l
from_All P [] l h i = absurd (Memᴰ.not-nil i)
from_All P (m ∷ q) l (h, hs) (Memᴰ.head e) = subst P (sym e) h
from_All P (m ∷ q) l (h, hs) (Memᴰ.tail i) = from_All P q l hs i

module _ (b : Backend) (v : Transaction b) where
  pub delete_all-nextid :
      (ids : List ℕ) (t : Table b.State) → (delete_all b v ids t).nextid ≡ t.nextid
  unfolding delete_all
  delete_all-nextid [] t = refl
  delete_all-nextid (id ∷ ids) t = delete_all-nextid ids (on_store (λ st. v.del st id) t)

  -- The rows under the identifiers are gone, and the others are as they were.
  pub delete_all-get :
      (ids : List ℕ) (t : Table b.State) (i : ℕ)
      → (Memᴰ i ids × (b.get (delete_all b v ids t).store i ≡ none))
        ⊎ ((Memᴰ i ids → ⊥) × (b.get (delete_all b v ids t).store i ≡ b.get t.store i))
  unfolding delete_all
  delete_all-get [] t i = inr (Memᴰ.not-nil, refl)
  delete_all-get (id ∷ ids) t i = elim (delete_all-get ids (on_store (λ st. v.del st id) t) i) [
    | inl (j, e) ↦ inl (Memᴰ.tail j, e)
    | inr (away, e) ↦ elim (Bool-cases (i == id)) [
      | inl same ↦
          let at = (==_iff i id).0 same in
          inl (Memᴰ.head at, e ∙ ap (b.get (v.del t.store id)) at ∙ v.get-del_self t.store id)
      | inr other ↦
          let apart = λ (at : i ≡ id). absurd {A = ⊥} (ground (arith, at, other)) in
          inr (
            (λ j. elim (Memᴰ.cases_cons j) [ inl at ↦ apart at | inr k ↦ away k ]),
            e ∙ v.get-del_other t.store id i apart,
          )
    ]
  ]
