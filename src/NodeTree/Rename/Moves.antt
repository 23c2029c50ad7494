-- ===== src/NodeTree/Rename/Moves.antt =====
-- megaclient.cpp, MegaClient::rename: the nodes remain trees.
use mathlib.Core.List.{Memᴰ}
use mathlib.Core.List.Memᴰ
use sdk.Prelude.{
  ℕ, ◌≡◌, ◌≢◌, ◌∙◌, refl, sym, ap, subst, arith, List, [], ◌∷◌, Bool, true, false, Option, none,
  some, ◌==◌, if◌then◌else◌, All, ==_iff, inl, inr,
}
use mathlib.Core.Option.{some-injective, none-ne-some}
use sdk.NodeTree.{Nodes}
use sdk.NodeTree.Depth.{parents}
use sdk.NodeTree.Checks.{HasDepths}
use sdk.NodeTree.Walks.{IsLinked}
use sdk.NodeTree.Rename.{erase}
use sdk.NodeTree.Rename.Parents.{left}

abbrev pub IsDistinct : List ℕ → Type 0
IsDistinct [] = Unit {0}
IsDistinct (n ∷ ns) = All (λ m. m ≢ n) ns × IsDistinct ns

-- If the node has this parent, then it is in the list of children of the parent.
abbrev pub IsChild : Nodes → ℕ → Option ℕ → Type 0
IsChild s c none = Unit {0}
IsChild s c (some p) = Memᴰ c (s p).children

-- Every node is at most `bound` steps below one without a parent, every list of children has only
-- children of that node, each one once, and every node with a parent is in the list of that parent.
pub record IsTree (bound : ℕ) (s : Nodes) : Type 0 where
  pub depth : HasDepths bound s
  pub linked : IsLinked s
  pub distinct : (m : ℕ) → IsDistinct (s m).children
  pub listed : (c : ℕ) → IsChild s c (s c).parent

erase-All {ℓ} : (P : ℕ → Type ℓ) (n : ℕ) (l : List ℕ) → All P l → All P (erase n l)
unfolding erase
erase-All P n [] h = tt
erase-All P n (m ∷ l) (h, hs) = by_test (m == n) (erase-All P n l hs)
  where
    by_test : (b : Bool) → All P (erase n l) → All P (if b then l else m ∷ erase n l)
    by_test true k = hs
    by_test false k = (h, k)

erase-IsDistinct : (n : ℕ) (l : List ℕ) → IsDistinct l → IsDistinct (erase n l)
unfolding erase
erase-IsDistinct n [] h = tt
erase-IsDistinct n (m ∷ l) (h, hs) =
    by_test (m == n) (erase-All (λ i. i ≢ m) n l h) (erase-IsDistinct n l hs)
  where
    by_test :
        (b : Bool)
        → All (λ i. i ≢ m) (erase n l)
        → IsDistinct (erase n l)
        → IsDistinct (if b then l else m ∷ erase n l)
    by_test true k k' = hs
    by_test false k k' = (k, k')

erased : (n : ℕ) (l : List ℕ) → IsDistinct l → All (λ c. c ≢ n) (erase n l)
unfolding erase
erased n [] h = tt
erased n (m ∷ l) (h, hs) = by_test (m == n) refl (erased n l hs)
  where
    by_test :
        (b : Bool)
        → (m == n) ≡ b
        → All (λ c. c ≢ n) (erase n l)
        → All (λ c. c ≢ n) (if b then l else m ∷ erase n l)
    by_test true e k = subst (λ i. All (λ c. c ≢ i) l) ((==_iff m n).0 e) h
    by_test false e k = ((λ i. ground (arith, i, e)), k)

pub left-All {ℓ} :
    (P : ℕ → Type ℓ) (n : ℕ) (o : Option ℕ) (m : ℕ) (l : List ℕ) → All P l → All P (left n o m l)
left-All P n none m l h = h
left-All P n (some q) m l h = by_test (m == q)
  where
    by_test : (b : Bool) → All P (if b then erase n l else l)
    by_test true = erase-All P n l h
    by_test false = h

pub left-IsDistinct :
    (n : ℕ) (o : Option ℕ) (m : ℕ) (l : List ℕ) → IsDistinct l → IsDistinct (left n o m l)
left-IsDistinct n none m l h = h
left-IsDistinct n (some q) m l h = by_test (m == q)
  where
    by_test : (b : Bool) → IsDistinct (if b then erase n l else l)
    by_test true = erase-IsDistinct n l h
    by_test false = h

pub map_All : (P Q : ℕ → Type 0) (l : List ℕ) → ((c : ℕ) → P c → Q c) → All P l → All Q l
map_All P Q [] f h = tt
map_All P Q (c ∷ l) f (h, hs) = (f c h, map_All P Q l f hs)

pub both_All : (P Q : ℕ → Type 0) (l : List ℕ) → All P l → All Q l → All (λ c. P c × Q c) l
both_All P Q [] h k = tt
both_All P Q (c ∷ l) (h, hs) (k, ks) = ((h, k), both_All P Q l hs ks)

-- After the node has left its parent, it is nobody's child.
pub lacks :
    (s : Nodes) (n : ℕ) (o : Option ℕ) (m : ℕ)
    → parents s n ≡ o
    → All (λ c. (s c).parent ≡ some m) (s m).children
    → IsDistinct (s m).children
    → All (λ c. c ≢ n) (left n o m (s m).children)
lacks s n none m e linked distinct =
    map_All _ _ (s m).children
      (λ c p i. none-ne-some m (sym e ∙ ap (λ j. (s j).parent) (sym i) ∙ p)) linked
lacks s n (some q) m e linked distinct = by_test (m == q) refl
  where
    by_test :
        (b : Bool)
        → (m == q) ≡ b
        → All (λ c. c ≢ n) (if b then erase n (s m).children else (s m).children)
    by_test true t = erased n (s m).children distinct
    by_test false t =
        map_All _ _ (s m).children
          (λ c p i.
            let same : m ≡ q = some-injective m q (sym p ∙ ap (λ j. (s j).parent) i ∙ e) in
            ground (arith, same, t))
          linked

erase-Memᴰ : (n c : ℕ) (l : List ℕ) → c ≢ n → Memᴰ c l → Memᴰ c (erase n l)
unfolding erase
erase-Memᴰ n c [] other i = absurd (Memᴰ.not-nil i)
erase-Memᴰ n c (m ∷ l) other i = by_test (m == n) refl (erase-Memᴰ n c l other)
  where
    by_test :
        (b : Bool)
        → (m == n) ≡ b
        → (Memᴰ c l → Memᴰ c (erase n l))
        → Memᴰ c (if b then l else m ∷ erase n l)
    by_test true e later = elim (Memᴰ.cases_cons i) [
      | inl same ↦ absurd (other (same ∙ (==_iff m n).0 e))
      | inr j ↦ j
    ]
    by_test false e later = elim (Memᴰ.cases_cons i) [
      | inl same ↦ Memᴰ.head same
      | inr j ↦ Memᴰ.tail (later j)
    ]

pub left-Memᴰ :
    (n c : ℕ) (o : Option ℕ) (m : ℕ) (l : List ℕ) → c ≢ n → Memᴰ c l → Memᴰ c (left n o m l)
left-Memᴰ n c none m l other i = i
left-Memᴰ n c (some q) m l other i = by_test (m == q)
  where
    by_test : (b : Bool) → Memᴰ c (if b then erase n l else l)
    by_test true = erase-Memᴰ n c l other i
    by_test false = i
