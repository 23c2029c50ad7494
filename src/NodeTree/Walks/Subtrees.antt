-- ===== src/NodeTree/Walks/Subtrees.antt =====
-- megaclient.cpp (MegaClient::proctree) and node.cpp (Node::isbelow): the nodes that a walk over the
-- children processes are the ones from which the parents lead to its start.
use mathlib.Core.List.{Memᴰ}
use mathlib.Core.List.Memᴰ
use mathlib.Core.Option.{some-injective, none-ne-some}
use sdk.Prelude.{
  ℕ, zero, suc, ◌+◌, ◌-◌, ◌≡◌, ◌≤◌, ◌<◌, ◌∙◌, ◌↔◌, refl, sym, ap, subst, arith, List, [], ◌∷◌, ◌++◌,
  Bool, true, false, Option, some, ◌==◌, if◌then◌else◌, All, inl, inr, ==_iff,
}
use sdk.Records.LocalNodes.{filenode}
use sdk.NodeTree.{Nodes, proctree, isbelow}
use sdk.NodeTree.Depth.{HasDepth, parents, path, contains, isbelow-contains}
use sdk.NodeTree.Walks.{SameShape, IsLinked, postorder, visit, flat, proctree-postorder}

in_flat :
    (f : ℕ → List ℕ) (m : ℕ) (ns : List ℕ) → Memᴰ m (flat f ns) → (c : ℕ) × Memᴰ c ns × Memᴰ m (f c)
unfolding flat
in_flat f m [] h = absurd (Memᴰ.not-nil h)
in_flat f m (n ∷ ns) h = elim (Memᴰ.append_cases (f n) h) [
  | inl k ↦ (n, Memᴰ.head refl, k)
  | inr k ↦ let (c, i, j) = in_flat f m ns k in (c, Memᴰ.tail i, j)
]

to_flat : (f : ℕ → List ℕ) (m c : ℕ) (ns : List ℕ) → Memᴰ c ns → Memᴰ m (f c) → Memᴰ m (flat f ns)
unfolding flat
to_flat f m c [] i k = absurd (Memᴰ.not-nil i)
to_flat f m c (n ∷ ns) (Memᴰ.head e) k =
    Memᴰ.append_left (flat f ns) (subst (λ i. Memᴰ m (f i)) e k)
to_flat f m c (n ∷ ns) (Memᴰ.tail i) k = Memᴰ.append_right (f n) (to_flat f m c ns i k)

all_of : (P : ℕ → Type 0) (c : ℕ) (ns : List ℕ) → Memᴰ c ns → All P ns → P c
all_of P c [] i h = absurd (Memᴰ.not-nil i)
all_of P c (n ∷ ns) (Memᴰ.head e) (h, hs) = subst P (sym e) h
all_of P c (n ∷ ns) (Memᴰ.tail i) (h, hs) = all_of P c ns i hs

contains_iff : (n : ℕ) (l : List ℕ) → (contains n l ≡ true) ↔ Memᴰ n l
unfolding contains
contains_iff n [] = ((λ e. cc), (λ i. absurd (Memᴰ.not-nil i)))
contains_iff n (m ∷ l) = by_test (m == n) refl (contains_iff n l)
  where
    by_test :
        (b : Bool)
        → (m == n) ≡ b
        → ((contains n l ≡ true) ↔ Memᴰ n l)
        → ((if b then true else contains n l) ≡ true) ↔ Memᴰ n (m ∷ l)
    by_test true t rest = ((λ e. Memᴰ.head (sym ((==_iff m n).0 t))), (λ i. refl))
    by_test false t rest = (
      (λ e. Memᴰ.tail (rest.0 e)),
      (λ i. elim (Memᴰ.cases_cons i) [ inl same ↦ ground (arith, same, t) | inr k ↦ rest.1 k ]),
    )

path-suc :
    (d : ℕ) (up : ℕ → Option ℕ) (m q : ℕ) → up m ≡ some q → path (suc d) up m ≡ m ∷ path d up q
unfolding path
path-suc d up m q e = rw (e, path) refl

path_start : (d : ℕ) (up : ℕ → Option ℕ) (m : ℕ) → Memᴰ m (path d up m)
unfolding path
path_start zero up m = Memᴰ.head refl
path_start (suc d) up m = Memᴰ.head refl

-- What is on the path, and its parent.
path_up :
    (up : ℕ → Option ℕ) (m c n d : ℕ)
    → HasDepth up m d
    → up c ≡ some n
    → Memᴰ c (path d up m)
    → Memᴰ n (path d up m)
path_up up m c n zero h e k =
    let same : c ≡ m = unfold path in Memᴰ.eq_of_singleton k in
    absurd (none-ne-some n (sym h ∙ ap up (sym same) ∙ e))
path_up up m c n (suc d) (q, e', h) e k =
    rw (path-suc d up m q e')
      (elim (Memᴰ.cases_cons (subst (λ l. Memᴰ c l) (path-suc d up m q e') k)) [
        | inl same ↦
            let next : n ≡ q = some-injective n q (sym e ∙ ap up same ∙ e') in
            Memᴰ.tail (subst (λ i. Memᴰ i (path d up q)) (sym next) (path_start d up q))
        | inr i ↦ Memᴰ.tail (path_up up q c n d h e i)
      ])

-- The nodes that are processed lie below the first one.
processed_below :
    (fuel : ℕ) (s : Nodes) (n m d : ℕ)
    → IsLinked s
    → HasDepth (parents s) m d
    → Memᴰ m (postorder fuel s n)
    → Memᴰ n (path d (parents s) m)
unfolding postorder
processed_below zero s n m d linked h i = absurd (Memᴰ.not-nil i)
processed_below (suc fuel) s n m d linked h i =
    by_type ((s n).node_type == filenode) (λ c k. processed_below fuel s c m d linked h k) i
  where
    by_type :
        (file : Bool)
        → ((c : ℕ) → Memᴰ m (postorder fuel s c) → Memᴰ c (path d (parents s) m))
        → Memᴰ m ((if file then [] else flat (postorder fuel s) (s n).children) ++ (n ∷ []))
        → Memᴰ n (path d (parents s) m)
    by_type true below i =
        subst (λ j. Memᴰ n (path d (parents s) j)) (sym (Memᴰ.eq_of_singleton i))
          (path_start d (parents s) n)
    by_type false below i = elim (Memᴰ.append_cases (flat (postorder fuel s) (s n).children) i) [
      | inr j ↦
          subst (λ j. Memᴰ n (path d (parents s) j)) (sym (Memᴰ.eq_of_singleton j))
            (path_start d (parents s) n)
      | inl j ↦
          let (c, child, k) = in_flat (postorder fuel s) m (s n).children j in
          path_up (parents s) m c n d h
            (all_of (λ c. (s c).parent ≡ some n) c (s n).children child (linked n)) (below c k)
    ]

-- Every node with a parent is among the children of that parent, which is no file.
abbrev pub IsListed : Nodes → Type 0
IsListed s =
    (c p : ℕ)
    → (s c).parent ≡ some p
    → Memᴰ c (s p).children × (((s p).node_type == filenode) ≡ false)

processed_first : (fuel : ℕ) (s : Nodes) (n : ℕ) → Memᴰ n (postorder (suc fuel) s n)
unfolding postorder
processed_first fuel s n = Memᴰ.append_right _ (Memᴰ.head refl)

-- With a node, its children are processed.
processed_child :
    (fuel bound d : ℕ) (s : Nodes) (n x m : ℕ)
    → IsLinked s
    → IsListed s
    → ((i k : ℕ) → HasDepth (parents s) i k → k ≤ bound)
    → HasDepth (parents s) n d
    → bound < fuel + d
    → (s m).parent ≡ some x
    → Memᴰ x (postorder fuel s n)
    → Memᴰ m (postorder fuel s n)
unfolding postorder
processed_child zero bound d s n x m linked listed bounded h le e i = absurd (Memᴰ.not-nil i)
processed_child (suc fuel) bound d s n x m linked listed bounded h le e i =
    by_type ((s n).node_type == filenode) refl
      (λ c child k.
        processed_child fuel bound (suc d) s c x m linked listed bounded
          (n, all_of (λ c. (s c).parent ≡ some n) c (s n).children child (linked n), h)
          (omega arith) e k)
      i
  where
    first : x ≡ n → Memᴰ m (flat (postorder fuel s) (s n).children)
    first same =
        let up = e ∙ ap some same in
        let deep = bounded m (suc d) (n, up, h) in
        let here : Memᴰ m (postorder fuel s m) =
          subst (λ f. Memᴰ m (postorder f s m)) {x = suc (fuel - 1)} (omega arith)
            (processed_first (fuel - 1) s m) in
        to_flat (postorder fuel s) m m (s n).children (listed m n up).0 here

    by_type :
        (file : Bool)
        → ((s n).node_type == filenode) ≡ file
        → ((c : ℕ)
            → Memᴰ c (s n).children
            → Memᴰ x (postorder fuel s c)
            → Memᴰ m (postorder fuel s c))
        → Memᴰ x ((if file then [] else flat (postorder fuel s) (s n).children) ++ (n ∷ []))
        → Memᴰ m ((if file then [] else flat (postorder fuel s) (s n).children) ++ (n ∷ []))
    by_type true t below i =
        let up = e ∙ ap some (Memᴰ.eq_of_singleton i) in let folder = (listed m n up).1 in cc
    by_type false t below i = elim (Memᴰ.append_cases (flat (postorder fuel s) (s n).children) i) [
      | inr j ↦ Memᴰ.append_left (n ∷ []) (first (Memᴰ.eq_of_singleton j))
      | inl j ↦
          let (c, child, k) = in_flat (postorder fuel s) x (s n).children j in
          Memᴰ.append_left (n ∷ [])
            (to_flat (postorder fuel s) m c (s n).children child (below c child k))
    ]

-- The nodes below the first one are processed.
below_processed :
    (fuel bound d k : ℕ) (s : Nodes) (n m : ℕ)
    → IsLinked s
    → IsListed s
    → ((i k : ℕ) → HasDepth (parents s) i k → k ≤ bound)
    → HasDepth (parents s) n d
    → bound < suc fuel + d
    → HasDepth (parents s) m k
    → Memᴰ n (path k (parents s) m)
    → Memᴰ m (postorder (suc fuel) s n)
below_processed fuel bound d zero s n m linked listed bounded h le g i =
    let same : n ≡ m = unfold path in Memᴰ.eq_of_singleton i in
    subst (λ j. Memᴰ j (postorder (suc fuel) s n)) same (processed_first fuel s n)
below_processed fuel bound d (suc k) s n m linked listed bounded h le (q, e, g) i =
    elim (Memᴰ.cases_cons (subst (λ l. Memᴰ n l) (path-suc k (parents s) m q e) i)) [
      | inl same ↦ subst (λ j. Memᴰ j (postorder (suc fuel) s n)) same (processed_first fuel s n)
      | inr j ↦
          processed_child (suc fuel) bound d s n q m linked listed bounded h le e
            (below_processed fuel bound d k s n q linked listed bounded h le g j)
    ]

postorder-isbelow :
    (fuel bound : ℕ) (s : Nodes) (n m d k : ℕ)
    → IsLinked s
    → IsListed s
    → ((i j : ℕ) → HasDepth (parents s) i j → j ≤ bound)
    → HasDepth (parents s) n d
    → HasDepth (parents s) m k
    → bound < fuel
    → Memᴰ m (postorder fuel s n) ↔ (isbelow fuel s m n ≡ some true)
postorder-isbelow zero bound s n m d k linked listed bounded h g le = absurd (omega arith)
postorder-isbelow (suc fuel) bound s n m d k linked listed bounded h g le =
    let says = isbelow-contains (suc fuel) s m n k g (omega (arith, bounded m k g)) in
    (
      (λ i. says ∙ ap some ((contains_iff n _).1 (processed_below (suc fuel) s n m k linked g i))),
      (λ e.
          below_processed fuel bound d k s n m linked listed bounded h (omega arith) g
            ((contains_iff n _).0 (some-injective _ _ (sym says ∙ e)))),
    )

-- With any TreeProc that leaves types, parents and children alone, `proctree` from a node on comes to an end and
-- processes the nodes of a list one after the other; in this list is a node exactly if `isbelow` says that it is
-- below the first one, which is itself among them. Conditions: the lists of children and the parents agree,
-- files have no children, and the fuel is more than the greatest depth of a node.
pub proctree-isbelow {ℓ} :
    {S : Type ℓ} (nodes : S → Nodes) (proc : ℕ → S → S)
    (keeps : (n : ℕ) (s : S) → SameShape (nodes s) (nodes (proc n s))) (fuel bound : ℕ) (s : S)
    (n m d k : ℕ)
    → IsLinked (nodes s)
    → IsListed (nodes s)
    → ((i j : ℕ) → HasDepth (parents (nodes s)) i j → j ≤ bound)
    → HasDepth (parents (nodes s)) n d
    → HasDepth (parents (nodes s)) m k
    → bound < fuel
    → (proctree nodes proc fuel n s ≡ some (visit proc (postorder fuel (nodes s) n) s))
      × (Memᴰ m (postorder fuel (nodes s) n) ↔ (isbelow fuel (nodes s) m n ≡ some true))
proctree-isbelow nodes proc keeps fuel bound s n m d k linked listed bounded h g le = (
  proctree-postorder nodes proc keeps fuel bound d (nodes s) linked bounded n s h (omega arith)
      (λ i. (refl, refl, refl)),
  postorder-isbelow fuel bound (nodes s) n m d k linked listed bounded h g le,
)
