-- ===== src/NodeTree/Rename/AfterMove.antt =====
-- node.cpp, Node::setparent: the lists of children and the depths after the move itself.
use mathlib.Core.List.{Memᴰ}
use mathlib.Core.List.Memᴰ
use sdk.Prelude.{
  ℕ, suc, ◌+◌, ◌≡◌, ◌≢◌, ◌≤◌, ◌∙◌, refl, sym, ap, subst, arith, List, [], ◌∷◌, ◌++◌, Bool, true,
  false, Option, none, some, ◌==◌, if◌then◌else◌, All, ==_iff, ◌⊎◌, inl, inr,
}
use sdk.NodeTree.{Nodes, Tree}
use sdk.NodeTree.Depth.{HasDepth, HasDepth-same, moved_up, moved-HasDepth, parents}
use sdk.NodeTree.Checks.{HasDepths}
use sdk.NodeTree.Walks.{SameShape, IsLinked}
use sdk.NodeTree.Rename.{leave, enter, is_parent}
use sdk.NodeTree.Rename.Parents.{left, moved-parents, moved-children}
use sdk.NodeTree.Rename.Moves.{
  IsDistinct, IsChild, IsTree, left-Memᴰ, left-All, left-IsDistinct, lacks, map_All, both_All,
}

IsChild-same :
    (s s' : Nodes) (c : ℕ) (o : Option ℕ) → SameShape s s' → IsChild s c o → IsChild s' c o
IsChild-same s s' c none same i = tt
IsChild-same s s' c (some p) same i = subst (λ l. Memᴰ c l) (sym (same p).2) i

pub IsTree-same : (bound : ℕ) (s s' : Nodes) → SameShape s s' → IsTree bound s → IsTree bound s'
IsTree-same bound s s' same v = record {
  depth = (λ m.
      let (k, h, le) = v.depth m in
      (k, HasDepth-same (parents s) (parents s') (λ i. (same i).1) m k h, le));
  linked = (λ m.
      subst (λ l. All (λ c. (s' c).parent ≡ some m) l) (sym (same m).2)
        (map_All (λ c. (s c).parent ≡ some m) (λ c. (s' c).parent ≡ some m) (s m).children
          (λ c p. (same c).1 ∙ p) (v.linked m)));
  distinct = (λ m. subst IsDistinct (sym (same m).2) (v.distinct m));
  listed = (λ c.
      subst (IsChild s' c) (sym (same c).1) (IsChild-same s s' c (s c).parent same (v.listed c)));
}

pub append_one : (P : ℕ → Type 0) (l : List ℕ) (n : ℕ) → All P l → P n → All P (l ++ (n ∷ []))
append_one P [] n h k = (k, tt)
append_one P (c ∷ l) n (h, hs) k = (h, append_one P l n hs k)

pub append_one-IsDistinct :
    (l : List ℕ) (n : ℕ) → IsDistinct l → All (λ c. c ≢ n) l → IsDistinct (l ++ (n ∷ []))
append_one-IsDistinct [] n h k = (tt, tt)
append_one-IsDistinct (c ∷ l) n (h, hs) (k, ks) =
    (append_one (λ m. m ≢ c) l n h (λ e. k (sym e)), append_one-IsDistinct l n hs ks)

-- The nodes after the move itself.
pub moved-IsTree :
    (bound n p d : ℕ) (t : Tree)
    → IsTree bound t.nodes
    → HasDepth (moved_up n p (parents t.nodes)) p d
    → d ≤ bound
    → IsTree (bound + suc bound) (enter n p (leave n (t.nodes n).parent t)).nodes
moved-IsTree bound n p d t v target le = record {
  depth = deep;
  linked = linked;
  distinct = distinct;
  listed = listed;
}
  where
    o : Option ℕ
    o = (t.nodes n).parent

    after : Nodes
    after = (enter n p (leave n (t.nodes n).parent t)).nodes

    up : (m : ℕ) → parents after m ≡ moved_up n p (parents t.nodes) m
    up = moved-parents n p o t

    deep : HasDepths (bound + suc bound) after
    deep m =
        let (k, h, small) = v.depth m in
        let (k', h', small') = moved-HasDepth (parents t.nodes) n p d target m k h in
        (k', HasDepth-same (moved_up n p (parents t.nodes)) (parents after) up m k' h', omega arith)

    others : (m : ℕ) → All (λ c. c ≢ n) (left n o m (t.nodes m).children)
    others m = lacks t.nodes n o m refl (v.linked m) (v.distinct m)

    stay : (m : ℕ) → All (λ c. (after c).parent ≡ some m) (left n o m (t.nodes m).children)
    stay m =
        map_All (λ c. ((t.nodes c).parent ≡ some m) × (c ≢ n)) (λ c. (after c).parent ≡ some m)
          (left n o m (t.nodes m).children)
          (λ c h. let other : (c == n) ≡ false = ground (arith, h.1) in up c ∙ rw other h.0)
          (both_All (λ c. (t.nodes c).parent ≡ some m) (λ c. c ≢ n)
            (left n o m (t.nodes m).children)
            (left-All (λ c. (t.nodes c).parent ≡ some m) n o m (t.nodes m).children (v.linked m))
            (others m))

    here : (after n).parent ≡ some p
    here = let self : (n == n) ≡ true = ground arith in up n ∙ rw self refl

    linked : IsLinked after
    linked m =
        subst (λ l. All (λ c. (after c).parent ≡ some m) l) (sym (moved-children n p o t m))
          (by_test (m == p) refl)
      where
        by_test :
            (b : Bool)
            → (m == p) ≡ b
            → All
                (λ c. (after c).parent ≡ some m)
                (if b
                  then left n o m (t.nodes m).children ++ (n ∷ [])
                  else left n o m (t.nodes m).children)
        by_test true e =
            append_one (λ c. (after c).parent ≡ some m) (left n o m (t.nodes m).children) n (stay m)
              (here ∙ ap some (sym ((==_iff m p).0 e)))
        by_test false e = stay m

    distinct : (m : ℕ) → IsDistinct (after m).children
    distinct m = subst IsDistinct (sym (moved-children n p o t m)) (by_test (m == p))
      where
        kept : IsDistinct (left n o m (t.nodes m).children)
        kept = left-IsDistinct n o m (t.nodes m).children (v.distinct m)

        by_test :
            (b : Bool)
            → IsDistinct (
                if b
                then left n o m (t.nodes m).children ++ (n ∷ [])
                else left n o m (t.nodes m).children)
        by_test true = append_one-IsDistinct (left n o m (t.nodes m).children) n kept (others m)
        by_test false = kept

    in_place :
        (m c : ℕ)
        → Memᴰ c (left n o m (t.nodes m).children) ⊎ ((m ≡ p) × (c ≡ n))
        → Memᴰ c (after m).children
    in_place m c h =
        subst (λ l. Memᴰ c l) (sym (moved-children n p o t m)) (by_test (m == p) refl h)
      where
        by_test :
            (b : Bool)
            → (m == p) ≡ b
            → Memᴰ c (left n o m (t.nodes m).children) ⊎ ((m ≡ p) × (c ≡ n))
            → Memᴰ c (
                if b
                then left n o m (t.nodes m).children ++ (n ∷ [])
                else left n o m (t.nodes m).children)
        by_test true e (inl i) = Memᴰ.append_left (n ∷ []) i
        by_test true e (inr (same, node)) = Memᴰ.append_right _ (Memᴰ.head node)
        by_test false e (inl i) = i
        by_test false e (inr (same, node)) = ground (arith, same, e)

    stays_listed : (c : ℕ) (q : Option ℕ) → c ≢ n → IsChild t.nodes c q → IsChild after c q
    stays_listed c none other i = tt
    stays_listed c (some q) other i =
        in_place q c (inl (left-Memᴰ n c o q (t.nodes q).children other i))

    listed : (c : ℕ) → IsChild after c (after c).parent
    listed c = subst (IsChild after c) (sym (up c)) (by_test (c == n) refl)
      where
        by_test :
            (b : Bool) → (c == n) ≡ b → IsChild after c (if b then some p else (t.nodes c).parent)
        by_test true e = in_place p c (inr (refl, (==_iff c n).0 e))
        by_test false e =
            stays_listed c (t.nodes c).parent (λ same. ground (arith, same, e)) (v.listed c)

pub deeper : (bound more : ℕ) (s : Nodes) → bound ≤ more → IsTree bound s → IsTree more s
deeper bound more s le v = record {
  depth = (λ m. let (k, h, small) = v.depth m in (k, h, omega arith));
  linked = v.linked;
  distinct = v.distinct;
  listed = v.listed;
}

pub is_parent_lem : (p : ℕ) (o : Option ℕ) → is_parent p o ≡ true → o ≡ some p
unfolding is_parent
is_parent_lem p none e = cc
is_parent_lem p (some q) e = ap some (sym ((==_iff p q).0 e))
