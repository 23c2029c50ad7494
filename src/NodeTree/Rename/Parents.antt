-- ===== src/NodeTree/Rename/Parents.antt =====
-- node.cpp and megaclient.cpp: what a move does to the parents of all nodes.
use sdk.Prelude.{
  ℕ, ◌≡◌, ◌∙◌, refl, sym, ap, List, [], ◌∷◌, ◌++◌, Bool, true, false, not, ◌&&◌, Option, none, some,
  ◌==◌, if◌then◌else◌, Bool-cases, inl, inr, ==_iff,
}
use sdk.NodeTree.{Node, Nodes, Tree, put_at, set_node, set_local, del_sync_get}
use sdk.NodeTree.Depth.{parents}
use sdk.NodeTree.Walks.{SameShape, same_then}
use sdk.NodeTree.Rename.{
  erase, leave, enter, keep_local, keep_locals, update_locals, detach, mark_deleted, notifynode,
  is_some, announce, announce_if, is_new_there, local_of, in_sync,
}

-- Types, parents and children of all nodes are as they were.
abbrev pub Same : Tree → Tree → Type 0
Same t t' = SameShape t.nodes t'.nodes

if_Same : (b : Bool) (x y t : Tree) → Same t x → Same t y → Same t (if b then x else y)
if_Same true x y t h k = h
if_Same false x y t h k = k

then-Same : (a b c : Tree) → Same a b → Same b c → Same a c
then-Same a b c h k = same_then a.nodes b.nodes c.nodes h k

pub put_at-field {ℓ} :
    {A : Type ℓ} (f : Node → A) (n m : ℕ) (x : Node) (s : Nodes)
    → f (put_at n x s m) ≡ (if m == n then f x else f (s m))
unfolding put_at
put_at-field f n m x s = elim (Bool-cases (m == n)) [ inl e ↦ rw e refl | inr e ↦ rw e refl ]

pub put_back {ℓ} :
    {A : Type ℓ} (f : Node → A) (n : ℕ) (x : Node) (s : Nodes)
    → f x ≡ f (s n)
    → (m : ℕ) → f (put_at n x s m) ≡ f (s m)
put_back f n x s same m = put_at-field f n m x s ∙ by_test (m == n) refl
  where
    by_test : (b : Bool) → (m == n) ≡ b → (if b then f x else f (s m)) ≡ f (s m)
    by_test true e = same ∙ ap (λ i. f (s i)) (sym ((==_iff m n).0 e))
    by_test false e = refl

set_node-Same :
    (n : ℕ) (x : Node) (t : Tree)
    → (x.node_type ≡ (t.nodes n).node_type)
      × (x.parent ≡ (t.nodes n).parent)
      × (x.children ≡ (t.nodes n).children)
    → Same t (set_node n x t)
unfolding set_node
set_node-Same n x t (h, k, l) m = (
  put_back (λ x. x.node_type) n x t.nodes h m,
  put_back (λ x. x.parent) n x t.nodes k m,
  put_back (λ x. x.children) n x t.nodes l m,
)

still : (t : Tree) → Same t t
still t m = (refl, refl, refl)

mark_deleted-Same : (b : Bool) (l : ℕ) (t : Tree) → Same t (mark_deleted b l t)
unfolding mark_deleted set_local
mark_deleted-Same b l t = still t

keep_local-Same : (n : ℕ) (o : Option ℕ) (t : Tree) → Same t (keep_local n o t)
unfolding keep_local
keep_local-Same n none t = still t
keep_local-Same n (some l) t = if_Same _ _ _ t (mark_deleted-Same (t.nodes n).removed l t) (still t)

keep_locals-Same : (n : ℕ) (t : Tree) → Same t (keep_locals n t)
unfolding keep_locals
keep_locals-Same n t = by_parent (local_of t' (t'.nodes n).parent)
  where
    t' : Tree
    t' = keep_local n (t.nodes n).localnode t

    first : Same t t'
    first = keep_local-Same n (t.nodes n).localnode t

    by_parent :
        (o : Option ℕ)
        → Same t (elim o [
          | none ↦ t'
          | some lp ↦
              if is_new_there t' (t'.nodes n).localnode lp
              then mark_deleted (t'.nodes n).removed lp t'
              else t'
        ])
    by_parent none = first
    by_parent (some lp) =
        if_Same _ _ t' t
          (then-Same t t' (mark_deleted (t'.nodes n).removed lp t') first
            (mark_deleted-Same (t'.nodes n).removed lp t'))
          first

detach-Same : (n l : ℕ) (t : Tree) → Same t (detach n l t)
unfolding detach set_local
detach-Same n l t = set_node-Same n _ _ (refl, refl, refl)

update_locals-Same : (n : ℕ) (t : Tree) → Same t (update_locals n t)
unfolding update_locals
update_locals-Same n t = by_local (t.nodes n).localnode
  where
    by_local :
        (o : Option ℕ)
        → Same t (elim o [
          | none ↦ keep_locals n t
          | some l ↦
              if in_sync t (some l)
                && is_some (t.nodes n).parent
                && not (is_some (local_of t (t.nodes n).parent))
              then detach n l t
              else keep_locals n t
        ])
    by_local none = keep_locals-Same n t
    by_local (some l) = if_Same _ _ _ t (detach-Same n l t) (keep_locals-Same n t)

notifynode-Same : (n : ℕ) (t : Tree) → Same t (notifynode n t)
unfolding notifynode
notifynode-Same n t =
    let first = update_locals-Same n t in
    let t' = update_locals n t in
    if_Same _ _ _ t first (
      then-Same t t' (set_node n (record (t'.nodes n) { notified = true }) t') first
        (set_node-Same n _ t' (refl, refl, refl)))

pub announce_if-Same :
    (moved : Bool) (n p syncdel : ℕ) (t : Tree) → Same t (announce_if moved n p syncdel t)
unfolding announce_if announce
announce_if-Same true n p syncdel t =
    let t' = set_node n (record (t.nodes n) { changed_parent = true }) t in
    then-Same t t' (notifynode n t') (set_node-Same n _ t (refl, refl, refl)) (notifynode-Same n t')
announce_if-Same false n p syncdel t = still t

pub del_sync_get-Same : (n : ℕ) (t : Tree) → Same t (del_sync_get n t)
unfolding del_sync_get
del_sync_get-Same n t = by_get (t.nodes n).syncget
  where
    by_get :
        (o : Option ℕ)
        → Same t (elim o [
          | none ↦ t
          | some g ↦
              let t' = set_node n (record (t.nodes n) { syncget = none }) t in
              record t' { deleted_gets = g ∷ t'.deleted_gets }
        ])
    by_get none = still t
    by_get (some g) = set_node-Same n _ t (refl, refl, refl)

leave-parents :
    (n : ℕ) (o : Option ℕ) (t : Tree) (m : ℕ) → parents (leave n o t).nodes m ≡ parents t.nodes m
unfolding leave set_node
leave-parents n none t m = refl
leave-parents n (some p) t m = put_back (λ x. x.parent) p _ t.nodes refl m

enter-parents :
    (n p : ℕ) (t : Tree) (m : ℕ)
    → parents (enter n p t).nodes m ≡ (if m == n then some p else parents t.nodes m)
unfolding enter set_node
enter-parents n p t m =
    put_back (λ x. x.parent) p _ (set_node n (record (t.nodes n) { parent = some p }) t).nodes refl
      m
    ∙ put_at-field (λ x. x.parent) n m (record (t.nodes n) { parent = some p }) t.nodes

-- The node alone gets the parent.
pub moved-parents :
    (n p : ℕ) (o : Option ℕ) (t : Tree) (m : ℕ)
    → parents (enter n p (leave n o t)).nodes m ≡ (if m == n then some p else parents t.nodes m)
moved-parents n p o t m =
    enter-parents n p (leave n o t) m
    ∙ ap (λ x. if m == n then some p else x) (leave-parents n o t m)

-- The children without the node, if they are those of the parent that it leaves.
abbrev pub left : ℕ → Option ℕ → ℕ → List ℕ → List ℕ
left n none m children = children
left n (some q) m children = if m == q then erase n children else children

leave-children :
    (n : ℕ) (o : Option ℕ) (t : Tree) (m : ℕ)
    → ((leave n o t).nodes m).children ≡ left n o m (t.nodes m).children
unfolding leave set_node
leave-children n none t m = refl
leave-children n (some q) t m = put_at-field (λ x. x.children) q m _ t.nodes ∙ by_test (m == q) refl
  where
    by_test :
        (b : Bool)
        → (m == q) ≡ b
        → (if b then erase n (t.nodes q).children else (t.nodes m).children)
          ≡ (if b then erase n (t.nodes m).children else (t.nodes m).children)
    by_test true e = ap (λ i. erase n (t.nodes i).children) (sym ((==_iff m q).0 e))
    by_test false e = refl

enter-children :
    (n p : ℕ) (t : Tree) (m : ℕ)
    → ((enter n p t).nodes m).children
      ≡ (if m == p then (t.nodes m).children ++ (n ∷ []) else (t.nodes m).children)
unfolding enter set_node
enter-children n p t m = put_at-field (λ x. x.children) p m _ _ ∙ by_test (m == p) refl
  where
    s : Nodes
    s = put_at n (record (t.nodes n) { parent = some p }) t.nodes

    back : (i : ℕ) → (s i).children ≡ (t.nodes i).children
    back = put_back (λ x. x.children) n (record (t.nodes n) { parent = some p }) t.nodes refl

    by_test :
        (b : Bool)
        → (m == p) ≡ b
        → (if b then (s p).children ++ (n ∷ []) else (s m).children)
          ≡ (if b then (t.nodes m).children ++ (n ∷ []) else (t.nodes m).children)
    by_test true e =
        ap (λ c. c ++ (n ∷ [])) (back p ∙ ap (λ i. (t.nodes i).children) (sym ((==_iff m p).0 e)))
    by_test false e = back m

-- The children of all nodes after the move.
pub moved-children :
    (n p : ℕ) (o : Option ℕ) (t : Tree) (m : ℕ)
    → ((enter n p (leave n o t)).nodes m).children ≡ (
        if m == p
        then left n o m (t.nodes m).children ++ (n ∷ [])
        else left n o m (t.nodes m).children)
moved-children n p o t m =
    enter-children n p (leave n o t) m
    ∙ ap (λ c. if m == p then c ++ (n ∷ []) else c) (leave-children n o t m)
