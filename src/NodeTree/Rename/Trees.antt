-- ===== src/NodeTree/Rename/Trees.antt =====
-- megaclient.cpp, MegaClient::rename: what a move leaves is trees again.
use sdk.Prelude.{
  ℕ, suc, ◌+◌, ◌≡◌, ◌≤◌, ◌<◌, ◌∙◌, refl, arith, Bool, true, false, Option, some, ◌==◌,
  if◌then◌else◌, ◌>>=◌,
}
use sdk.NodeTree.{
  Tree, Error, api_ok, api_eaccess, api_ecircular, circular, is_synced, proctree, del_sync_get,
}
use sdk.NodeTree.Depth.{
  HasDepth, depth_unique, moved_up, HasTopShares, circular-HasDepth, parents, ends,
  is_synced-GoesUp,
}
use sdk.NodeTree.Checks.{checkmove-Checked}
use sdk.NodeTree.Walks.{proctree-postorder, postorder, visit, visit-SameShape}
use sdk.NodeTree.Rename.{
  leave, enter, is_no_sync_root, is_parent, cancel_gets, setparent, announce_if, rename,
}
use sdk.NodeTree.Rename.Parents.{Same, moved-parents, announce_if-Same, del_sync_get-Same}
use sdk.NodeTree.Rename.Moves.{IsTree}
use sdk.NodeTree.Rename.AfterMove.{IsTree-same, moved-IsTree, deeper, is_parent_lem}

cancel_gets-total :
    (fuel bound n p : ℕ) (t : Tree)
    → IsTree bound t.nodes
    → bound < fuel
    → (t' : Tree) × (cancel_gets fuel n p t ≡ some t') × Same t t'
unfolding cancel_gets
cancel_gets-total fuel bound n p t v le =
    let (k, h, small) = v.depth p in
    let (synced, r) =
      ends (parents t.nodes) (λ fuel n. is_synced fuel t.nodes n) (is_synced-GoesUp t.nodes) fuel p
        k h (omega arith) in
    let (k', h', small') = v.depth n in
    let r' =
      proctree-postorder (λ t. t.nodes) del_sync_get del_sync_get-Same fuel bound k' t.nodes
        v.linked
        (λ m i g.
          let (j, g', le) = v.depth m in
          let one = depth_unique (parents t.nodes) m i j g g' in omega arith)
        n t h' (omega arith) (λ m. (refl, refl, refl)) in
    rw r (by_test synced r')
  where
    gone : Tree
    gone = visit del_sync_get (postorder fuel t.nodes n) t

    by_test :
        (synced : Bool)
        → proctree (λ t. t.nodes) del_sync_get fuel n t ≡ some gone
        → (t' : Tree) × ((if synced then some t else proctree (λ t. t.nodes) del_sync_get fuel n t)
            ≡ some t')
          × Same t t'
    by_test true r = (t, refl, (λ m. (refl, refl, refl)))
    by_test false r = (
      gone,
      r,
      visit-SameShape (λ t. t.nodes) del_sync_get del_sync_get-Same (postorder fuel t.nodes n)
          t.nodes t (λ m. (refl, refl, refl)),
    )

-- A move that `circular` permits.
setparent-IsTree :
    (fuel bound n p d : ℕ) (t : Tree)
    → IsTree bound t.nodes
    → HasDepth (moved_up n p (parents t.nodes)) p d
    → d ≤ bound
    → bound + suc bound < fuel
    → (moved : Bool) × (t' : Tree) × (setparent fuel n p t ≡ some (moved, t'))
      × IsTree (bound + suc bound) t'.nodes
      × (parents t'.nodes n ≡ some p)
unfolding setparent
setparent-IsTree fuel bound n p d t v target le enough =
    by_parent (is_parent p (t.nodes n).parent) refl
  where
    after : Tree
    after = enter n p (leave n (t.nodes n).parent t)

    tree : IsTree (bound + suc bound) after.nodes
    tree = moved-IsTree bound n p d t v target le

    here : parents after.nodes n ≡ some p
    here =
        let self : (n == n) ≡ true = ground arith in
        moved-parents n p (t.nodes n).parent t n ∙ rw self refl

    pair : Tree → Option (Bool × Tree)
    pair t' = some (true, t')

    by_root :
        (b : Bool)
        → (moved : Bool) × (t' : Tree) × (((if b then cancel_gets fuel n p after else some after)
              >>= pair)
            ≡ some (moved, t'))
          × IsTree (bound + suc bound) t'.nodes
          × (parents t'.nodes n ≡ some p)
    by_root true =
        let (t', r, same) = cancel_gets-total fuel (bound + suc bound) n p after tree enough in
        (
          true,
          t',
          rw r refl,
          IsTree-same (bound + suc bound) after.nodes t'.nodes same tree,
          (same n).1 ∙ here,
        )
    by_root false = (true, after, refl, tree, here)

    by_parent :
        (b : Bool)
        → is_parent p (t.nodes n).parent ≡ b
        → (moved : Bool) × (t' : Tree) × ((if b
              then some (false, t)
              else (if is_no_sync_root after (after.nodes n).localnode
                  then cancel_gets fuel n p after
                  else some after)
                >>= pair)
            ≡ some (moved, t'))
          × IsTree (bound + suc bound) t'.nodes
          × (parents t'.nodes n ≡ some p)
    by_parent true e = (
      false,
      t,
      refl,
      deeper bound (bound + suc bound) t.nodes (omega arith) v,
      is_parent_lem p (t.nodes n).parent e,
    )
    by_parent false e = by_root (is_no_sync_root after (after.nodes n).localnode)

-- What a call of `rename` promises of its result.
abbrev pub Outcome : ℕ → ℕ → Tree → Error → Tree → Type 0
Outcome n p t api_ok t' = parents t'.nodes n ≡ some p
Outcome n p t api_eaccess t' = t' ≡ t
Outcome n p t api_ecircular t' = t' ≡ t

-- `rename` comes to an end. If it returns API_OK then the node has the new parent, and otherwise nothing has
-- changed; in both cases the nodes are still trees: every node has a topmost one above it, and every node with a
-- parent is in the list of children of the parent, once, and in no other list. Conditions: before the call the nodes
-- are trees, none deeper than a bound (the fuel is more than twice that), and no inbound share has a parent.
pub rename-IsTree :
    (fuel bound n p syncdel : ℕ) (t : Tree)
    → IsTree bound t.nodes
    → HasTopShares t.nodes
    → bound + suc bound < fuel
    → (e : Error) × (t' : Tree) × (rename fuel n p syncdel t ≡ some (e, t'))
      × IsTree (bound + suc bound) t'.nodes
      × Outcome n p t e t'
unfolding rename
rename-IsTree fuel bound n p syncdel t v shares enough =
    let (e, r, permitted) = checkmove-Checked fuel bound t n p v.depth (omega arith) in
    rw r (by_error e permitted)
  where
    same_tree : IsTree (bound + suc bound) t.nodes
    same_tree = deeper bound (bound + suc bound) t.nodes (omega arith) v

    finish : Error → Option (Error × Tree)
    finish e = elim e [
      | api_ok ↦ setparent fuel n p t >>= (λ r. some (api_ok, announce_if r.0 n p syncdel r.1))
      | api_eaccess ↦ some (api_eaccess, t)
      | api_ecircular ↦ some (api_ecircular, t)
    ]

    by_error :
        (e : Error)
        → ((e ≡ api_ok) → (top : ℕ) × (circular fuel t.nodes n p ≡ some (some top)))
        → (e' : Error) × (t' : Tree) × (finish e ≡ some (e', t'))
          × IsTree (bound + suc bound) t'.nodes
          × Outcome n p t e' t'
    by_error api_eaccess permitted = (api_eaccess, t, refl, same_tree, refl)
    by_error api_ecircular permitted = (api_ecircular, t, refl, same_tree, refl)
    by_error api_ok permitted =
        let (top, met) = permitted refl in
        let (k, h, small) = v.depth p in
        let target = circular-HasDepth fuel t.nodes n p p k top shares met h in
        let (moved, t', r, tree, here) =
          setparent-IsTree fuel bound n p k t v target small enough in
        let same = announce_if-Same moved n p syncdel t' in
        (
          api_ok,
          announce_if moved n p syncdel t',
          rw r refl,
          IsTree-same (bound + suc bound) t'.nodes (announce_if moved n p syncdel t').nodes same
              tree,
          (same n).1 ∙ here,
        )
