-- ===== src/NodeTree/Rename/Tests.antt =====
-- Runs on small trees, and the theorems at concrete inputs.
use mathlib.Core.List.{Memᴰ}
use mathlib.Core.Option.{some-injective}
use sdk.Records.LocalNodes.{filenode}
use sdk.Prelude.{
  ℕ, zero, suc, ◌≡◌, ◌≤◌, ◌↔◌, refl, subst, arith, List, [], ◌∷◌, true, false, Option, none, some,
  ◌==◌,
}
use sdk.NodeTree.{
  Node, Nodes, Tree, Share, full, Error, api_ok, api_ecircular, checkmove, isbelow, proctree, Usage,
  count_usage, is_synced, access_from, circular, share_root, same_owner, level, put_at, set_node,
  checkaccess, check_trees,
}
use sdk.NodeTree.Depth.{HasDepth, depth_unique, parents, HasTopShares}
use sdk.NodeTree.Walks.{IsLinked, postorder, visit}
use sdk.NodeTree.Walks.Subtrees.{IsListed, proctree-isbelow}
use sdk.NodeTree.Rename.{rename, enter, leave}
use sdk.NodeTree.Rename.Moves.{IsTree, IsDistinct, IsChild}
use sdk.NodeTree.Rename.Trees.{Outcome, rename-IsTree}

abbrev node : ℕ → Option ℕ → List ℕ → Option Share → Node
node node_type parent children inshare = record {
  node_type = node_type;
  size = 100;
  parent = parent;
  children = children;
  inshare = inshare;
  localnode = none;
  syncget = none;
  removed = false;
  changed_parent = false;
  notified = false;
}

-- The root 0 with the folder 1, with the folder 2, with the file 3; all other nodes stand alone.
abbrev nodes : Nodes
nodes zero = node 2 none (1 ∷ []) none
nodes (suc zero) = node 1 (some 0) (2 ∷ []) none
nodes (suc (suc zero)) = node 1 (some 1) (3 ∷ []) none
nodes (suc (suc (suc zero))) = node 0 (some 2) [] none
nodes (suc (suc (suc (suc n)))) = node 0 none [] none

abbrev tree_of : Nodes → Tree
tree_of s = record {
  logged_in = true;
  nodes = s;
  locals = (λ l. record { parent = none; node = none; deleted = false });
  nodenotify = [];
  deleted_gets = [];
  moves = [];
}

depths : (m : ℕ) → (k : ℕ) × HasDepth (parents nodes) m k × (k ≤ 3)
depths zero = (0, refl, omega arith)
depths (suc zero) = (1, (0, refl, refl), omega arith)
depths (suc (suc zero)) = (2, (1, refl, (0, refl, refl)), omega arith)
depths (suc (suc (suc zero))) = (3, (2, refl, (1, refl, (0, refl, refl))), omega arith)
depths (suc (suc (suc (suc n)))) = (0, refl, omega arith)

nodes-IsLinked : IsLinked nodes
nodes-IsLinked zero = (refl, tt)
nodes-IsLinked (suc zero) = (refl, tt)
nodes-IsLinked (suc (suc zero)) = (refl, tt)
nodes-IsLinked (suc (suc (suc zero))) = tt
nodes-IsLinked (suc (suc (suc (suc n)))) = tt

nodes-IsDistinct : (m : ℕ) → IsDistinct (nodes m).children
nodes-IsDistinct zero = (tt, tt)
nodes-IsDistinct (suc zero) = (tt, tt)
nodes-IsDistinct (suc (suc zero)) = (tt, tt)
nodes-IsDistinct (suc (suc (suc zero))) = tt
nodes-IsDistinct (suc (suc (suc (suc n)))) = tt

listed : (c : ℕ) → IsChild nodes c (nodes c).parent
listed zero = tt
listed (suc zero) = Memᴰ.head refl
listed (suc (suc zero)) = Memᴰ.head refl
listed (suc (suc (suc zero))) = Memᴰ.head refl
listed (suc (suc (suc (suc n)))) = tt

nodes-IsTree : IsTree 3 nodes
nodes-IsTree = record {
  depth = depths;
  linked = nodes-IsLinked;
  distinct = nodes-IsDistinct;
  listed = listed;
}

nodes-HasTopShares : HasTopShares nodes
nodes-HasTopShares zero h = absurd (h refl)
nodes-HasTopShares (suc zero) h = absurd (h refl)
nodes-HasTopShares (suc (suc zero)) h = absurd (h refl)
nodes-HasTopShares (suc (suc (suc zero))) h = absurd (h refl)
nodes-HasTopShares (suc (suc (suc (suc n)))) h = absurd (h refl)

-- The folder 2 moves to the root.
rename-IsTree_example :
    (e : Error) × (t' : Tree) × (rename 8 2 0 0 (tree_of nodes) ≡ some (e, t'))
    × IsTree 7 t'.nodes
    × Outcome 2 0 (tree_of nodes) e t'
rename-IsTree_example =
    rename-IsTree 8 3 2 0 0 (tree_of nodes) nodes-IsTree nodes-HasTopShares (omega arith)

-- A folder does not move below itself.
circular_run : checkmove 8 (tree_of nodes) 1 2 ≡ some api_ecircular
unfolding checkmove checkaccess access_from check_trees circular level
circular_run = refl

-- An inbound share 0 with the folder 1, in which the folder 2 is an inbound share of the same user.
abbrev nested : Nodes
nested zero = node 1 none (1 ∷ []) (some (record { user = 7; access = full }))
nested (suc zero) = node 1 (some 0) (2 ∷ []) none
nested (suc (suc zero)) = node 1 (some 1) [] (some (record { user = 7; access = full }))
nested (suc (suc (suc n))) = node 0 none [] none

-- The folder 1 may move below itself, and then the loop of `setparent` does not end.
nested_run : checkmove 8 (tree_of nested) 1 2 ≡ some api_ok
unfolding checkmove checkaccess access_from check_trees circular share_root level same_owner
nested_run = refl

abbrev turned : Nodes
turned = (enter 1 2 (leave 1 (some 0) (tree_of nested))).nodes

nested_endless : (fuel : ℕ) → (is_synced fuel turned 1 ≡ none) × (is_synced fuel turned 2 ≡ none)
unfolding is_synced enter leave set_node put_at
nested_endless zero = (refl, refl)
nested_endless (suc fuel) = ((nested_endless fuel).1, (nested_endless fuel).0)

-- TreeProcDU on the folder 1 of the first tree.
abbrev du : ℕ → Nodes × Usage → Nodes × Usage
du n (s, u) = (s, count_usage s n u)

abbrev start : Nodes × Usage
start = (nodes, record { numbytes = 0; numfiles = 0; numfolders = 0 })

bounded : (m k : ℕ) → HasDepth (parents nodes) m k → k ≤ 3
bounded m k h =
    let (j, g, le) = depths m in let same = depth_unique (parents nodes) m k j h g in omega arith

nodes-IsListed : IsListed nodes
nodes-IsListed zero p e = cc
nodes-IsListed (suc zero) p e =
    subst (λ p. Memᴰ 1 (nodes p).children × (((nodes p).node_type == filenode) ≡ false))
      (some-injective 0 p e) (Memᴰ.head refl, refl)
nodes-IsListed (suc (suc zero)) p e =
    subst (λ p. Memᴰ 2 (nodes p).children × (((nodes p).node_type == filenode) ≡ false))
      (some-injective 1 p e) (Memᴰ.head refl, refl)
nodes-IsListed (suc (suc (suc zero))) p e =
    subst (λ p. Memᴰ 3 (nodes p).children × (((nodes p).node_type == filenode) ≡ false))
      (some-injective 2 p e) (Memᴰ.head refl, refl)
nodes-IsListed (suc (suc (suc (suc n)))) p e = cc

proctree-isbelow_example :
    (proctree (λ s. s.0) du 4 1 start ≡ some (visit du (postorder 4 nodes 1) start))
    × (Memᴰ 3 (postorder 4 nodes 1) ↔ (isbelow 4 nodes 3 1 ≡ some true))
proctree-isbelow_example =
    proctree-isbelow (λ s. s.0) du (λ n s m. (refl, refl, refl)) 4 3 start 1 3 1 3 nodes-IsLinked
      nodes-IsListed bounded (0, refl, refl) (2, refl, (1, refl, (0, refl, refl))) (omega arith)
