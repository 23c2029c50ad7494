-- ===== src/NodeTree/Checks.antt =====
-- megaclient.cpp, MegaClient::checkmove: it comes to an end, and what a permission means.
use sdk.Prelude.{
  ℕ, ◌≡◌, ◌≤◌, ◌<◌, refl, arith, Bool, true, false, not, ◌&&◌, ◌||◌, Option, none, some, ltb, ◌==◌,
  if◌then◌else◌, ◌>>=◌, Bool-cases, inl, inr,
}
use sdk.NodeTree.{
  Nodes, Tree, Access, Error, api_ok, api_eaccess, api_ecircular, access_from, checkaccess,
  circular, share_root, check_trees, checkmove, rdwr, full, level, ownerprelogin, same_owner,
  rdonly,
}
use sdk.Records.LocalNodes.{filenode}
use sdk.NodeTree.Depth.{
  HasDepth, parents, ends, access_from-GoesUp, circular-GoesUp, share_root-GoesUp,
}

-- Every node is at most `bound` steps below one without a parent.
abbrev pub HasDepths : ℕ → Nodes → Type 0
HasDepths bound s = (m : ℕ) → (k : ℕ) × HasDepth (parents s) m k × (k ≤ bound)

-- The error, and that the move is permitted only if the loop of condition #4 did not meet the node.
abbrev pub Checked : ℕ → Nodes → ℕ → ℕ → Option Error → Type 0
Checked fuel s fn tn o =
    (e : Error) × (o ≡ some e)
    × ((e ≡ api_ok) → (top : ℕ) × (circular fuel s fn tn ≡ some (some top)))

refused : (fuel : ℕ) (s : Nodes) (fn tn : ℕ) → Checked fuel s fn tn (some api_eaccess)
refused fuel s fn tn = (api_eaccess, refl, (λ e. cc))

checkaccess-total :
    (fuel bound : ℕ) (t : Tree) (n : ℕ) (a : Access)
    → HasDepths bound t.nodes
    → bound < fuel
    → (b : Bool) × (checkaccess fuel t n a ≡ some b)
unfolding checkaccess
checkaccess-total fuel bound t n a deep le =
    by_test (ltb (level a) (level ownerprelogin) && not t.logged_in) (
      let (k, h, small) = deep n in
      ends (parents t.nodes) (λ fuel n. access_from fuel t.nodes a n) (access_from-GoesUp t.nodes a)
        fuel n k h (omega arith))
  where
    by_test :
        (c : Bool)
        → (b : Bool) × (access_from fuel t.nodes a n ≡ some b)
        → (b : Bool) × ((if c then some (level a == level rdonly) else access_from fuel t.nodes a n)
            ≡ some b)
    by_test true r = (level a == level rdonly, refl)
    by_test false r = r

trees-Checked :
    (fuel bound : ℕ) (s : Nodes) (fn tn : ℕ)
    → HasDepths bound s
    → bound < fuel
    → Checked fuel s fn tn (check_trees fuel s fn tn)
unfolding check_trees
trees-Checked fuel bound s fn tn deep le =
    let (k, h, small) = deep tn in
    let (k', h', small') = deep fn in
    let (met, r) =
      ends (parents s) (λ fuel n. circular fuel s fn n) (circular-GoesUp s fn) fuel tn k h
        (omega arith) in
    let (from, r') =
      ends (parents s) (λ fuel n. share_root fuel s n) (share_root-GoesUp s) fuel fn k' h'
        (omega arith) in
    rw r (by_met met from r')
  where
    by_met :
        (met : Option ℕ) (from : ℕ)
        → share_root fuel s fn ≡ some from
        → (e : Error) × (elim met [
          | none ↦ some api_ecircular
          | some top ↦ share_root fuel s fn >>= (λ from.
              if from == top || same_owner (s from).inshare (s top).inshare
              then some api_ok
              else some api_eaccess)
        ]
            ≡ some e)
          × ((e ≡ api_ok) → (top : ℕ) × (some met ≡ some (some top)))
    by_met none from r = (api_ecircular, refl, (λ e. cc))
    by_met (some top) from r =
        elim (Bool-cases (from == top || same_owner (s from).inshare (s top).inshare)) [
          | inl e ↦ (api_ok, rw (r, e) refl, (λ ok. (top, refl)))
          | inr e ↦ (api_eaccess, rw (r, e) refl, (λ ok. cc))
        ]

pub checkmove-Checked :
    (fuel bound : ℕ) (t : Tree) (fn tn : ℕ)
    → HasDepths bound t.nodes
    → bound < fuel
    → Checked fuel t.nodes fn tn (checkmove fuel t fn tn)
unfolding checkmove
checkmove-Checked fuel bound t fn tn deep le = by_parent (t.nodes fn).parent
  where
    by_test :
        (b : Bool)
        → Checked fuel t.nodes fn tn
            (if b then some api_eaccess else check_trees fuel t.nodes fn tn)
    by_test true = refused fuel t.nodes fn tn
    by_test false = trees-Checked fuel bound t.nodes fn tn deep le

    by_parent :
        (o : Option ℕ)
        → Checked fuel t.nodes fn tn (elim o [
          | none ↦ some api_eaccess
          | some p ↦ checkaccess fuel t p full >>= (λ may_leave.
              checkaccess fuel t tn rdwr >>= (λ may_enter.
                if not may_leave || (t.nodes tn).node_type == filenode || not may_enter
                then some api_eaccess
                else check_trees fuel t.nodes fn tn))
        ])
    by_parent none = refused fuel t.nodes fn tn
    by_parent (some p) =
        let (a, r) = checkaccess-total fuel bound t p full deep le in
        let (b, r') = checkaccess-total fuel bound t tn rdwr deep le in
        rw (r, r') (by_test (not a || (t.nodes tn).node_type == filenode || not b))
