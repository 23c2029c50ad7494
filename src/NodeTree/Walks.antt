-- ===== src/NodeTree/Walks.antt =====
-- megaclient.cpp, MegaClient::proctree: which nodes it processes, and in which order.
pub mod Subtrees
use mathlib.Core.List.{append_assoc, Memᴰ}
use mathlib.Core.List.Memᴰ
use sdk.Prelude.{
  ℕ, zero, suc, ◌+◌, ◌≡◌, ◌≢◌, ◌≤◌, ◌<◌, ◌∙◌, refl, sym, ap, subst, arith, List, [], ◌∷◌, ◌++◌,
  Bool, true, false, not, Option, none, some, ◌==◌, if◌then◌else◌, ◌>>=◌, All, Bool-cases,
  Option-cases, inl, inr, ◌⊎◌, ==_iff,
}
use sdk.Records.LocalNodes.{filenode}
use sdk.NodeTree.{Node, Nodes, each, proctree}
use sdk.NodeTree.Depth.{HasDepth, parents}

-- The nodes have the same types, parents and children.
abbrev pub SameShape : Nodes → Nodes → Type 0
SameShape s s' =
    (m : ℕ)
    → ((s' m).node_type ≡ (s m).node_type)
      × ((s' m).parent ≡ (s m).parent)
      × ((s' m).children ≡ (s m).children)

pub same_then : (a b c : Nodes) → SameShape a b → SameShape b c → SameShape a c
same_then a b c h k m = ((k m).0 ∙ (h m).0, (k m).1 ∙ (h m).1, (k m).2 ∙ (h m).2)

-- The children of a node have it as their parent.
abbrev pub IsLinked : Nodes → Type 0
IsLinked s = (n : ℕ) → All (λ c. (s c).parent ≡ some n) (s n).children

-- The lists of several nodes, one after the other.
pub flat : (ℕ → List ℕ) → List ℕ → List ℕ
flat f [] = []
flat f (n ∷ ns) = f n ++ flat f ns

-- The nodes of the subtree, every node after its children; files are not looked into.
pub postorder : ℕ → Nodes → ℕ → List ℕ
postorder zero s n = []
postorder (suc fuel) s n =
    (if (s n).node_type == filenode then [] else flat (postorder fuel s) (s n).children) ++ (n ∷ [])

-- Processing the nodes of a list, one after the other.
pub visit {ℓ} : {S : Type ℓ} → (ℕ → S → S) → List ℕ → S → S
visit proc [] s = s
visit proc (n ∷ ns) s = visit proc ns (proc n s)

visit-append {ℓ} :
    {S : Type ℓ} (proc : ℕ → S → S) (ns more : List ℕ) (s : S)
    → visit proc (ns ++ more) s ≡ visit proc more (visit proc ns s)
unfolding visit
visit-append proc [] more s = refl
visit-append proc (n ∷ ns) more s = visit-append proc ns more (proc n s)

module _ {ℓ} {S : Type ℓ} (nodes : S → Nodes) (proc : ℕ → S → S)
    (keeps : (n : ℕ) (s : S) → SameShape (nodes s) (nodes (proc n s))) where
  pub visit-SameShape :
      (ns : List ℕ) (s₀ : Nodes) (s : S)
      → SameShape s₀ (nodes s)
      → SameShape s₀ (nodes (visit proc ns s))
  unfolding visit
  visit-SameShape [] s₀ s same = same
  visit-SameShape (n ∷ ns) s₀ s same =
      visit-SameShape ns s₀ (proc n s) (same_then s₀ (nodes s) (nodes (proc n s)) same (keeps n s))

  walk_children :
      (P : ℕ → Type 0) (f : ℕ → S → Option S) (g : ℕ → List ℕ) (s₀ : Nodes)
      → ((n : ℕ) (s : S) → P n → SameShape s₀ (nodes s) → f n s ≡ some (visit proc (g n) s))
      → (ns : List ℕ) (s : S) → All P ns
      → SameShape s₀ (nodes s)
      → each f ns s ≡ some (visit proc (flat g ns) s)
  unfolding each flat visit
  walk_children P f g s₀ one [] s h same = refl
  walk_children P f g s₀ one (n ∷ ns) s (h, hs) same = rw (one n s h same) (
      walk_children P f g s₀ one ns (visit proc (g n) s) hs (visit-SameShape (g n) s₀ s same)
      ∙ ap some (sym (visit-append proc (g n) (flat g ns) s)))

  -- A node of depth `d` needs fuel for the depths from `d` to the bound.
  pub proctree-postorder :
      (fuel bound d : ℕ) (s₀ : Nodes)
      → IsLinked s₀
      → ((m k : ℕ) → HasDepth (parents s₀) m k → k ≤ bound)
      → (n : ℕ) (s : S) → HasDepth (parents s₀) n d
      → bound < fuel + d
      → SameShape s₀ (nodes s)
      → proctree nodes proc fuel n s ≡ some (visit proc (postorder fuel s₀ n) s)
  unfolding proctree postorder visit
  proctree-postorder zero bound d s₀ linked bounded n s h le same =
      absurd (omega (arith, bounded n d h))
  proctree-postorder (suc fuel) bound d s₀ linked bounded n s h le same =
      let children =
        walk_children (λ c. HasDepth (parents s₀) c (suc d)) (proctree nodes proc fuel)
          (postorder fuel s₀) s₀
          (λ c s h same.
            proctree-postorder fuel bound (suc d) s₀ linked bounded c s h (omega arith) same)
          (s₀ n).children s (all_below (s₀ n).children (linked n)) same in
      rw ((same n).0, (same n).2) (by_type ((s₀ n).node_type == filenode) children)
    where
      all_below :
          (ns : List ℕ)
          → All (λ c. (s₀ c).parent ≡ some n) ns
          → All (λ c. HasDepth (parents s₀) c (suc d)) ns
      all_below [] l = tt
      all_below (c ∷ cs) (l, ls) = ((n, l, h), all_below cs ls)

      by_type :
          (file : Bool)
          → each (proctree nodes proc fuel) (s₀ n).children s
            ≡ some (visit proc (flat (postorder fuel s₀) (s₀ n).children) s)
          → ((if file then some s else each (proctree nodes proc fuel) (s₀ n).children s)
              >>= (λ s'. some (proc n s')))
            ≡ some (
                visit proc
                  ((if file then [] else flat (postorder fuel s₀) (s₀ n).children) ++ (n ∷ []))
                  s)
      by_type true e = refl
      by_type false e =
          rw e (
            ap some (sym (visit-append proc (flat (postorder fuel s₀) (s₀ n).children) (n ∷ []) s)))
