-- ===== src/NodeTree/Depth.antt =====
-- node.cpp and megaclient.cpp: how far a node is from the top of its tree, and what that means for the
-- loops that go up.
use sdk.Prelude.{
  ℕ, zero, suc, ◌+◌, ◌≡◌, ◌≢◌, ◌≤◌, ◌<◌, ◌∙◌, refl, sym, ap, subst, arith, ◌≢◌, List, [], ◌∷◌, Bool,
  true, false, Option, none, some, ltb, leb, ◌==◌, if◌then◌else◌, Bool-cases, Option-cases, inl,
  inr, ◌⊎◌,
}
use sdk.Records.LocalNodes.{foldernode}
use mathlib.Core.Option.{some-injective, none-ne-some}
use sdk.NodeTree.{Nodes, Access, access_from, circular, share_root, isbelow, is_synced, level}

-- The node is `d` steps below one that has no parent.
abbrev pub HasDepth : (ℕ → Option ℕ) → ℕ → ℕ → Type 0
HasDepth up n zero = up n ≡ none
HasDepth up n (suc d) = (p : ℕ) × (up n ≡ some p) × HasDepth up p d

-- The parents of all nodes.
abbrev pub parents : Nodes → ℕ → Option ℕ
parents s n = (s n).parent

-- The nodes above a node and itself, as a list.
unfoldable pub path : ℕ → (ℕ → Option ℕ) → ℕ → List ℕ
path zero up n = n ∷ []
path (suc k) up n = n ∷ elim (up n) [ none ↦ [] | some p ↦ path k up p ]

unfoldable pub contains : ℕ → List ℕ → Bool
contains m [] = false
contains m (n ∷ ns) = if n == m then true else contains m ns

-- With as much fuel as the depth of the node needs, `isbelow` says whether the other node is on the path to
-- the top.
pub isbelow-contains :
    (fuel : ℕ) (s : Nodes) (n p d : ℕ)
    → HasDepth (parents s) n d
    → d < fuel
    → isbelow fuel s n p ≡ some (contains p (path d (parents s) n))
unfolding isbelow contains path
isbelow-contains zero s n p d h le = absurd (omega arith)
isbelow-contains (suc fuel) s n p zero h le = elim (Bool-cases (n == p)) [
  | inl e ↦ rw (e, isbelow) refl
  | inr e ↦ rw (e, h, isbelow) refl
]
isbelow-contains (suc fuel) s n p (suc d) (q, e, h) le = elim (Bool-cases (n == p)) [
  | inl m ↦ rw (m, isbelow) refl
  | inr m ↦ rw (m, e, isbelow) (isbelow-contains fuel s q p d h (omega arith))
]

-- A loop that goes up from a node: it ends at the node, or goes on at its parent.
abbrev pub GoesUp {ℓ} : {A : Type ℓ} → (ℕ → Option ℕ) → (ℕ → ℕ → Option A) → Type ℓ
GoesUp {A = A} up loop =
    (fuel n : ℕ)
    → ((b : A) × (loop (suc fuel) n ≡ some b))
      ⊎ ((p : ℕ) × (up n ≡ some p) × (loop (suc fuel) n ≡ loop fuel p))

pub ends {ℓ} :
    {A : Type ℓ} (up : ℕ → Option ℕ) (loop : ℕ → ℕ → Option A)
    → GoesUp up loop
    → (fuel n d : ℕ) → HasDepth up n d
    → d < fuel
    → (b : A) × (loop fuel n ≡ some b)
ends up loop f zero n d h le = absurd (omega arith)
ends up loop f (suc fuel) n zero h le = elim (f fuel n) [
  | inl r ↦ r
  | inr (p, e, r) ↦ absurd (none-ne-some p (sym h ∙ e))
]
ends up loop f (suc fuel) n (suc d) (q, e, h) le = elim (f fuel n) [
  | inl r ↦ r
  | inr (p, e', r) ↦
      let same : q ≡ p = some-injective q p (sym e ∙ e') in
      let (b, r') = ends up loop f fuel p d (subst (λ x. HasDepth up x d) same h) (omega arith) in
      (b, r ∙ r')
]

pub access_from-GoesUp :
    (s : Nodes) (a : Access) → GoesUp (parents s) (λ fuel n. access_from fuel s a n)
unfolding access_from
access_from-GoesUp s a fuel n = elim (Option-cases (s n).inshare) [
  | inr (share, e) ↦ inl (leb (level a) (level share.access), rw (e, access_from) refl)
  | inl e ↦ elim (Option-cases (s n).parent) [
    | inl f ↦ inl (ltb foldernode (s n).node_type, rw (e, f, access_from) refl)
    | inr (p, f) ↦ inr (p, f, rw (e, f, access_from) refl)
  ]
]

pub circular-GoesUp : (s : Nodes) (fn : ℕ) → GoesUp (parents s) (λ fuel n. circular fuel s fn n)
unfolding circular
circular-GoesUp s fn fuel n = elim (Bool-cases (n == fn)) [
  | inl m ↦ inl (none, rw (m, circular) refl)
  | inr m ↦ elim (Option-cases (s n).inshare) [
    | inr (share, e) ↦ inl (some n, rw (m, e, circular) refl)
    | inl e ↦ elim (Option-cases (s n).parent) [
      | inl f ↦ inl (some n, rw (m, e, f, circular) refl)
      | inr (p, f) ↦ inr (p, f, rw (m, e, f, circular) refl)
    ]
  ]
]

pub share_root-GoesUp : (s : Nodes) → GoesUp (parents s) (λ fuel n. share_root fuel s n)
unfolding share_root
share_root-GoesUp s fuel n = elim (Option-cases (s n).inshare) [
  | inr (share, e) ↦ inl (n, rw (e, share_root) refl)
  | inl e ↦ elim (Option-cases (s n).parent) [
    | inl f ↦ inl (n, rw (e, f, share_root) refl)
    | inr (p, f) ↦ inr (p, f, rw (e, f, share_root) refl)
  ]
]

pub is_synced-GoesUp : (s : Nodes) → GoesUp (parents s) (λ fuel n. is_synced fuel s n)
unfolding is_synced
is_synced-GoesUp s fuel n = elim (Option-cases (s n).localnode) [
  | inr (l, e) ↦ inl (true, rw (e, is_synced) refl)
  | inl e ↦ elim (Option-cases (s n).parent) [
    | inl f ↦ inl (false, rw (e, f, is_synced) refl)
    | inr (p, f) ↦ inr (p, f, rw (e, f, is_synced) refl)
  ]
]

pub HasDepth-same :
    (up up' : ℕ → Option ℕ)
    → ((m : ℕ) → up' m ≡ up m)
    → (n d : ℕ) → HasDepth up n d
    → HasDepth up' n d
HasDepth-same up up' same n zero h = same n ∙ h
HasDepth-same up up' same n (suc d) (p, e, h) = (p, same n ∙ e, HasDepth-same up up' same p d h)

-- A node has one depth.
pub depth_unique : (up : ℕ → Option ℕ) (n d d' : ℕ) → HasDepth up n d → HasDepth up n d' → d ≡ d'
depth_unique up n zero zero h k = refl
depth_unique up n zero (suc d') h (p, e, k) = absurd (none-ne-some p (sym h ∙ e))
depth_unique up n (suc d) zero (p, e, h) k = absurd (none-ne-some p (sym k ∙ e))
depth_unique up n (suc d) (suc d') (p, e, h) (q, e', k) =
    let same : q ≡ p = some-injective q p (sym e' ∙ e) in
    ap suc (depth_unique up p d d' h (subst (λ x. HasDepth up x d') same k))

-- The parents after `n` has got the parent `p`.
abbrev pub moved_up : ℕ → ℕ → (ℕ → Option ℕ) → ℕ → Option ℕ
moved_up n p up m = if m == n then some p else up m

-- No inbound share has a parent.
abbrev pub HasTopShares : Nodes → Type 0
HasTopShares s = (m : ℕ) → (s m).inshare ≢ none → (s m).parent ≡ none

circular-met :
    (fuel : ℕ) (s : Nodes) (n q : ℕ) → (q == n) ≡ true → circular (suc fuel) s n q ≡ some none
unfolding circular
circular-met fuel s n q e = rw (e, circular) refl

circular-next :
    (fuel : ℕ) (s : Nodes) (n q o : ℕ)
    → (q == n) ≡ false
    → (s q).inshare ≡ none
    → (s q).parent ≡ some o
    → circular (suc fuel) s n q ≡ circular fuel s n o
unfolding circular
circular-next fuel s n q o e f g = rw (e, f, g, circular) refl

not_share : (s : Nodes) (q o : ℕ) → HasTopShares s → (s q).parent ≡ some o → (s q).inshare ≡ none
not_share s q o shares e = elim (Option-cases (s q).inshare) [
  | inl f ↦ f
  | inr (share, f) ↦
      absurd (none-ne-some o (sym (shares q (λ g. none-ne-some share (sym g ∙ f))) ∙ e))
]

-- If the loop of condition #4 does not meet the node, then the target is as deep as before after the node
-- was moved, wherever it goes.
pub circular-HasDepth :
    (fuel : ℕ) (s : Nodes) (n p q d top : ℕ)
    → HasTopShares s
    → circular fuel s n q ≡ some (some top)
    → HasDepth (parents s) q d
    → HasDepth (moved_up n p (parents s)) q d
circular-HasDepth zero s n p q d top shares r h =
    absurd (none-ne-some (some top) (unfold circular in r))
circular-HasDepth (suc fuel) s n p q zero top shares r h = elim (Bool-cases (q == n)) [
  | inl e ↦
      absurd
        (none-ne-some top (some-injective none (some top) (sym (circular-met fuel s n q e) ∙ r)))
  | inr e ↦ rw e h
]
circular-HasDepth (suc fuel) s n p q (suc d) top shares r (o, up, h) = elim (Bool-cases (q == n)) [
  | inl e ↦
      absurd
        (none-ne-some top (some-injective none (some top) (sym (circular-met fuel s n q e) ∙ r)))
  | inr e ↦
      let r' = sym (circular-next fuel s n q o e (not_share s q o shares up) up) ∙ r in
      (o, rw e up, circular-HasDepth fuel s n p o d top shares r' h)
]

-- Then every node has a depth.
pub moved-HasDepth :
    (up : ℕ → Option ℕ) (n p d : ℕ)
    → HasDepth (moved_up n p up) p d
    → (m k : ℕ) → HasDepth up m k
    → (k' : ℕ) × HasDepth (moved_up n p up) m k' × (k' ≤ k + suc d)
moved-HasDepth up n p d h m zero g = elim (Bool-cases (m == n)) [
  | inl e ↦ (suc d, (p, rw e refl, h), omega arith)
  | inr e ↦ (0, rw e g, omega arith)
]
moved-HasDepth up n p d h m (suc k) (q, f, g) = elim (Bool-cases (m == n)) [
  | inl e ↦ (suc d, (p, rw e refl, h), omega arith)
  | inr e ↦
      let (k', g', le) = moved-HasDepth up n p d h q k g in (suc k', (q, rw e f, g'), omega arith)
]
