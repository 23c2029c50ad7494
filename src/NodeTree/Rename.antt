-- ===== src/NodeTree/Rename.antt =====
-- node.cpp (Node::setparent) and megaclient.cpp (rename, notifynode): the move of a node.
pub mod Parents
pub mod Moves
pub mod AfterMove
pub mod Trees
mod Tests
use sdk.Prelude.{
  ℕ, zero, suc, ◌+◌, List, [], ◌∷◌, ◌++◌, Bool, true, false, not, ◌&&◌, ◌||◌, Option, none, some,
  ltb, leb, ◌==◌, if◌then◌else◌, ◌>>=◌,
}
use sdk.NodeTree.{
  Node, LocalNode, Nodes, Tree, set_node, set_local, Error, api_ok, api_eaccess, api_ecircular,
  checkmove, is_synced, proctree, del_sync_get,
}

-- `children.erase(child_it)`: every child is in the list once.
pub erase : ℕ → List ℕ → List ℕ
erase n [] = []
erase n (m ∷ ms) = if m == n then ms else m ∷ erase n ms

-- The node leaves the children of its parent, if it has one.
pub leave : ℕ → Option ℕ → Tree → Tree
leave n none t = t
leave n (some p) t = set_node p (record (t.nodes p) { children = erase n (t.nodes p).children }) t

-- The node gets the new parent and becomes the last one of its children.
pub enter : ℕ → ℕ → Tree → Tree
enter n p t =
    let t' = set_node n (record (t.nodes n) { parent = some p }) t in
    set_node p (record (t'.nodes p) { children = (t'.nodes p).children ++ (n ∷ []) }) t'

-- `!localnode || localnode->parent`
pub is_no_sync_root : Tree → Option ℕ → Bool
is_no_sync_root t none = true
is_no_sync_root t (some l) = elim (t.locals l).parent [ none ↦ false | some q ↦ true ]

pub is_parent : ℕ → Option ℕ → Bool
is_parent p none = false
is_parent p (some q) = p == q

-- If the new location is not synced, all SyncFileGets of the subtree are cancelled.
pub cancel_gets : ℕ → ℕ → ℕ → Tree → Option Tree
cancel_gets fuel n p t = do
  synced ← is_synced fuel t.nodes p
  if synced then some t else proctree (λ t. t.nodes) del_sync_get fuel n t

-- Node::setparent
pub setparent : ℕ → ℕ → ℕ → Tree → Option (Bool × Tree)
setparent fuel n p t =
    if is_parent p (t.nodes n).parent
    then some (false, t)
    else let t' = enter n p (leave n (t.nodes n).parent t) in
      do
        t'' ←
            (if is_no_sync_root t' (t'.nodes n).localnode then cancel_gets fuel n p t' else some t')
        some (true, t'')

-- The LocalNode of a node's parent.
pub local_of : Tree → Option ℕ → Option ℕ
local_of t none = none
local_of t (some p) = (t.nodes p).localnode

-- `localnode && localnode->parent`
pub in_sync : Tree → Option ℕ → Bool
in_sync t none = false
in_sync t (some l) = elim (t.locals l).parent [ none ↦ false | some q ↦ true ]

pub is_some {ℓ} : {A : Type ℓ} → Option A → Bool
is_some none = false
is_some (some a) = true

pub mark_deleted : Bool → ℕ → Tree → Tree
mark_deleted b l t = set_local l (record (t.locals l) { deleted = b }) t

-- A synced node that was moved to a location that is not synced.
pub detach : ℕ → ℕ → Tree → Tree
detach n l t =
    set_node n (record (t.nodes n) { localnode = none })
      (set_local l (record (t.locals l) { deleted = true; node = none }) t)

-- `!localnode || localnode->parent != parent->localnode`
pub is_new_there : Tree → Option ℕ → ℕ → Bool
is_new_there t none lp = true
is_new_there t (some l) lp = not (is_parent lp (t.locals l).parent)

-- A synced node that is no sync root.
pub keep_local : ℕ → Option ℕ → Tree → Tree
keep_local n none t = t
keep_local n (some l) t = if in_sync t (some l) then mark_deleted (t.nodes n).removed l t else t

-- A new node in a synced folder also.
pub keep_locals : ℕ → Tree → Tree
keep_locals n t =
    let t' = keep_local n (t.nodes n).localnode t in
    elim (local_of t' (t'.nodes n).parent) [
      | none ↦ t'
      | some lp ↦
          if is_new_there t' (t'.nodes n).localnode lp
          then mark_deleted (t'.nodes n).removed lp t'
          else t'
    ]

pub update_locals : ℕ → Tree → Tree
update_locals n t = elim (t.nodes n).localnode [
  | none ↦ keep_locals n t
  | some l ↦
      if in_sync t (some l)
        && is_some (t.nodes n).parent
        && not (is_some (local_of t (t.nodes n).parent))
      then detach n l t
      else keep_locals n t
]

-- MegaClient::notifynode
pub notifynode : ℕ → Tree → Tree
notifynode n t =
    let t' = update_locals n t in
    if (t'.nodes n).notified
    then t'
    else let t'' = set_node n (record (t'.nodes n) { notified = true }) t' in
      record t'' { nodenotify = t''.nodenotify ++ (n ∷ []) }

-- What `rename` does after the node was moved.
pub announce : ℕ → ℕ → ℕ → Tree → Tree
announce n p syncdel t =
    let t' = notifynode n (set_node n (record (t.nodes n) { changed_parent = true }) t) in
    record t' { moves = t'.moves ++ ((n, p, syncdel) ∷ []) }

pub announce_if : Bool → ℕ → ℕ → ℕ → Tree → Tree
announce_if moved n p syncdel t = if moved then announce n p syncdel t else t

-- MegaClient::rename
pub rename : ℕ → ℕ → ℕ → ℕ → Tree → Option (Error × Tree)
rename fuel n p syncdel t = do
  e ← checkmove fuel t n p
  elim e [
    | api_ok ↦ do
      (moved, t') ← setparent fuel n p t
      some (api_ok, announce_if moved n p syncdel t')
    | api_eaccess ↦ some (api_eaccess, t)
    | api_ecircular ↦ some (api_ecircular, t)
  ]

-- TreeProcDel::proc
pub del : ℕ → Tree → Tree
del n t = notifynode n (set_node n (record (t.nodes n) { removed = true }) t)
