-- ===== src/NodeTree.antt =====
-- node.cpp (Node::isbelow), megaclient.cpp (checkaccess, checkmove, proctree) and treeproc.cpp: the tree
-- of nodes, and what is asked of it before a move. Nodes and LocalNodes are
-- numbered; a pointer is a number, and what the pointers point to is a function of the number.
pub mod Depth
pub mod Checks
pub mod Walks
pub mod Rename
use sdk.Prelude.{
  ℕ, zero, suc, ◌+◌, List, [], ◌∷◌, ◌++◌, Bool, true, false, not, ◌&&◌, ◌||◌, Option, none, some,
  ltb, leb, ◌==◌, if◌then◌else◌, ◌>>=◌,
}
use sdk.Records.LocalNodes.{filenode, foldernode}

-- accesslevel_t
pub data Access : Type 0 where
  access_unknown : Access
  rdonly : Access
  rdwr : Access
  full : Access
  owner : Access
  ownerprelogin : Access

-- The value of the constant, plus one.
pub level : Access → ℕ
level access_unknown = 0
level rdonly = 1
level rdwr = 2
level full = 3
level owner = 4
level ownerprelogin = 5

-- An inbound share: the user who shares, and the access given.
pub record Share : Type 0 where
  pub user : ℕ
  pub access : Access

pub record Node : Type 0 where
  pub node_type : ℕ
  pub size : ℕ
  pub parent : Option ℕ
  pub children : List ℕ
  pub inshare : Option Share
  pub localnode : Option ℕ
  pub syncget : Option ℕ
  pub removed : Bool
  pub changed_parent : Bool
  pub notified : Bool

pub record LocalNode : Type 0 where
  pub parent : Option ℕ
  pub node : Option ℕ
  pub deleted : Bool

abbrev pub Nodes : Type 0
Nodes = ℕ → Node

-- The part of the client that moves change. `deleted_gets` logs the SyncFileGets that were deleted, and
-- `moves` are the commands CommandMoveNode that were added, with their `syncdel`.
pub record Tree : Type 0 where
  pub logged_in : Bool
  pub nodes : Nodes
  pub locals : ℕ → LocalNode
  pub nodenotify : List ℕ
  pub deleted_gets : List ℕ
  pub moves : List (ℕ × ℕ × ℕ)

-- Writing to what a pointer points to.
pub put_at {ℓ} : {A : Type ℓ} → ℕ → A → (ℕ → A) → ℕ → A
put_at n x f m = if m == n then x else f m

pub set_node : ℕ → Node → Tree → Tree
set_node n x t = record t { nodes = put_at n x t.nodes }

pub set_local : ℕ → LocalNode → Tree → Tree
set_local l x t = record t { locals = put_at l x t.locals }

-- The loop of `checkaccess` from a node on; `none` says that the fuel ran out, here and below.
pub access_from : ℕ → Nodes → Access → ℕ → Option Bool
access_from zero s a n = none
access_from (suc fuel) s a n = elim (s n).inshare [
  | some share ↦ some (leb (level a) (level share.access))
  | none ↦ elim (s n).parent [
    | none ↦ some (ltb foldernode (s n).node_type)
    | some p ↦ access_from fuel s a p
  ]
]

pub checkaccess : ℕ → Tree → ℕ → Access → Option Bool
checkaccess fuel t n a =
    if ltb (level a) (level ownerprelogin) && not t.logged_in
    then some (level a == level rdonly)
    else access_from fuel t.nodes a n

pub data Error : Type 0 where
  api_ok : Error
  api_eaccess : Error
  api_ecircular : Error

-- Condition #4 of `checkmove`: whether the loop met `fn`, or the node at which it ended.
pub circular : ℕ → Nodes → ℕ → ℕ → Option (Option ℕ)
circular zero s fn tn = none
circular (suc fuel) s fn tn = elim (tn == fn) [
  | true ↦ some none
  | false ↦ elim (s tn).inshare [
    | some share ↦ some (some tn)
    | none ↦ elim (s tn).parent [ none ↦ some (some tn) | some p ↦ circular fuel s fn p ]
  ]
]

-- The loop of condition #5.
pub share_root : ℕ → Nodes → ℕ → Option ℕ
share_root zero s n = none
share_root (suc fuel) s n = elim (s n).inshare [
  | some share ↦ some n
  | none ↦ elim (s n).parent [ none ↦ some n | some p ↦ share_root fuel s p ]
]

-- The last two tests of `checkmove`, on the inbound shares of the two nodes.
pub same_owner : Option Share → Option Share → Bool
same_owner none none = true
same_owner (some a) (some b) = a.user == b.user
same_owner none (some b) = false
same_owner (some a) none = false

-- Conditions #4 and #5
pub check_trees : ℕ → Nodes → ℕ → ℕ → Option Error
check_trees fuel s fn tn = do
  met ← circular fuel s fn tn
  elim met [
    | none ↦ some api_ecircular
    | some top ↦ do
      from ← share_root fuel s fn
      if from == top || same_owner (s from).inshare (s top).inshare
          then some api_ok
          else some api_eaccess
  ]

pub checkmove : ℕ → Tree → ℕ → ℕ → Option Error
checkmove fuel t fn tn = elim (t.nodes fn).parent [
  | none ↦ some api_eaccess
  | some p ↦ do
    may_leave ← checkaccess fuel t p full
    may_enter ← checkaccess fuel t tn rdwr
    if not may_leave || (t.nodes tn).node_type == filenode || not may_enter
        then some api_eaccess
        else check_trees fuel t.nodes fn tn
]

-- Node::isbelow
pub isbelow : ℕ → Nodes → ℕ → ℕ → Option Bool
isbelow zero s n p = none
isbelow (suc fuel) s n p = elim (n == p) [
  | true ↦ some true
  | false ↦ elim (s n).parent [ none ↦ some false | some q ↦ isbelow fuel s q p ]
]

-- The loop of `setparent` that looks for a synced folder from `p` on upwards.
pub is_synced : ℕ → Nodes → ℕ → Option Bool
is_synced zero s p = none
is_synced (suc fuel) s p = elim (s p).localnode [
  | some l ↦ some true
  | none ↦ elim (s p).parent [ none ↦ some false | some q ↦ is_synced fuel s q ]
]

-- The loop over `children`, with the recursive call as an argument.
pub each {ℓ} : {S : Type ℓ} → (ℕ → S → Option S) → List ℕ → S → Option S
each f [] s = some s
each f (n ∷ ns) s = do s' ← f n s; each f ns s'

-- MegaClient::proctree with a TreeProc whose state, the nodes in it included, is `S`.
pub proctree {ℓ} : {S : Type ℓ} → (S → Nodes) → (ℕ → S → S) → ℕ → ℕ → S → Option S
proctree nodes proc zero n s = none
proctree nodes proc (suc fuel) n s = do
  s' ←
      (if (nodes s n).node_type == filenode
        then some s
        else each (proctree nodes proc fuel) (nodes s n).children s)
  some (proc n s')

-- TreeProcDU::proc: the totals, and the nodes, which it only reads.
pub record Usage : Type 0 where
  pub numbytes : ℕ
  pub numfiles : ℕ
  pub numfolders : ℕ

pub count_usage : Nodes → ℕ → Usage → Usage
count_usage s n u =
    if (s n).node_type == filenode
    then record u { numbytes = u.numbytes + (s n).size; numfiles = u.numfiles + 1 }
    else record u { numfolders = u.numfolders + 1 }

-- TreeProcDelSyncGet::proc
pub del_sync_get : ℕ → Tree → Tree
del_sync_get n t = elim (t.nodes n).syncget [
  | none ↦ t
  | some g ↦
      let t' = set_node n (record (t.nodes n) { syncget = none }) t in
      record t' { deleted_gets = g ∷ t'.deleted_gets }
]
