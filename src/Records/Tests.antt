-- ===== src/Records/Tests.antt =====
-- The records of the local cache: the theorems at concrete inputs.
use sdk.Prelude.{
  ℕ, ◌≡◌, ◌%◌, ◌^◌, refl, arith, [], ◌∷◌, Bool, true, false, some, none, inl, inr, replicate,
}
use sdk.Int.{pos}
use sdk.AttrMap.Names.{pack}
use sdk.AttrMap.Binary.{IsMap}
use mathlib.Core.Option.{bind}
use sdk.Records.Shares.{IsShare}
use sdk.Records.Nodes.{Node, serialize_node, unserialize_node}
use sdk.Records.Nodes.RoundTrip.{stored, unserialize_node-serialize_node}
use sdk.Records.{Share, User}
use sdk.Records.LocalNodes.{
  LocalNode, serialize_local, unserialize_local, filenode, nodehandle, nodebyhandle,
}
use sdk.Records.LocalNodes.RoundTrip.{unserialize_local-serialize_local}

abbrev share : Share
share = record { user = 77; ts = 1400000000; access = 2 }

share-IsShare : IsShare share
share-IsShare = (omega arith, omega arith, omega arith)

abbrev user : User
user = record {
  userhandle = 1234567;
  ctime = 1400000000;
  show = 1;
  email = b'a' ∷ b'@' ∷ b'b' ∷ [];
  attrs = (pack (b'n' ∷ []), b'x' ∷ []) ∷ [];
  pubk = 1 ∷ 2 ∷ [];
}

user-attrs-IsMap : IsMap 0 user.attrs
user-attrs-IsMap = (
  omega arith,
  (b'n' ∷ [], refl, ((omega arith, omega arith), tt), omega arith, omega arith, omega arith),
  tt,
)

-- A file that is on no node yet.
abbrev local_file : LocalNode
local_file = record {
  node_type = filenode;
  size = pos 5;
  fsid = 42;
  parent_dbid = 3;
  node = none;
  localname = b'a' ∷ [];
  name = b'a' ∷ [];
  crc = replicate 16 8;
  mtime = pos 1400000000;
  isvalid = true;
}

abbrev no_node : ℕ → Bool
no_node h = false

nowhere : nodebyhandle no_node (nodehandle none % 2 ^ 48) ≡ none
unfolding nodebyhandle
nowhere = refl

unserialize_local-serialize_local_example :
    unserialize_local no_node (λ s. s) [] (serialize_local local_file) ≡ some local_file
unserialize_local-serialize_local_example =
    unserialize_local-serialize_local no_node (λ s. s) [] local_file
      (omega arith, omega arith, omega arith, nowhere) refl ((omega arith, omega arith), refl)
      (omega arith, omega arith) refl

-- A folder with two outbound shares, below another folder.
abbrev folder : Node
folder = record {
  node_type = 1;
  size = pos 0;
  nodehandle = 5;
  parent = some 4;
  owner = 77;
  clienttimestamp = 1400000000;
  ctime = 1400000001;
  nodekey = replicate 16 9;
  fileattrstring = [];
  attrstring = [];
  inshare = none;
  outshares = share ∷ share ∷ [];
  sharekey = replicate 16 3;
  attrs = user.attrs;
}

unserialize_node-serialize_node_example :
    bind (serialize_node folder) unserialize_node ≡ some (stored folder)
unserialize_node-serialize_node_example = unserialize_node-serialize_node folder (
  inr (omega arith, omega arith),
  refl,
  omega arith,
  (omega arith, omega arith),
  omega arith,
  omega arith,
  omega arith,
  inr (inl (refl, refl)),
  inr (omega arith, refl),
  ((share-IsShare, (share-IsShare, tt)), omega arith, refl),
  user-attrs-IsMap,
)
