-- ===== src/Records/Nodes.antt =====
-- src/node.cpp: Node::serialize and Node::unserialize, the records of the nodes in the local cache.
pub mod Stages
pub mod RoundTrip
use mathlib.Core.Option.{bind}
use sdk.Prelude.{
  ℕ, zero, suc, ◌+◌, ◌-◌, ◌*◌, ◌^◌, List, [], ◌∷◌, ◌++◌, Bool, true, false, not, ◌&&◌, ◌||◌, Option,
  none, some, ltb, ◌==◌, if◌then◌else◌, peek, take, drop, length, replicate, u16, u32, low_first,
  from_low,
}
use sdk.Int.{ℤ, pos, neg, neg_part, ltb_ℤ, to_u64, from_u64}
use sdk.AttrMap
use sdk.AttrMap.{Attrs}
use sdk.Records.{Share, serialize_share, unserialize_share, skip_fields, copystring}
use sdk.Records.LocalNodes.{filenode, foldernode, undef}

-- MAILNODE
abbrev pub mailnode : ℕ
mailnode = 5

-- FILENODEKEYLENGTH, FOLDERNODEKEYLENGTH
abbrev pub filenodekeylength : ℕ
filenodekeylength = 32

abbrev pub foldernodekeylength : ℕ
foldernodekeylength = 16

-- A Node, as far as its record goes: `parent` is the handle of its parent; `sharekey` is the key of its
-- shares, empty if there is none; `outshares` are in the order of their users.
pub record Node : Type 0 where
  pub node_type : ℕ
  pub size : ℤ
  pub nodehandle : ℕ
  pub parent : Option ℕ
  pub owner : ℕ
  pub clienttimestamp : ℕ
  pub ctime : ℕ
  pub nodekey : List ℕ
  pub fileattrstring : List ℕ
  pub attrstring : List ℕ
  pub inshare : Option Share
  pub outshares : List Share
  pub sharekey : List ℕ
  pub attrs : Attrs

-- The `switch` on the type.
pub has_key : ℕ → List ℕ → Bool
has_key t nodekey =
    if t == filenode
    then length nodekey == filenodekeylength
    else if t == foldernode
    then length nodekey == foldernodekeylength
    else length nodekey == 0

-- The file attributes with the NUL behind them.
pub fa_text : ℕ → List ℕ → List ℕ
fa_text t fileattrstring =
    let ll = u16 (u16 (length fileattrstring) + 1) in
    if t == filenode then low_first 2 ll ++ take ll (fileattrstring ++ 0 ∷ []) else []

pub all_shares : List Share → List ℕ
all_shares [] = []
all_shares (s ∷ shares) = serialize_share s ++ all_shares shares

-- `numshares`, the key of the shares and the shares.
pub shares_text : Option Share → List Share → List ℕ → List ℕ
shares_text (some s) outshares key = low_first 2 (2 ^ 16 - 1) ++ (key ++ serialize_share s)
shares_text none outshares key =
    let numshares = u16 (length outshares) in
    low_first 2 numshares ++ (if numshares == 0 then [] else key ++ all_shares outshares)

pub parent_handle : Option ℕ → ℕ
parent_handle none = 0
parent_handle (some h) = h

-- Node::serialize
pub serialize_node : Node → Option (List ℕ)
serialize_node n =
    let s = if n.node_type == 0 then n.size else neg n.node_type in
    if not (length n.attrstring == 0) || not (has_key n.node_type n.nodekey)
    then none
    else some (
        low_first 8 (to_u64 s)
        ++ (low_first 6 n.nodehandle
            ++ (low_first 6 (parent_handle n.parent)
                ++ (low_first 8 n.owner
                    ++ (low_first 8 n.clienttimestamp
                        ++ (low_first 8 n.ctime
                            ++ (n.nodekey
                                ++ (fa_text n.node_type n.fileattrstring
                                    ++ (replicate 8 0
                                        ++ (shares_text n.inshare n.outshares n.sharekey
                                            ++ AttrMap.serialize n.attrs))))))))))

-- What `unserialize` gives to the new node, and the shares that it puts into `newshares`: whether they
-- are outgoing, their key and the shares.
pub record StoredNode : Type 0 where
  pub node_type : ℕ
  pub size : ℤ
  pub nodehandle : ℕ
  pub parenthandle : ℕ
  pub owner : ℕ
  pub clienttimestamp : ℕ
  pub ctime : ℕ
  pub nodekey : List ℕ
  pub fileattrstring : List ℕ
  pub outgoing : Bool
  pub skey : List ℕ
  pub newshares : List Share
  pub attrs : Attrs

pub take_key : ℕ → List ℕ → Option (List ℕ × List ℕ)
take_key keylen p =
    if ltb (length p) (keylen + 10) then none else some (take keylen p, drop keylen p)

-- The key of a file or a folder.
pub read_key : ℕ → List ℕ → Option (List ℕ × List ℕ)
read_key t p =
    if t == filenode
    then take_key filenodekeylength p
    else if t == foldernode
    then take_key foldernodekeylength p
    else some ([], p)

-- The file attributes of a file.
pub read_fa : ℕ → List ℕ → Option (List ℕ × List ℕ)
read_fa t p =
    let ll = from_low 2 p in
    let q = drop 2 p in
    if not (t == filenode)
    then some ([], p)
    else if ltb (length q) ll || not (peek (drop ll q) == 0)
    then none
    else some (copystring (take ll q), drop ll q)

-- The loop over the shares.
pub read_shares : ℕ → List ℕ → List Share × List ℕ
read_shares zero p = ([], p)
read_shares (suc left) p = elim (unserialize_share p) [
  | none ↦ ([], p)
  | some (s, q) ↦ let (shares, r) = read_shares left q in (s ∷ shares, r)
]

-- The shares; a negative number of them stands for an inbound share.
pub read_share_part : ℕ → List ℕ → Option ((Bool × List ℕ × List Share) × List ℕ)
read_share_part numshares q =
    let outgoing = ltb numshares (2 ^ 15) in
    let (shares, r) = read_shares (if outgoing then numshares else 1) (drop 16 q) in
    if numshares == 0
    then some ((true, [], []), q)
    else if ltb (length q) 16
    then none
    else some ((outgoing, take 16 q, shares), r)

-- The attributes, which must end where the record ends.
pub read_attrs : StoredNode → Option (Attrs × List ℕ) → Option StoredNode
read_attrs n none = none
read_attrs n (some (attrs, rest)) =
    if length rest == 0 then some (record n { attrs = attrs }) else none

-- Node::unserialize: the node and its shares. What it does to the client besides, and the fingerprint
-- that is computed from the attributes, are left out.
pub unserialize_node : List ℕ → Option StoredNode
unserialize_node d =
    let d1 = drop 8 d in
    let d2 = drop 6 d1 in
    let d3 = drop 6 d2 in
    let d4 = drop 8 d3 in
    let d5 = drop 8 d4 in
    let size = from_u64 (from_low 8 d) in
    let t =
      if ltb_ℤ size (pos 0) && not (ltb_ℤ size (neg mailnode)) then neg_part size else filenode in
    let ph = from_low 6 d2 in
    if ltb (length d) 46
    then none
    else bind (read_key t (drop 8 d5)) λ key. bind (read_fa t key.1) λ fa.
      let p = skip_fields 8 fa.1 in
      bind (read_share_part (from_low 2 p) (drop 2 p)) λ shares.
        read_attrs
          (record {
            node_type = t;
            size = size;
            nodehandle = from_low 6 d1;
            parenthandle = if ph == 0 then undef else ph;
            owner = from_low 8 d3;
            clienttimestamp = u32 (from_low 8 d4);
            ctime = u32 (from_low 8 d5);
            nodekey = key.0;
            fileattrstring = fa.0;
            outgoing = shares.0.0;
            skey = shares.0.1;
            newshares = shares.0.2;
            attrs = [];
          })
          (AttrMap.unserialize [] shares.1)
