-- ===== src/Records/LocalNodes.antt =====
-- src/node.cpp: LocalNode::serialize and LocalNode::unserialize, the records of the local state cache.
pub mod RoundTrip
use sdk.Prelude.{
  ℕ, zero, suc, ◌+◌, ◌-◌, ◌*◌, ◌^◌, List, [], ◌∷◌, ◌++◌, Bool, true, false, not, ◌&&◌, Option, none,
  some, ltb, ◌==◌, if◌then◌else◌, take, drop, length, u16, low_first, from_low,
}
use sdk.Int.{ℤ, pos, neg, neg_part, ltb_ℤ, to_u64, from_u64}
use sdk.Serialize64

-- nodetype_t
abbrev pub filenode : ℕ
filenode = 0

abbrev pub foldernode : ℕ
foldernode = 1

-- `UNDEF`
abbrev pub undef : ℕ
undef = 2 ^ 64 - 1

-- A LocalNode, as far as its record goes: `parent_dbid` is the dbid of its parent (as an unsigned number), or 0; `node` is the
-- handle of its node.
pub record LocalNode : Type 0 where
  pub node_type : ℕ
  pub size : ℤ
  pub fsid : ℕ
  pub parent_dbid : ℕ
  pub node : Option ℕ
  pub localname : List ℕ
  pub name : List ℕ
  pub crc : List ℕ
  pub mtime : ℤ
  pub isvalid : Bool

unfoldable pub nodehandle : Option ℕ → ℕ
nodehandle none = undef
nodehandle (some h) = h

-- LocalNode::serialize
pub serialize_local : LocalNode → List ℕ
serialize_local l =
    let s = if l.node_type == 0 then l.size else neg l.node_type in
    low_first 8 (to_u64 s)
    ++ (low_first 8 l.fsid
        ++ (low_first 4 l.parent_dbid
            ++ (low_first 6 (nodehandle l.node)
                ++ (low_first 2 (u16 (length l.localname))
                    ++ (take (u16 (length l.localname)) l.localname
                        ++ (if l.node_type == filenode
                            then l.crc ++ Serialize64.serialize (to_u64 l.mtime)
                            else []))))))

-- The handle of a node that the client has.
unfoldable pub nodebyhandle : (ℕ → Bool) → ℕ → Option ℕ
nodebyhandle has_node h = if has_node h then some h else none

-- The value that Serialize64::unserialize leaves in a variable that was 0.
pub stored_time : Option (ℕ × ℕ) → ℕ
stored_time none = 0
stored_time (some (v, n)) = v

-- The end of LocalNode::unserialize, with the memory at `ptr` and `end - ptr`: a time that cannot be read
-- gives -1, which is not recognised as a failure.
pub read_fingerprint : LocalNode → List ℕ → ℕ → Option LocalNode
read_fingerprint l ptr left =
    let file = l.node_type == filenode in
    let read = Serialize64.unserialize (drop 16 ptr) (left - 16) in
    let mtime = if file then stored_time read else 0 in
    if file && ltb (left + 1) 16
    then none
    else some (record l { crc = take 16 ptr; mtime = from_u64 mtime; isvalid = true })

-- LocalNode::unserialize. `behind` is the memory behind the record. Which nodes the client has, and
-- how the file system names them, are parameters.
pub unserialize_local :
    (has_node : ℕ → Bool) (local2name : List ℕ → List ℕ) (behind d : List ℕ) → Option LocalNode
unserialize_local has_node local2name behind d =
    let d1 = drop 8 d in
    let d2 = drop 8 d1 in
    let d3 = drop 4 d2 in
    let d4 = drop 6 d3 in
    let p = drop 2 d4 in
    let size = from_u64 (from_low 8 d) in
    let localnamelen = from_low 2 d4 in
    let folder = ltb_ℤ size (pos 0) && not (ltb_ℤ size (neg foldernode)) in
    let localname = take localnamelen p in
    let l : LocalNode = record {
      node_type = if folder then neg_part size else filenode;
      size = if folder then pos 0 else size;
      fsid = from_low 8 d1;
      parent_dbid = from_low 4 d2;
      node = nodebyhandle has_node (from_low 6 d3);
      localname = localname;
      name = local2name localname;
      crc = [];
      mtime = pos 0;
      isvalid = false;
    } in
    let q = drop localnamelen p in
    if ltb (length d) 28
    then none
    else if ltb (length p) localnamelen
    then none
    else read_fingerprint l (q ++ behind) (length q)
