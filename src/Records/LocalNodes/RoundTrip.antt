-- ===== src/Records/LocalNodes/RoundTrip.antt =====
-- node.cpp: a LocalNode is read back from its record.
use mathlib.Core.List.{append_assoc}
use sdk.Prelude.{
  ℕ, ◌+◌, ◌-◌, ◌%◌, ◌^◌, ◌≡◌, ◌<◌, ◌∙◌, refl, sym, ap, arith, List, [], ◌++◌, Bool, true, false,
  not, ◌&&◌, some, ltb, ◌==◌, if◌then◌else◌, take, drop, length, length-append, take-append,
  drop-append, take-length, u16, low_first, from_low-low_first, from_low-handle, drop-low_first,
  length-field,
}
use sdk.Int.{ℤ, pos, negsuc, neg_part, ltb_ℤ, to_u64, from_u64, from_u64-to_u64, IsI64}
use sdk.Serialize64
use sdk.Serialize64.RoundTrip.{unserialize-serialize}
use sdk.Records.LocalNodes.{
  LocalNode, serialize_local, unserialize_local, nodehandle, nodebyhandle, read_fingerprint,
  stored_time, filenode,
}

-- The record of a node whose name is short enough: the part in front, and what is behind the name.
abbrev front : (s : ℕ) (l : LocalNode) (end_part : List ℕ) → List ℕ
front s l end_part =
    low_first 8 s
    ++ (low_first 8 l.fsid
        ++ (low_first 4 l.parent_dbid
            ++ (low_first 6 (nodehandle l.node)
                ++ (low_first 2 (length l.localname) ++ (l.localname ++ end_part)))))

-- The fields of a LocalNode have room for its values.
abbrev pub IsLocalNode : (has_node : ℕ → Bool) → LocalNode → Type 0
IsLocalNode has_node l =
    (l.fsid < 2 ^ 64)
    × (l.parent_dbid < 2 ^ 32)
    × (length l.localname < 2 ^ 16)
    × (nodebyhandle has_node (nodehandle l.node % 2 ^ 48) ≡ l.node)

-- The node that a record with this size begins.
abbrev begun : (local2name : List ℕ → List ℕ) → (size : ℤ) → LocalNode → LocalNode
begun local2name size l =
    let folder = ltb_ℤ size (pos 0) && not (ltb_ℤ size (negsuc 0)) in
    record {
      node_type = if folder then neg_part size else filenode;
      size = if folder then pos 0 else size;
      fsid = l.fsid;
      parent_dbid = l.parent_dbid;
      node = l.node;
      localname = l.localname;
      name = local2name l.localname;
      crc = [];
      mtime = pos 0;
      isvalid = false;
    }

unserialize_local-front :
    (has_node : ℕ → Bool) (local2name : List ℕ → List ℕ) (behind : List ℕ) (s : ℕ) (l : LocalNode)
    (e : List ℕ)
    → IsLocalNode has_node l
    → s < 2 ^ 64
    → unserialize_local has_node local2name behind (front s l e)
      ≡ read_fingerprint (begun local2name (from_u64 s) l) (e ++ behind) (length e)
unfolding unserialize_local
unserialize_local-front has_node local2name behind s l e (fsid, dbid, short, node) hs =
    let d5 = l.localname ++ e in
    let d4 = low_first 2 (length l.localname) ++ d5 in
    let d3 = low_first 6 (nodehandle l.node) ++ d4 in
    let d2 = low_first 4 l.parent_dbid ++ d3 in
    let d1 = low_first 8 l.fsid ++ d2 in
    let size : length (low_first 8 s ++ d1) ≡ 28 + length d5 = omega (
      arith,
      length-field 8 s d1,
      length-field 8 l.fsid d2,
      length-field 4 l.parent_dbid d3,
      length-field 6 (nodehandle l.node) d4,
      length-field 2 (length l.localname) d5,
    ) in
    let long : ltb (length (low_first 8 s ++ d1)) 28 ≡ false = ground (arith, size) in
    let fits : ltb (length d5) (length l.localname) ≡ false =
      ground (arith, length-append l.localname e) in
    rw
      (
        from_low-low_first 8 s d1 (omega arith),
        drop-low_first 8 s d1,
        from_low-low_first 8 l.fsid d2 (omega arith),
        drop-low_first 8 l.fsid d2,
        from_low-low_first 4 l.parent_dbid d3 (omega arith),
        drop-low_first 4 l.parent_dbid d3,
        from_low-handle (nodehandle l.node) d4,
        drop-low_first 6 (nodehandle l.node) d4,
        from_low-low_first 2 (length l.localname) d5 (omega arith),
        drop-low_first 2 (length l.localname) d5,
        long,
        fits,
        node,
        take-append l.localname e,
        drop-append l.localname e,
      )
      refl

serialize_local-file :
    (l : LocalNode)
    → l.node_type ≡ filenode
    → length l.localname < 2 ^ 16
    → serialize_local l ≡ front (to_u64 l.size) l (l.crc ++ Serialize64.serialize (to_u64 l.mtime))
unfolding serialize_local
serialize_local-file l file short =
    let ll : u16 (length l.localname) ≡ length l.localname = omega arith in
    let test : (l.node_type == 0) ≡ true = ground arith in
    rw (ll, test, take-length (length l.localname) l.localname (omega arith)) refl

to_u64_lt : (a : ℤ) → to_u64 a < 2 ^ 64
to_u64_lt (pos n) = omega arith
to_u64_lt (negsuc n) = omega arith

read_fingerprint-file :
    (b : LocalNode) (crc behind : List ℕ) (t : ℕ)
    → b.node_type ≡ filenode
    → length crc ≡ 16
    → t < 2 ^ 64
    → read_fingerprint b
        ((crc ++ Serialize64.serialize t) ++ behind)
        (length (crc ++ Serialize64.serialize t))
      ≡ some (record b { crc = crc; mtime = from_u64 t; isvalid = true })
unfolding read_fingerprint stored_time
read_fingerprint-file b crc behind t file size ht =
    let text = Serialize64.serialize t in
    let total = length-append crc text in
    let long : ltb (length (crc ++ text) + 1) 16 ≡ false = ground (arith, total) in
    let cut : take 16 (crc ++ (text ++ behind)) ≡ crc =
      ap (λ n. take n (crc ++ (text ++ behind))) (sym size) ∙ take-append crc (text ++ behind) in
    let rest : drop 16 (crc ++ (text ++ behind)) ≡ text ++ behind =
      ap (λ n. drop n (crc ++ (text ++ behind))) (sym size) ∙ drop-append crc (text ++ behind) in
    let read =
      unserialize-serialize t (length (crc ++ text) - 16) behind ht (omega (arith, total)) in
    let test : (b.node_type == 0) ≡ true = ground arith in
    rw (append_assoc crc text behind, test, long, rest, read, cut) refl

-- The record of a file is read back: everything is as it was, the fingerprint is valid, and the name is
-- the one that the file system makes of the local name. Conditions: the fields have room for the values,
-- the client has the node if there is one (and none under `UNDEF` cut to six bytes, if there is none),
-- the size is not negative, and the checksum has 16 bytes.
pub unserialize_local-serialize_local :
    (has_node : ℕ → Bool) (local2name : List ℕ → List ℕ) (behind : List ℕ) (l : LocalNode)
    → IsLocalNode has_node l
    → l.node_type ≡ filenode
    → IsI64 l.size × (ltb_ℤ l.size (pos 0) ≡ false)
    → IsI64 l.mtime
    → length l.crc ≡ 16
    → unserialize_local has_node local2name behind (serialize_local l)
      ≡ some (record l { name = local2name l.localname; isvalid = true })
unserialize_local-serialize_local has_node local2name behind l (fsid, dbid, short, node) file
      (size, natural) mtime crc =
    let e = l.crc ++ Serialize64.serialize (to_u64 l.mtime) in
    let s = from_u64-to_u64 l.size size in
    let folder : (ltb_ℤ l.size (pos 0) && not (ltb_ℤ l.size (negsuc 0))) ≡ false =
      rw natural refl in
    ap (unserialize_local has_node local2name behind) (serialize_local-file l file short)
    ∙ unserialize_local-front has_node local2name behind (to_u64 l.size) l e
        (fsid, dbid, short, node) (to_u64_lt l.size)
    ∙ ap (λ z. read_fingerprint (begun local2name z l) (e ++ behind) (length e)) s
    ∙ read_fingerprint-file (begun local2name l.size l) l.crc behind (to_u64 l.mtime)
        (rw folder refl) crc (to_u64_lt l.mtime)
    ∙ rw (folder, from_u64-to_u64 l.mtime mtime)
        (ap (λ t. some (record l { node_type = t; name = local2name l.localname; isvalid = true }))
          (sym file))
