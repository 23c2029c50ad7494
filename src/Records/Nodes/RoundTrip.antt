-- ===== src/Records/Nodes/RoundTrip.antt =====
-- node.cpp: a Node is read back from its record, with its shares.
use mathlib.Core.List.{append-nil}
use mathlib.Core.Option.{bind}
use sdk.Prelude.{
  ℕ, zero, suc, ◌+◌, ◌^◌, ◌≡◌, ◌≤◌, ◌<◌, ◌∙◌, refl, sym, ap, arith, List, [], ◌++◌, true, false,
  not, ◌&&◌, Option, none, some, ltb, ◌==◌, if◌then◌else◌, length, length-append, replicate, u32,
  low_first, from_low-low_first, drop-low_first, length-field, ◌⊎◌, inl, inr,
}
use sdk.Int.{ℤ, pos, negsuc, neg, neg_part, ltb_ℤ, to_u64, from_u64, from_u64-to_u64, IsI64}
use sdk.AttrMap
use sdk.AttrMap.{Attrs}
use sdk.AttrMap.Binary.{IsMap, unserialize-serialize_map}
use sdk.Records.{Share}
use sdk.Records.Shares.{skip_fields-zeros}
use sdk.Records.LocalNodes.{filenode, undef}
use sdk.Records.Nodes.{
  Node, serialize_node, StoredNode, unserialize_node, parent_handle, fa_text, shares_text,
  read_attrs,
}
use sdk.Records.Nodes.Stages.{
  HasKey, HasFa, HasShares, shares_read, read_key-append, read_fa-append, read_share_part-append,
}

-- The type of a node, and the size of a file, which is not negative.
abbrev pub HasType : ℕ → ℤ → Type 0
HasType t size = ((t ≡ filenode) × IsI64 size × (ltb_ℤ size (pos 0) ≡ false)) ⊎ ((1 ≤ t) × (t ≤ 5))

abbrev pub HasParent : Option ℕ → Type 0
HasParent none = Unit {0}
HasParent (some h) = (1 ≤ h) × (h < 2 ^ 48)

-- A node that is decrypted, and whose values have room in its record.
abbrev pub IsNode : Node → Type 0
IsNode n =
    HasType n.node_type n.size
    × (n.attrstring ≡ [])
    × (n.nodehandle < 2 ^ 48)
    × HasParent n.parent
    × (n.owner < 2 ^ 64)
    × (n.clienttimestamp < 2 ^ 32)
    × (n.ctime < 2 ^ 32)
    × HasKey n.node_type n.nodekey
    × HasFa n.node_type n.fileattrstring
    × HasShares n.inshare n.outshares n.sharekey
    × IsMap 0 n.attrs

-- The number that stands for the type of a node, or the size of a file.
abbrev pub type_or_size : Node → ℤ
type_or_size n = if n.node_type == 0 then n.size else neg n.node_type

abbrev pub parenthandle : Option ℕ → ℕ
parenthandle none = undef
parenthandle (some h) = h

-- What the record tells of a node.
abbrev pub stored : Node → StoredNode
stored n =
    let (outgoing, skey, newshares) = shares_read n.inshare n.outshares n.sharekey in
    record {
      node_type = n.node_type;
      size = type_or_size n;
      nodehandle = n.nodehandle;
      parenthandle = parenthandle n.parent;
      owner = n.owner;
      clienttimestamp = n.clienttimestamp;
      ctime = n.ctime;
      nodekey = n.nodekey;
      fileattrstring = n.fileattrstring;
      outgoing = outgoing;
      skey = skey;
      newshares = newshares;
      attrs = n.attrs;
    }

abbrev IsTypeBack : ℕ → ℤ → Type 0
IsTypeBack t s =
    (to_u64 s < 2 ^ 64)
    × (from_u64 (to_u64 s) ≡ s)
    × ((if ltb_ℤ s (pos 0) && not (ltb_ℤ s (neg 5)) then neg_part s else filenode) ≡ t)

to_u64_lt : (a : ℤ) → to_u64 a < 2 ^ 64
to_u64_lt (pos n) = omega arith
to_u64_lt (negsuc n) = omega arith

type_back : (t : ℕ) (size : ℤ) → HasType t size → IsTypeBack t (if t == 0 then size else neg t)
type_back t size (inl (file, room, natural)) =
    let test : (t == 0) ≡ true = ground arith in
    rw test (to_u64_lt size, from_u64-to_u64 size room, rw natural (sym file))
type_back zero size (inr (low, high)) = absurd (omega arith)
type_back (suc t) size (inr (low, high)) =
    let test : (suc t == 0) ≡ false = ground arith in
    rw test
      (to_u64_lt (negsuc t), from_u64-to_u64 (negsuc t) (omega arith, omega arith), ground arith)

parent_back :
    (p : Option ℕ)
    → HasParent p
    → (parent_handle p < 2 ^ 48)
      × ((if parent_handle p == 0 then undef else parent_handle p) ≡ parenthandle p)
unfolding parent_handle
parent_back none h = (omega arith, refl)
parent_back (some h) (low, high) =
    let test : (h == 0) ≡ false = ground arith in (high, rw test refl)

two_more : (v : ℕ) (text rest : List ℕ) → 2 ≤ length ((low_first 2 v ++ text) ++ rest)
two_more v text rest =
    omega (arith, length-append (low_first 2 v ++ text) rest, length-field 2 v text)

length-shares_text :
    (i : Option Share) (o : List Share) (key rest : List ℕ)
    → 2 ≤ length (shares_text i o key ++ rest)
unfolding shares_text
length-shares_text none o key rest = two_more _ _ rest
length-shares_text (some s) o key rest = two_more _ _ rest

read_attrs-serialize :
    (m : StoredNode) (attrs : Attrs)
    → IsMap 0 attrs
    → read_attrs m (AttrMap.unserialize [] (AttrMap.serialize attrs))
      ≡ some (record m { attrs = attrs })
unfolding read_attrs
read_attrs-serialize m attrs h =
    ap (λ t. read_attrs m (AttrMap.unserialize [] t)) (sym (append-nil (AttrMap.serialize attrs)))
    ∙ ap (read_attrs m) (unserialize-serialize_map attrs [] h)

-- A node is read back from its record: its type and size, handles, times, key, file attributes and
-- attributes, and its shares with their key. Conditions: the node is decrypted, its key fits its type, its
-- times are below 2^32, the other values have room in the record, the file attributes hold no NUL and no
-- quote, it has inbound or outbound shares only with a key, and the attributes can be stored.
pub unserialize_node-serialize_node :
    (n : Node) → IsNode n → bind (serialize_node n) unserialize_node ≡ some (stored n)
unfolding serialize_node unserialize_node bind
unserialize_node-serialize_node n
      (type, decrypted, handle, parent, owner, tm, ts, key, fa, shares, map) =
    let e = AttrMap.serialize n.attrs in
    let p0 = shares_text n.inshare n.outshares n.sharekey ++ e in
    let p1 = replicate 8 0 ++ p0 in
    let p2 = fa_text n.node_type n.fileattrstring ++ p1 in
    let d6 = n.nodekey ++ p2 in
    let d5 = low_first 8 n.ctime ++ d6 in
    let d4 = low_first 8 n.clienttimestamp ++ d5 in
    let d3 = low_first 8 n.owner ++ d4 in
    let d2 = low_first 6 (parent_handle n.parent) ++ d3 in
    let d1 = low_first 6 n.nodehandle ++ d2 in
    let s = to_u64 (type_or_size n) in
    let (s_low, s_back, t_back) = type_back n.node_type n.size type in
    let (parent_low, p_back) = parent_back n.parent parent in
    let more : 10 ≤ length p2 = omega (
      arith,
      length-append (fa_text n.node_type n.fileattrstring) p1,
      length-shares_text n.inshare n.outshares n.sharekey e,
    ) in
    let (fits, key_read) = read_key-append n.node_type n.nodekey p2 key more in
    let size : length (low_first 8 s ++ d1) ≡ 44 + length d6 = omega (
      arith,
      length-field 8 s d1,
      length-field 6 n.nodehandle d2,
      length-field 6 (parent_handle n.parent) d3,
      length-field 8 n.owner d4,
      length-field 8 n.clienttimestamp d5,
      length-field 8 n.ctime d6,
    ) in
    let long : ltb (length (low_first 8 s ++ d1)) 46 ≡ false =
      ground (arith, size, length-append n.nodekey p2, more) in
    let clear : (length n.attrstring == 0) ≡ true =
      let none_left = ap length decrypted in ground (arith, none_left) in
    let tm_back : u32 n.clienttimestamp ≡ n.clienttimestamp = omega arith in
    let ts_back : u32 n.ctime ≡ n.ctime = omega arith in
    rw (clear, fits)
      (rw
        (
          long,
          from_low-low_first 8 s d1 (omega arith),
          drop-low_first 8 s d1,
          from_low-low_first 6 n.nodehandle d2 (omega arith),
          drop-low_first 6 n.nodehandle d2,
          from_low-low_first 6 (parent_handle n.parent) d3 (omega arith),
          drop-low_first 6 (parent_handle n.parent) d3,
          from_low-low_first 8 n.owner d4 (omega arith),
          drop-low_first 8 n.owner d4,
          from_low-low_first 8 n.clienttimestamp d5 (omega arith),
          drop-low_first 8 n.clienttimestamp d5,
          from_low-low_first 8 n.ctime d6 (omega arith),
          drop-low_first 8 n.ctime d6,
          s_back,
          t_back,
          p_back,
          tm_back,
          ts_back,
        )
        (rw
          (
            key_read,
            read_fa-append n.node_type n.fileattrstring p1 fa refl,
            skip_fields-zeros 8 p0,
            read_share_part-append n.inshare n.outshares n.sharekey e shares,
          )
          (read_attrs-serialize _ n.attrs map)))
