-- ===== src/Records.antt =====
-- The records of the local cache: src/share.cpp, Share; src/user.cpp, User; src/node.cpp, LocalNode: their
-- serialization and its inverse. A record is read from a list that ends where the record ends; a pointer
-- behind the end is the empty list. The machine is little-endian, `time_t` has 64 bits and an enum 32.
pub mod Shares
pub mod Users
pub mod LocalNodes
pub mod Nodes
mod Tests
use sdk.Prelude.{
  ℕ, zero, suc, ◌+◌, ◌-◌, ◌^◌, List, [], ◌∷◌, ◌++◌, Bool, true, false, not, ◌&&◌, ◌||◌, Option,
  none, some, ltb, leb, ◌==◌, if◌then◌else◌, peek, next, take, drop, length, replicate, u8, u16,
  u32, low_first, from_low,
}
use sdk.Int.{ℤ, pos, negsuc, neg, to_u64, from_u64}
use sdk.AttrMap
use sdk.AttrMap.{Attrs}

-- A Share: the handle of its user (0 if there is none), its time and the access level.
pub record Share : Type 0 where
  pub user : ℕ
  pub ts : ℕ
  pub access : ℕ

-- Share::serialize
pub serialize_share : Share → List ℕ
serialize_share s = low_first 8 s.user ++ (low_first 8 s.ts ++ (u8 s.access ∷ 0 ∷ []))

-- Share::unserialize: the new share and the pointer behind it, or `none` if the record is too short.
pub unserialize_share : List ℕ → Option (Share × List ℕ)
unserialize_share p =
    if ltb (length p) 18
    then none
    else some (
      record { user = from_low 8 p; ts = from_low 8 (drop 8 p); access = peek (drop 8 (drop 8 p)) },
      drop 2 (drop 8 (drop 8 p)),
    )

-- The loop over eight fields for future use, each with its length in front. It goes on where a field is
-- too long; that is never noticed.
pub skip_fields : ℕ → List ℕ → List ℕ
skip_fields zero p = p
skip_fields (suc left) p =
    skip_fields left (if ltb (peek p) (length p) then drop (peek p + 1) p else p)

-- A User. `pubk` is the serialized public key, empty if there is none.
pub record User : Type 0 where
  pub userhandle : ℕ
  pub ctime : ℕ
  pub show : ℕ
  pub email : List ℕ
  pub attrs : Attrs
  pub pubk : List ℕ

-- User::serialize
pub serialize_user : User → List ℕ
serialize_user u =
    let l = u8 (length u.email) in
    low_first 8 u.userhandle
    ++ (low_first 8 u.ctime
        ++ (low_first 4 u.show
            ++ (l ∷ (take l u.email ++ (replicate 8 0 ++ (AttrMap.serialize u.attrs ++ u.pubk))))))

-- Node::copystring: the text in front of the first quote, or of the NUL that ends it.
pub copystring : List ℕ → List ℕ
copystring [] = []
copystring (c ∷ s) = if c == 0 || c == b'"' then [] else c ∷ copystring s

-- The end of User::unserialize: the attributes, and the public key if something is left. Whether the key
-- is accepted is the library's.
pub read_keys : (List ℕ → Bool) → User → Option (Attrs × List ℕ) → Option User
read_keys setkey u none = none
read_keys setkey u (some (attrs, rest)) =
    if length rest == 0
    then some (record u { attrs = attrs })
    else if setkey rest
    then some (record u { attrs = attrs; pubk = rest })
    else none

-- User::unserialize of a user that is not known yet: finduser fails for the handle 0, and mapuser sets
-- the e-mail address. The field `me` of the client is left out.
pub unserialize_user : (List ℕ → Bool) → List ℕ → Option User
unserialize_user setkey d =
    let p = drop 4 (drop 8 (drop 8 d)) in
    let l = peek p in
    let q = skip_fields 8 (drop l (next p)) in
    let u : User = record {
      userhandle = from_low 8 d;
      ctime = from_low 8 (drop 8 d);
      show = from_low 4 (drop 8 (drop 8 d));
      email = copystring (take l (next p));
      attrs = [];
      pubk = [];
    } in
    if ltb (length d) 22
    then none
    else if from_low 8 d == 0
    then none
    else if length q == 0
    then some u
    else read_keys setkey u (AttrMap.unserialize [] q)
