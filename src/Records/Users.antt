-- ===== src/Records/Users.antt =====
-- user.cpp: a user is read back from its record.
use sdk.Prelude.{
  ℕ, suc, ◌+◌, ◌^◌, ◌≡◌, ◌≢◌, ◌≤◌, ◌<◌, ◌∙◌, refl, ap, arith, List, [], ◌∷◌, ◌++◌, Bool, ◌||◌, All,
  true, false, some, ltb, ◌==◌, length, length-append, replicate, take-append, drop-append,
  take-length, u8, low_first, from_low-low_first, drop-low_first, length-field, ◌⊎◌, inl, inr,
}
use sdk.AttrMap
use sdk.AttrMap.{Attrs}
use sdk.AttrMap.Binary.{IsMap, entries-le, unserialize-serialize_map}
use sdk.Records.{User, serialize_user, unserialize_user, copystring, read_keys}
use sdk.Records.Shares.{skip_fields-zeros}

-- A user that its record has room for: it has a handle, and its address is shorter than 256 bytes and
-- has no NUL and no quote.
abbrev pub IsUser : User → Type 0
IsUser u =
    (1 ≤ u.userhandle)
    × (u.userhandle < 2 ^ 64)
    × (u.ctime < 2 ^ 64)
    × (u.show < 2 ^ 32)
    × (length u.email < 256)
    × All (λ c. (c ≢ 0) × (c ≢ b'"')) u.email
    × IsMap 0 u.attrs

copystring-All : (s : List ℕ) → All (λ c. (c ≢ 0) × (c ≢ b'"')) s → copystring s ≡ s
unfolding copystring
copystring-All [] h = refl
copystring-All (c ∷ s) ((no_nul, no_quote), h) =
    let test : (c == 0 || c == b'"') ≡ false = ground arith in rw (test, copystring-All s h) refl

user_text :
    (u : User)
    → length u.email < 256
    → serialize_user u
      ≡ low_first 8 u.userhandle
        ++ (low_first 8 u.ctime
            ++ (low_first 4 u.show
                ++ (length u.email
                    ∷ (u.email ++ (replicate 8 0 ++ (AttrMap.serialize u.attrs ++ u.pubk))))))
unfolding serialize_user
user_text u h =
    let short : u8 (length u.email) ≡ length u.email = omega arith in
    rw (short, take-length (length u.email) u.email (omega arith)) refl

read_keys_all :
    (setkey : List ℕ → Bool) (u : User) (attrs : Attrs) (pubk : List ℕ)
    → (pubk ≡ []) ⊎ (setkey pubk ≡ true)
    → read_keys setkey (record u { attrs = []; pubk = [] }) (some (attrs, pubk))
      ≡ some (record u { attrs = attrs; pubk = pubk })
unfolding read_keys
read_keys_all setkey u attrs [] key = refl
read_keys_all setkey u attrs (b ∷ pubk) (inl key) = absurd (omega (arith, ap length key))
read_keys_all setkey u attrs (b ∷ pubk) (inr key) =
    let test : (suc (length pubk) == 0) ≡ false = ground arith in rw (test, key) refl

-- A user is read back from its record, with its attributes and its public key, if there is one and it is
-- accepted. Conditions: the user has a handle other than 0, the e-mail address is shorter than 256 bytes
-- without NUL and quote, the other fields have room for their values, and the attributes can be stored.
pub unserialize_user-serialize_user :
    (setkey : List ℕ → Bool) (u : User)
    → IsUser u
    → (u.pubk ≡ []) ⊎ (setkey u.pubk ≡ true)
    → unserialize_user setkey (serialize_user u) ≡ some u
unfolding unserialize_user
unserialize_user-serialize_user setkey u (some_handle, handle, time, show, short, chars, map) key =
    let q = AttrMap.serialize u.attrs ++ u.pubk in
    let e = u.email ++ (replicate 8 0 ++ q) in
    let p = length u.email ∷ e in
    let p3 = low_first 4 u.show ++ p in
    let p2 = low_first 8 u.ctime ++ p3 in
    let size : length (low_first 8 u.userhandle ++ p2) ≡ 21 + length e =
      omega (
        arith,
        length-field 8 u.userhandle p2,
        length-field 8 u.ctime p3,
        length-field 4 u.show p,
      ) in
    let more : 1 ≤ length e = omega (arith, length-append u.email (replicate 8 0 ++ q)) in
    let long : ltb (length (low_first 8 u.userhandle ++ p2)) 22 ≡ false =
      ground (arith, size, more) in
    let some_handle' : (u.userhandle == 0) ≡ false = ground arith in
    let left : (length q == 0) ≡ false =
      ground (arith, entries-le u.attrs 0 map, length-append (AttrMap.serialize u.attrs) u.pubk) in
    ap (unserialize_user setkey) (user_text u short)
    ∙ rw
        (
          from_low-low_first 8 u.userhandle p2 (omega arith),
          drop-low_first 8 u.userhandle p2,
          from_low-low_first 8 u.ctime p3 (omega arith),
          drop-low_first 8 u.ctime p3,
          from_low-low_first 4 u.show p (omega arith),
          drop-low_first 4 u.show p,
          long,
          some_handle',
          take-append u.email (replicate 8 0 ++ q),
          drop-append u.email (replicate 8 0 ++ q),
          copystring-All u.email chars,
          skip_fields-zeros 8 q,
          left,
          unserialize-serialize_map u.attrs u.pubk map,
        )
        (read_keys_all setkey u u.attrs u.pubk key)
