-- ===== src/Records/Nodes/Stages.antt =====
-- node.cpp: the parts of the record of a Node are read back.
use mathlib.Core.List.{append_assoc}
use sdk.Prelude.{
  ℕ, ◌+◌, ◌-◌, ◌^◌, ◌≡◌, ◌≢◌, ◌≤◌, ◌<◌, ◌∙◌, refl, sym, arith, List, [], ◌∷◌, ◌++◌, Bool, true,
  false, ◌||◌, Option, none, some, ltb, ◌==◌, if◌then◌else◌, peek, take, drop, length,
  length-append, take-append, drop-append, take-length, u16, All, low_first, from_low,
  from_low-low_first, drop-low_first, ◌⊎◌, inl, inr,
}
use sdk.Records.{Share, serialize_share, copystring}
use sdk.Records.Shares.{IsShare, unserialize_share-serialize_share}
use sdk.Records.LocalNodes.{filenode, foldernode}
use sdk.Records.Nodes.{
  has_key, fa_text, all_shares, shares_text, take_key, read_key, read_fa, read_shares,
  read_share_part,
}

-- The key of a node fits its type.
abbrev pub HasKey : ℕ → List ℕ → Type 0
HasKey t nodekey =
    ((t ≡ filenode) × (length nodekey ≡ 32))
    ⊎ (((t ≡ foldernode) × (length nodekey ≡ 16)) ⊎ ((2 ≤ t) × (nodekey ≡ [])))

take_key-append :
    (k rest : List ℕ) (n : ℕ)
    → length k ≡ n
    → 10 ≤ length rest
    → take_key n (k ++ rest) ≡ some (k, rest)
unfolding take_key
take_key-append k rest n h more =
    let long : ltb (length (k ++ rest)) (n + 10) ≡ false = ground (arith, length-append k rest) in
    rw (long, sym h, take-append k rest, drop-append k rest) refl

pub read_key-append :
    (t : ℕ) (k rest : List ℕ)
    → HasKey t k
    → 10 ≤ length rest
    → (has_key t k ≡ true) × (read_key t (k ++ rest) ≡ some (k, rest))
unfolding has_key read_key
read_key-append t k rest (inl (file, size)) more =
    let test : (t == 0) ≡ true = ground arith in
    let fits : (length k == 32) ≡ true = ground arith in
    rw (test, fits) (refl, take_key-append k rest 32 size more)
read_key-append t k rest (inr (inl (folder, size))) more =
    let test : (t == 0) ≡ false = ground arith in
    let test' : (t == 1) ≡ true = ground arith in
    let fits : (length k == 16) ≡ true = ground arith in
    rw (test, test', fits) (refl, take_key-append k rest 16 size more)
read_key-append t k rest (inr (inr (other, no_key))) more =
    let test : (t == 0) ≡ false = ground arith in
    let test' : (t == 1) ≡ false = ground arith in rw (test, test', no_key) (refl, refl)

-- The attributes of a file, which hold no NUL and no quote; nothing else has any.
abbrev pub HasFa : ℕ → List ℕ → Type 0
HasFa t fa =
    ((t ≡ filenode) × (length fa < 2 ^ 16 - 1) × All (λ c. (c ≢ 0) × (c ≢ b'"')) fa)
    ⊎ ((1 ≤ t) × (fa ≡ []))

copystring-terminated :
    (s : List ℕ) → All (λ c. (c ≢ 0) × (c ≢ b'"')) s → copystring (s ++ 0 ∷ []) ≡ s
unfolding copystring
copystring-terminated [] h = refl
copystring-terminated (c ∷ s) ((no_nul, no_quote), h) =
    let test : (c == 0 || c == b'"') ≡ false = ground arith in
    rw (test, copystring-terminated s h) refl

pub read_fa-append :
    (t : ℕ) (fa rest : List ℕ)
    → HasFa t fa
    → peek rest ≡ 0
    → read_fa t (fa_text t fa ++ rest) ≡ some (fa, rest)
unfolding read_fa fa_text
read_fa-append t fa rest (inr (other, no_fa)) h =
    let test : (t == 0) ≡ false = ground arith in rw (test, no_fa) refl
read_fa-append t fa rest (inl (file, short, chars)) h =
    let test : (t == 0) ≡ true = ground arith in
    let text = fa ++ 0 ∷ [] in
    let size : length text ≡ length fa + 1 = omega (arith, length-append fa (0 ∷ [])) in
    let ll : u16 (u16 (length fa) + 1) ≡ length text = omega (arith, size) in
    let whole : take (length text) text ≡ text = take-length (length text) text (omega arith) in
    let a = append_assoc (low_first 2 (length text)) text rest in
    let b = from_low-low_first 2 (length text) (text ++ rest) (omega (arith, size)) in
    let c = drop-low_first 2 (length text) (text ++ rest) in
    let fits : ltb (length (text ++ rest)) (length text) ≡ false =
      ground (arith, length-append text rest) in
    let end : (peek rest == 0) ≡ true = ground arith in
    rw
      (
        test,
        ll,
        whole,
        a,
        b,
        c,
        fits,
        take-append text rest,
        drop-append text rest,
        end,
        copystring-terminated fa chars,
      )
      refl

pub read_shares-append :
    (shares : List Share) (rest : List ℕ)
    → All IsShare shares
    → read_shares (length shares) (all_shares shares ++ rest) ≡ (shares, rest)
unfolding read_shares all_shares
read_shares-append [] rest h = refl
read_shares-append (s ∷ shares) rest (is_share, h) =
    let text = append_assoc (serialize_share s) (all_shares shares) rest in
    let first = unserialize_share-serialize_share s (all_shares shares ++ rest) is_share in
    rw (text, first, read_shares) (rw (read_shares-append shares rest h) refl)

-- The shares of a node, which has either an inbound share or outbound ones, and a key if it has any.
abbrev pub HasShares : Option Share → List Share → List ℕ → Type 0
HasShares (some s) outshares key = IsShare s × (length key ≡ 16)
HasShares none [] key = Unit {0}
HasShares none (s ∷ outshares) key =
    All IsShare (s ∷ outshares) × (length (s ∷ outshares) < 2 ^ 15) × (length key ≡ 16)

-- What is read of them.
abbrev pub shares_read : Option Share → List Share → List ℕ → Bool × List ℕ × List Share
shares_read (some s) outshares key = (false, key, s ∷ [])
shares_read none [] key = (true, [], [])
shares_read none (s ∷ outshares) key = (true, key, s ∷ outshares)

one_share :
    (s : Share) (rest : List ℕ)
    → IsShare s
    → read_shares 1 (serialize_share s ++ rest) ≡ (s ∷ [], rest)
unfolding read_shares
one_share s rest h = rw (unserialize_share-serialize_share s rest h, read_shares) refl

with_key :
    (n : ℕ) (key bytes rest : List ℕ) (shares : List Share)
    → length key ≡ 16
    → (n == 0) ≡ false
    → read_shares (if ltb n (2 ^ 15) then n else 1) (bytes ++ rest) ≡ (shares, rest)
    → read_share_part n ((key ++ bytes) ++ rest) ≡ some ((ltb n (2 ^ 15), key, shares), rest)
unfolding read_share_part
with_key n key bytes rest shares size some_shares read =
    let long : ltb (length (key ++ (bytes ++ rest))) 16 ≡ false =
      ground (arith, length-append key (bytes ++ rest)) in
    rw
      (
        append_assoc key bytes rest,
        some_shares,
        long,
        sym size,
        take-append key (bytes ++ rest),
        drop-append key (bytes ++ rest),
        read,
      )
      refl

numbered :
    (v : ℕ) (text rest : List ℕ) (r : Option ((Bool × List ℕ × List Share) × List ℕ))
    → v < 2 ^ 16
    → read_share_part v (text ++ rest) ≡ r
    → let p = (low_first 2 v ++ text) ++ rest in read_share_part (from_low 2 p) (drop 2 p) ≡ r
numbered v text rest r h e =
    rw
      (
        append_assoc (low_first 2 v) text rest,
        from_low-low_first 2 v (text ++ rest) (omega arith),
        drop-low_first 2 v (text ++ rest),
      )
      e

no_shares : (rest : List ℕ) → read_share_part 0 rest ≡ some ((true, [], []), rest)
unfolding read_share_part
no_shares rest = refl

pub read_share_part-append :
    (inshare : Option Share) (outshares : List Share) (key rest : List ℕ)
    → HasShares inshare outshares key
    → let p = shares_text inshare outshares key ++ rest in
      read_share_part (from_low 2 p) (drop 2 p) ≡ some (shares_read inshare outshares key, rest)
unfolding shares_text
read_share_part-append none [] key rest h = numbered 0 [] rest _ (omega arith) (no_shares rest)
read_share_part-append (some s) outshares key rest (is_share, size) =
    numbered (2 ^ 16 - 1) (key ++ serialize_share s) rest _ (omega arith) (
      with_key (2 ^ 16 - 1) key (serialize_share s) rest (s ∷ []) size refl
        (one_share s rest is_share))
read_share_part-append none (s ∷ outshares) key rest (are_shares, few, size) =
    let n = length (s ∷ outshares) in
    let number : u16 n ≡ n = omega arith in
    let outgoing : ltb n (2 ^ 15) ≡ true = ground arith in
    let some_shares : (n == 0) ≡ false = ground arith in
    rw (number, some_shares)
      (numbered n (key ++ all_shares (s ∷ outshares)) rest _ (omega arith) (
        with_key n key (all_shares (s ∷ outshares)) rest (s ∷ outshares) size some_shares
          (rw outgoing (read_shares-append (s ∷ outshares) rest are_shares))
        ∙ rw outgoing refl))
