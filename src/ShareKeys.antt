-- ===== src/ShareKeys.antt =====
-- src/sharenodekeys.cpp, ShareNodeKeys: the keys of nodes for the shares that they are in, as a table of
-- share nodes, a table of items, and the text of triples (index of the share, index of the item, key).
pub mod Indices
mod Tests
use sdk.Prelude.{
  ℕ, zero, suc, ◌+◌, List, [], ◌∷◌, ◌++◌, Bool, true, false, ◌||◌, Option, none, some, ◌==◌,
  if◌then◌else◌, length, map, drop, low_first,
}
use sdk.Int.{pos}
use sdk.Base64.{btoa}
use sdk.Command.{Command, decimal, beginarray, beginarray_named, endarray, appendraw}
use sdk.Command.Arrays.{binary_array}

-- A node on the way to the root: its handle, which stands for the pointer, and the encryption under its
-- share key (`ecb_encrypt`), if it has one.
pub record ShareNode : Type 0 where
  pub nodehandle : ℕ
  pub sharekey : Option (List ℕ → List ℕ)

pub record ShareNodeKeys : Type 0 where
  pub shares : List ℕ
  pub items : List (List ℕ)
  pub keys : List ℕ

-- The last place at which a share node stands.
pub here_or : Bool → Option ℕ → Option ℕ
here_or here (some i) = some (suc i)
here_or here none = if here then some 0 else none

pub last_index : ℕ → List ℕ → Option ℕ
last_index h [] = none
last_index h (x ∷ xs) = here_or (x == h) (last_index h xs)

-- ShareNodeKeys::addshare: the table and the index.
pub place_of : ℕ → List ℕ → Option ℕ → List ℕ × ℕ
place_of h shares (some i) = (shares, i)
place_of h shares none = (shares ++ h ∷ [], length shares)

pub addshare : ℕ → List ℕ → List ℕ × ℕ
addshare h shares = place_of h shares (last_index h shares)

-- The text that `add` appends for one share.
pub link : ℕ → ℕ → List ℕ → List ℕ
link share item key =
    b','
    ∷ (decimal (pos share)
        ++ (b',' ∷ (decimal (pos item) ++ (b',' ∷ b'"' ∷ (btoa key ++ b'"' ∷ [])))))

-- One round of the loop of `add`.
pub add_link : ℕ → List ℕ → ℕ → Option (List ℕ → List ℕ) → ShareNodeKeys → ShareNodeKeys × Bool
add_link item nodekey h none t = (t, false)
add_link item nodekey h (some encrypt) t =
    let (shares, i) = addshare h t.shares in
    (record t { shares = shares; keys = t.keys ++ link i item (encrypt nodekey) }, true)

-- The loop of `add`, from the share node up to the root: the table, and `addnode`.
pub add_links : ℕ → List ℕ → Bool → List ShareNode → ShareNodeKeys → ShareNodeKeys × Bool
add_links item nodekey specific [] t = (t, false)
add_links item nodekey specific (sn ∷ parents) t =
    let (t', added) = add_link item nodekey sn.nodehandle sn.sharekey t in
    let (t'', more) = add_links item nodekey specific parents t' in
    if specific then (t', added) else (t'', added || more)

-- ShareNodeKeys::add of a node with its key, and of the item that stands for it (its handle, or `item`).
pub add : List ℕ → List ℕ → Bool → List ShareNode → ShareNodeKeys → ShareNodeKeys
add nodekey item specific chain t =
    let (t', addnode) = add_links (length t.items) nodekey specific chain t in
    if addnode then record t' { items = t'.items ++ item ∷ [] } else t'

-- ShareNodeKeys::get
pub get : ShareNodeKeys → Command → Command
get t c =
    let tables =
      binary_array t.items
        (binary_array (map (low_first 6) t.shares) (beginarray_named (b'c' ∷ b'r' ∷ []) c)) in
    if length t.keys == 0
    then c
    else endarray (endarray (appendraw (drop 1 t.keys) (beginarray tables)))
