-- ===== src/ShareKeys/Indices.antt =====
-- sharenodekeys.cpp: the indices in the text of the keys point at the right share nodes.
use mathlib.Core.List.{append_assoc, append-nil}
use sdk.Prelude.{
  ℕ, zero, suc, ◌≡◌, ◌<◌, ◌∙◌, refl, sym, ap, subst, arith, List, [], ◌∷◌, ◌++◌, Bool, true, false,
  ◌||◌, Option, none, some, ◌==◌, if◌then◌else◌, length, length-append, get_or, get_or-append, inl,
  inr, ◌⊎◌,
}
use sdk.ShareKeys.{
  ShareNode, ShareNodeKeys, here_or, last_index, place_of, addshare, link, add_link, add_links, add,
}

found_step :
    (h x : ℕ) (xs : List ℕ) (o : Option ℕ) (i : ℕ)
    → ((j : ℕ) → o ≡ some j → (j < length xs) × (get_or xs j 0 ≡ h))
    → here_or (x == h) o ≡ some i
    → (i < suc (length xs)) × (get_or (x ∷ xs) i 0 ≡ h)
unfolding here_or
found_step h x xs (some j) zero ih e = absurd cc
found_step h x xs (some j) (suc i) ih e = let (low, same) = ih i cc in (omega arith, same)
found_step h x xs none zero ih e = (omega arith, ground arith)
found_step h x xs none (suc i) ih e = ground arith

last_index-found :
    (h : ℕ) (xs : List ℕ) (i : ℕ) → last_index h xs ≡ some i → (i < length xs) × (get_or xs i 0 ≡ h)
unfolding last_index
last_index-found h [] i e = absurd cc
last_index-found h (x ∷ xs) i e =
    found_step h x xs (last_index h xs) i (λ j f. last_index-found h xs j f) e

-- The share node stands at the index, and the table in front of it is the one before.
abbrev pub IsPlaced : ℕ → List ℕ → List ℕ × ℕ → Type 0
IsPlaced h shares (shares', i) =
    (i < length shares') × (get_or shares' i 0 ≡ h) × ((more : List ℕ) × (shares' ≡ shares ++ more))

get_or-last : (xs : List ℕ) (h : ℕ) → get_or (xs ++ h ∷ []) (length xs) 0 ≡ h
get_or-last [] h = refl
get_or-last (x ∷ xs) h = get_or-last xs h

placed :
    (h : ℕ) (shares : List ℕ) (o : Option ℕ)
    → last_index h shares ≡ o
    → IsPlaced h shares (place_of h shares o)
unfolding place_of
placed h shares none e =
    (omega (arith, length-append shares (h ∷ [])), get_or-last shares h, (h ∷ [], refl))
placed h shares (some i) e =
    let (low, same) = last_index-found h shares i e in (low, same, ([], sym (append-nil shares)))

-- The index that `addshare` gives points at the share node, and no other index changes its meaning.
pub addshare-IsPlaced : (h : ℕ) (shares : List ℕ) → IsPlaced h shares (addshare h shares)
unfolding addshare
addshare-IsPlaced h shares = placed h shares (last_index h shares) refl

-- What `add` writes for a share node: nothing, or its index, which points at it, and the key under its
-- share key.
abbrev pub IsLinked : ℕ → List ℕ → List ℕ → ShareNode → List ℕ → Type 0
IsLinked item nodekey shares sn text =
    ((sn.sharekey ≡ none) × (text ≡ []))
    ⊎ ((encrypt : List ℕ → List ℕ) × (i : ℕ) × (sn.sharekey ≡ some encrypt)
        × (i < length shares)
        × (get_or shares i 0 ≡ sn.nodehandle)
        × (text ≡ link i item (encrypt nodekey)))

abbrev pub AreLinked : ℕ → List ℕ → List ℕ → Bool → List ShareNode → List ℕ → Type 0
AreLinked item nodekey shares specific [] text = text ≡ []
AreLinked item nodekey shares true (sn ∷ parents) text = IsLinked item nodekey shares sn text
AreLinked item nodekey shares false (sn ∷ parents) text =
    (front : List ℕ) × (rest : List ℕ) × (text ≡ front ++ rest)
    × IsLinked item nodekey shares sn front
    × AreLinked item nodekey shares false parents rest

-- A step from one table to another that writes such text.
abbrev Writes : (List ℕ → List ℕ → Type 0) → ShareNodeKeys → ShareNodeKeys → Type 0
Writes P t t' =
    (t'.items ≡ t.items)
    × ((more : List ℕ) × (t'.shares ≡ t.shares ++ more))
    × ((text : List ℕ) × (t'.keys ≡ t.keys ++ text) × P t'.shares text)

add_link-Writes :
    (item : ℕ) (nodekey : List ℕ) (h : ℕ) (k : Option (List ℕ → List ℕ)) (t : ShareNodeKeys)
    → Writes
        (λ shares. IsLinked item nodekey shares (record { nodehandle = h; sharekey = k }))
        t
        (add_link item nodekey h k t).0
unfolding add_link
add_link-Writes item nodekey h none t =
    (refl, ([], sym (append-nil t.shares)), ([], sym (append-nil t.keys), inl (refl, refl)))
add_link-Writes item nodekey h (some encrypt) t =
    let (low, same, more) = addshare-IsPlaced h t.shares in
    (
      refl,
      more,
      (
        link (addshare h t.shares).1 item (encrypt nodekey),
        refl,
        inr (encrypt, (addshare h t.shares).1, refl, low, same, refl),
      ),
    )

-- The indices still point at the same share nodes when the table has grown.
IsLinked-append :
    (item : ℕ) (nodekey shares more text : List ℕ) (sn : ShareNode)
    → IsLinked item nodekey shares sn text
    → IsLinked item nodekey (shares ++ more) sn text
IsLinked-append item nodekey shares more text sn (inl h) = inl h
IsLinked-append item nodekey shares more text sn (inr (encrypt, i, key, low, same, e)) = inr (
  encrypt,
  i,
  key,
  omega (arith, length-append shares more),
  get_or-append shares more i 0 low ∙ same,
  e,
)

add_links-Writes :
    (item : ℕ) (nodekey : List ℕ) (specific : Bool) (chain : List ShareNode) (t : ShareNodeKeys)
    → Writes
        (λ shares. AreLinked item nodekey shares specific chain)
        t
        (add_links item nodekey specific chain t).0
unfolding add_links
add_links-Writes item nodekey specific [] t =
    (refl, ([], sym (append-nil t.shares)), ([], sym (append-nil t.keys), refl))
add_links-Writes item nodekey true (sn ∷ parents) t =
    add_link-Writes item nodekey sn.nodehandle sn.sharekey t
add_links-Writes item nodekey false (sn ∷ parents) t =
    let first = (add_link item nodekey sn.nodehandle sn.sharekey t).0 in
    let (items, (m, shares), (x, keys, linked)) =
      add_link-Writes item nodekey sn.nodehandle sn.sharekey t in
    let (items', (m', shares'), (x', keys', linked')) =
      add_links-Writes item nodekey false parents first in
    let last = (add_links item nodekey false parents first).0 in
    (
      items' ∙ items,
      (m ++ m', shares' ∙ ap (λ s. s ++ m') shares ∙ append_assoc t.shares m m'),
      (
        x ++ x',
        keys' ∙ ap (λ k. k ++ x') keys ∙ append_assoc t.keys x x',
        (
          x,
          x',
          refl,
          subst (λ s. IsLinked item nodekey s sn x) (sym shares')
              (IsLinked-append item nodekey first.shares m' x sn linked),
          linked',
        ),
      ),
    )

silent_link :
    (item : ℕ) (nodekey : List ℕ) (h : ℕ) (k : Option (List ℕ → List ℕ)) (t : ShareNodeKeys)
    → (add_link item nodekey h k t).1 ≡ false
    → (add_link item nodekey h k t).0.keys ≡ t.keys
unfolding add_link
silent_link item nodekey h none t e = refl
silent_link item nodekey h (some encrypt) t e = absurd cc

both_false : (a b : Bool) → (a || b) ≡ false → (a ≡ false) × (b ≡ false)
both_false true b e = absurd cc
both_false false b e = (refl, e)

silent_links :
    (item : ℕ) (nodekey : List ℕ) (specific : Bool) (chain : List ShareNode) (t : ShareNodeKeys)
    → (add_links item nodekey specific chain t).1 ≡ false
    → (add_links item nodekey specific chain t).0.keys ≡ t.keys
unfolding add_links
silent_links item nodekey specific [] t e = refl
silent_links item nodekey true (sn ∷ parents) t e =
    silent_link item nodekey sn.nodehandle sn.sharekey t e
silent_links item nodekey false (sn ∷ parents) t e =
    let (a, b) = both_false (add_link item nodekey sn.nodehandle sn.sharekey t).1 _ e in
    silent_links item nodekey false parents (add_link item nodekey sn.nodehandle sn.sharekey t).0 b
    ∙ silent_link item nodekey sn.nodehandle sn.sharekey t a

-- The table of share nodes only grows. What is appended to the keys is, for each node of the chain that has
-- a share key (for the first only, if `specific` is set), the index of that node in the table, the index of
-- the item and the key of the node under the share key; and the item is put at that index, unless nothing
-- is appended.
abbrev pub IsAdded :
    List ℕ → List ℕ → Bool → List ShareNode → ShareNodeKeys → ShareNodeKeys → Type 0
IsAdded nodekey item specific chain t t' =
    ((more : List ℕ) × (t'.shares ≡ t.shares ++ more))
    × ((text : List ℕ) × (t'.keys ≡ t.keys ++ text)
        × AreLinked (length t.items) nodekey t'.shares specific chain text)
    × ((t'.items ≡ t.items ++ item ∷ []) ⊎ ((t'.items ≡ t.items) × (t'.keys ≡ t.keys)))

with_item :
    (nodekey item : List ℕ) (specific : Bool) (chain : List ShareNode) (t r : ShareNodeKeys)
    (b : Bool)
    → Writes (λ shares. AreLinked (length t.items) nodekey shares specific chain) t r
    → (b ≡ false → r.keys ≡ t.keys)
    → IsAdded nodekey item specific chain t
        (if b then record r { items = r.items ++ item ∷ [] } else r)
with_item nodekey item specific chain t r true (items, more, text) silent =
    (more, text, inl (ap (λ i. i ++ item ∷ []) items))
with_item nodekey item specific chain t r false (items, more, text) silent =
    (more, text, inr (items, silent refl))

-- After `add` the table of share nodes has only grown. What was appended to the keys is, for each node of
-- the chain that has a share key (for the first only, if `specific` is set), the index of that node in the
-- table, the index of the item and the key of the node under the share key; and the item was put at that
-- index, unless nothing was appended.
pub add-IsAdded :
    (nodekey item : List ℕ) (specific : Bool) (chain : List ShareNode) (t : ShareNodeKeys)
    → IsAdded nodekey item specific chain t (add nodekey item specific chain t)
unfolding add
add-IsAdded nodekey item specific chain t =
    with_item nodekey item specific chain t _ _
      (add_links-Writes (length t.items) nodekey specific chain t)
      (silent_links (length t.items) nodekey specific chain t)
