-- ===== src/SyncCache/Queues.antt =====
-- sync.cpp, Sync::statecachedel and Sync::statecacheadd: the two queues.
use sdk.Prelude.{
  ℕ, ◌≡◌, ◌≢◌, ◌<◌, ◌∙◌, refl, sym, subst, arith, List, [], ◌∷◌, Bool, true, false, ◌==◌, ltb,
  if◌then◌else◌, All, ==_iff,
}
use sdk.SyncCache.{is_canceled, Sync, set_insert, set_erase, statecachedel, statecacheadd}

abbrev pub IsAscending : List ℕ → Type 0
IsAscending [] = Unit {0}
IsAscending (a ∷ rest) = All (λ b. a < b) rest × IsAscending rest

below_All : (a b : ℕ) (q : List ℕ) → a < b → All (λ c. b < c) q → All (λ c. a < c) q
below_All a b [] h k = tt
below_All a b (c ∷ q) h (k, ks) = (omega (arith, h, k), below_All a b q h ks)

set_insert-All : (P : ℕ → Type 0) (a : ℕ) (q : List ℕ) → P a → All P q → All P (set_insert a q)
unfolding set_insert
set_insert-All P a [] h k = (h, tt)
set_insert-All P a (b ∷ q) h (k, ks) = by_test (a == b) (ltb a b) (set_insert-All P a q h ks)
  where
    by_test :
        (same less : Bool)
        → All P (set_insert a q)
        → All P (if same then b ∷ q else if less then a ∷ b ∷ q else b ∷ set_insert a q)
    by_test true less r = (k, ks)
    by_test false true r = (h, (k, ks))
    by_test false false r = (k, r)

set_insert-IsAscending : (a : ℕ) (q : List ℕ) → IsAscending q → IsAscending (set_insert a q)
unfolding set_insert
set_insert-IsAscending a [] h = (tt, tt)
set_insert-IsAscending a (b ∷ q) (h, hs) =
    by_test (a == b) (ltb a b) refl refl (set_insert-IsAscending a q hs)
  where
    by_test :
        (same less : Bool)
        → (a == b) ≡ same
        → ltb a b ≡ less
        → IsAscending (set_insert a q)
        → IsAscending (if same then b ∷ q else if less then a ∷ b ∷ q else b ∷ set_insert a q)
    by_test true less e f r = (h, hs)
    by_test false true e f r = ((ground (arith, f), below_All a b q (ground (arith, f)) h), (h, hs))
    by_test false false e f r = (set_insert-All (λ c. b < c) a q (ground (arith, e, f)) h, r)

set_erase-All : (P : ℕ → Type 0) (a : ℕ) (q : List ℕ) → All P q → All P (set_erase a q)
unfolding set_erase
set_erase-All P a [] h = tt
set_erase-All P a (b ∷ q) (h, hs) = by_test (a == b) (set_erase-All P a q hs)
  where
    by_test : (same : Bool) → All P (set_erase a q) → All P (if same then q else b ∷ set_erase a q)
    by_test true r = hs
    by_test false r = (h, r)

set_erase-IsAscending : (a : ℕ) (q : List ℕ) → IsAscending q → IsAscending (set_erase a q)
unfolding set_erase
set_erase-IsAscending a [] h = tt
set_erase-IsAscending a (b ∷ q) (h, hs) = by_test (a == b) (set_erase-IsAscending a q hs)
  where
    by_test :
        (same : Bool)
        → IsAscending (set_erase a q)
        → IsAscending (if same then q else b ∷ set_erase a q)
    by_test true r = hs
    by_test false r = (set_erase-All (λ c. b < c) a q h, r)

above_lacks : (a : ℕ) (q : List ℕ) → All (λ b. a < b) q → All (λ b. b ≢ a) q
above_lacks a [] h = tt
above_lacks a (b ∷ q) (h, hs) = ((λ e. omega (arith, h, e)), above_lacks a q hs)

set_erase-lacks : (a : ℕ) (q : List ℕ) → IsAscending q → All (λ b. b ≢ a) (set_erase a q)
unfolding set_erase
set_erase-lacks a [] h = tt
set_erase-lacks a (b ∷ q) (h, hs) = by_test (a == b) refl (set_erase-lacks a q hs)
  where
    by_test :
        (same : Bool)
        → (a == b) ≡ same
        → All (λ b. b ≢ a) (set_erase a q)
        → All (λ b. b ≢ a) (if same then q else b ∷ set_erase a q)
    by_test true e r = above_lacks a q (subst (λ i. All (λ c. i < c) q) (sym ((==_iff a b).0 e)) h)
    by_test false e r = ((λ same. ground (arith, same, e)), r)

-- Different LocalNodes have different identifiers.
abbrev pub HasOwnIds : {T : Type 0} → Sync T → Type 0
HasOwnIds s = (l m : ℕ) → (s.locals l).dbid ≢ 0 → (s.locals m).dbid ≡ (s.locals l).dbid → m ≡ l

-- The queues are sets, and no record is to be deleted that belongs to a LocalNode which is to be put.
pub record IsApart {T : Type 0} (s : Sync T) : Type 0 where
  pub inserts : IsAscending s.insertq
  pub deletes : IsAscending s.deleteq
  pub nonzero : All (λ d. d ≢ 0) s.deleteq
  pub apart : All (λ l. All (λ d. d ≢ (s.locals l).dbid) s.deleteq) s.insertq

pub data QueueOp : Type 0 where
  op_add : ℕ → QueueOp
  op_del : ℕ → QueueOp

-- A sequence of calls.
pub queue_ops : {T : Type 0} → List QueueOp → Sync T → Sync T
queue_ops [] s = s
queue_ops (op_add l ∷ ops) s = queue_ops ops (statecacheadd l s)
queue_ops (op_del l ∷ ops) s = queue_ops ops (statecachedel l s)

map_All : (P Q : ℕ → Type 0) (q : List ℕ) → ((c : ℕ) → P c → Q c) → All P q → All Q q
map_All P Q [] f h = tt
map_All P Q (c ∷ q) f (h, hs) = (f c h, map_All P Q q f hs)

both_All : (P Q : ℕ → Type 0) (q : List ℕ) → All P q → All Q q → All (λ c. P c × Q c) q
both_All P Q [] h k = tt
both_All P Q (c ∷ q) (h, hs) (k, ks) = ((h, k), both_All P Q q hs ks)

added : {T : Type 0} → ℕ → Sync T → Sync T
added l s = record s {
  deleteq = if (s.locals l).dbid == 0 then s.deleteq else set_erase (s.locals l).dbid s.deleteq;
  insertq = set_insert l s.insertq;
}

deleted : {T : Type 0} → ℕ → Sync T → Sync T
deleted l s = record s {
  insertq = set_erase l s.insertq;
  deleteq = if (s.locals l).dbid == 0 then s.deleteq else set_insert (s.locals l).dbid s.deleteq;
}

added-IsApart : {T : Type 0} → (l : ℕ) (s : Sync T) → IsApart s → IsApart (added l s)
unfolding added
added-IsApart l s v = by_id ((s.locals l).dbid == 0) refl
  where
    here : ℕ
    here = (s.locals l).dbid

    by_id :
        (z : Bool)
        → (here == 0) ≡ z
        → IsApart (record s {
          deleteq = if z then s.deleteq else set_erase here s.deleteq;
          insertq = set_insert l s.insertq;
        })
    by_id true e = record {
      inserts = set_insert-IsAscending l s.insertq v.inserts;
      deletes = v.deletes;
      nonzero = v.nonzero;
      apart =
          set_insert-All (λ m. All (λ d. d ≢ (s.locals m).dbid) s.deleteq) l s.insertq
            (map_All (λ d. d ≢ 0) (λ d. d ≢ here) s.deleteq
              (λ d h same. h (same ∙ (==_iff here 0).0 e)) v.nonzero)
            v.apart;
    }
    by_id false e = record {
      inserts = set_insert-IsAscending l s.insertq v.inserts;
      deletes = set_erase-IsAscending here s.deleteq v.deletes;
      nonzero = set_erase-All (λ d. d ≢ 0) here s.deleteq v.nonzero;
      apart =
          set_insert-All (λ m. All (λ d. d ≢ (s.locals m).dbid) (set_erase here s.deleteq)) l
            s.insertq (set_erase-lacks here s.deleteq v.deletes)
            (map_All (λ m. All (λ d. d ≢ (s.locals m).dbid) s.deleteq) _ s.insertq
              (λ m h. set_erase-All (λ d. d ≢ (s.locals m).dbid) here s.deleteq h) v.apart);
    }

deleted-IsApart :
    {T : Type 0} → (l : ℕ) (s : Sync T) → HasOwnIds s → IsApart s → IsApart (deleted l s)
unfolding deleted
deleted-IsApart l s own v = by_id ((s.locals l).dbid == 0) refl
  where
    here : ℕ
    here = (s.locals l).dbid

    fewer : All (λ m. All (λ d. d ≢ (s.locals m).dbid) s.deleteq) (set_erase l s.insertq)
    fewer = set_erase-All (λ m. All (λ d. d ≢ (s.locals m).dbid) s.deleteq) l s.insertq v.apart

    by_id :
        (z : Bool)
        → (here == 0) ≡ z
        → IsApart (record s {
          insertq = set_erase l s.insertq;
          deleteq = if z then s.deleteq else set_insert here s.deleteq;
        })
    by_id true e = record {
      inserts = set_erase-IsAscending l s.insertq v.inserts;
      deletes = v.deletes;
      nonzero = v.nonzero;
      apart = fewer;
    }
    by_id false e =
        let set : here ≢ 0 = λ none. ground (arith, none, e) in
        record {
          inserts = set_erase-IsAscending l s.insertq v.inserts;
          deletes = set_insert-IsAscending here s.deleteq v.deletes;
          nonzero = set_insert-All (λ d. d ≢ 0) here s.deleteq set v.nonzero;
          apart =
              map_All (λ m. All (λ d. d ≢ (s.locals m).dbid) s.deleteq × (m ≢ l))
                (λ m. All (λ d. d ≢ (s.locals m).dbid) (set_insert here s.deleteq))
                (set_erase l s.insertq)
                (λ m h.
                  set_insert-All (λ d. d ≢ (s.locals m).dbid) here s.deleteq
                    (λ same. h.1 (own l m set (sym same))) h.0)
                (both_All (λ m. All (λ d. d ≢ (s.locals m).dbid) s.deleteq) (λ m. m ≢ l)
                  (set_erase l s.insertq) fewer (set_erase-lacks l s.insertq v.inserts));
        }

one_of :
    {T : Type 0} (P : Sync T → Type 0) (b : Bool) (x y : Sync T)
    → P x
    → P y
    → P (if b then x else y)
one_of P true x y h k = h
one_of P false x y h k = k

-- Identifiers and queues together.
IsFit : {T : Type 0} → Sync T → Type 0
IsFit s = HasOwnIds s × IsApart s

statecacheadd-IsFit : {T : Type 0} (l : ℕ) (s : Sync T) → IsFit s → IsFit (statecacheadd l s)
unfolding statecacheadd IsFit added
statecacheadd-IsFit l s (own, v) =
    one_of IsFit (is_canceled s.state) s (added l s) (own, v) (own, added-IsApart l s v)

statecachedel-IsFit : {T : Type 0} (l : ℕ) (s : Sync T) → IsFit s → IsFit (statecachedel l s)
unfolding statecachedel IsFit deleted
statecachedel-IsFit l s (own, v) =
    one_of IsFit (is_canceled s.state) s (deleted l s) (own, v) (own, deleted-IsApart l s own v)

queue_ops-IsFit : {T : Type 0} (ops : List QueueOp) (s : Sync T) → IsFit s → IsFit (queue_ops ops s)
unfolding queue_ops
queue_ops-IsFit [] s h = h
queue_ops-IsFit (op_add l ∷ ops) s h =
    queue_ops-IsFit ops (statecacheadd l s) (statecacheadd-IsFit l s h)
queue_ops-IsFit (op_del l ∷ ops) s h =
    queue_ops-IsFit ops (statecachedel l s) (statecachedel-IsFit l s h)

-- After any calls of `statecacheadd` and `statecachedel`, in any order, both queues are sets, and no record is
-- queued for deletion that belongs to a LocalNode which is queued to be put. Conditions: so it was before, and
-- no two LocalNodes have the same identifier.
pub queue_ops-IsApart :
    {T : Type 0} (ops : List QueueOp) (s : Sync T)
    → HasOwnIds s
    → IsApart s
    → IsApart (queue_ops ops s)
queue_ops-IsApart ops s own v = unfold IsFit in (queue_ops-IsFit ops s (unfold IsFit in (own, v))).1
