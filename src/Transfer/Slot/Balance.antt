-- ===== src/Transfer/Slot/Balance.antt =====
-- transferslot.cpp: the bytes that `doio` counts as completed are those of the chunks it has handed out.
use sdk.Prelude.{
  ℕ, ◌+◌, ◌≡◌, ◌≤◌, refl, arith, List, [], ◌∷◌, Bool, true, false, not, ◌&&◌, ◌||◌, Option, none,
  some, ltb, ◌==◌, if◌then◌else◌, length,
}
use sdk.Backoff.{backoff_by}
use sdk.Transfer.{Request, Source, World, complete, Round}
use sdk.Transfer.Slot.{
  Step, stop, go, next_end, keep_busy, visit, visit_all, new_request, Slot, first_round, after_loop,
  finish_loop, doio,
}
use sdk.Transfer.Slot.Accounting.{
  OnGo, pending, outstanding, all_outstanding, short_of, short, all_short, IsPosting, Moves,
  by_status_counts, keep_busy_counts,
}

-- A weaker statement about a step.
OnGo-map :
    {A : Type 0} (P Q : A → Round → Type 0)
    → ((a : A) (r : Round) → P a r → Q a r)
    → (st : Step A) → OnGo P st
    → OnGo Q st
OnGo-map P Q f (stop o) h = tt
OnGo-map P Q f (go a r) h = f a r h

-- Completed and outstanding bytes together grow as `pos` does: from `sum` at the position `from`.
abbrev Counts : Source → ℕ → ℕ → ℕ → Round → Type 0
Counts src sum from out r = (r.progresscompleted + out + from ≡ sum + r.pos) × (r.pos ≤ src.size)

module _ (src : Source) (w : World) (posts : IsPosting w) where
  kept :
      (req : Request) (r : Round) (sum from : ℕ) (st : Step Request)
      → r.progresscompleted + pending req.status req.chunk.size + from ≡ sum + r.pos
      → OnGo (Moves src w req r) st
      → OnGo
          (λ req' r'. Counts src sum from (outstanding req') r')
          (elim st [ stop o ↦ stop o | go req' r' ↦ go (some req') r' ])
  kept req r sum from (stop o) e h = tt
  kept req r sum from (go req' r') e h = omega (arith, h)

  new_visit :
      (b : Bool) (r : Round) (st : Step Request)
      → r.pos ≤ src.size
      → OnGo (Moves src w new_request r) st
      → OnGo
          (λ req' r'. Counts src r.progresscompleted r.pos (outstanding req') r')
          (if b then elim st [ stop o ↦ stop o | go req r' ↦ go (some req) r' ] else go none r)
  new_visit true r st low h = kept new_request r r.progresscompleted r.pos st (omega arith) h
  new_visit false r st low h = (omega arith, low)

  used_visit :
      (req : Request) (r : Round) (st : Step Request)
      → r.pos ≤ src.size
      → OnGo
          (λ req' r'.
            (r'.progresscompleted + pending req'.status req'.chunk.size
              ≡ r.progresscompleted
                + pending req.status req.chunk.size
                + short_of req.status src.type req)
            × (r'.pos ≡ r.pos))
          st
      → OnGo
          (λ req' r'.
            Counts src
              (r.progresscompleted + outstanding (some req) + short src.type (some req))
              r.pos
              (outstanding req')
              r')
          (elim st [
            | stop o ↦ stop o
            | go req' r' ↦ elim (keep_busy src w req' r') [
              | stop o ↦ stop o
              | go req'' r'' ↦ go (some req'') r''
            ]
          ])
  used_visit req r (stop o) low h = tt
  used_visit req r (go req' r') low (counted, same) =
      let low' : r'.pos ≤ src.size = omega arith in
      kept req' r' _ r.pos (keep_busy src w req' r') (omega arith)
        (keep_busy_counts src w req' r' posts low')

  visit_counts :
      (req : Option Request) (r : Round)
      → r.pos ≤ src.size
      → OnGo
          (λ req' r'.
            Counts src
              (r.progresscompleted + outstanding req + short src.type req)
              r.pos
              (outstanding req')
              r')
          (visit src w req r)
  unfolding visit
  visit_counts none r low =
      OnGo-map (λ x. Counts src r.progresscompleted r.pos (outstanding x))
        (λ x.
          Counts src (r.progresscompleted + outstanding none + short src.type none) r.pos
            (outstanding x))
        (λ req' r' h. omega (arith, h)) _
        (new_visit (not r.failure && (ltb r.pos (next_end src r) || src.size == 0)) r _ low
          (keep_busy_counts src w new_request r posts low))
  visit_counts (some req) r low =
      used_visit req r _ low (by_status_counts src w req.status req r refl)

  rest_visit :
      (req : Option Request) (sum from : ℕ) (r : Round) (st : Step (List (Option Request)))
      → r.progresscompleted + outstanding req + from ≡ sum + r.pos
      → (short_rest out_rest : ℕ)
      → OnGo
          (λ reqs' r'.
            Counts src
              (r.progresscompleted + out_rest + short_rest)
              r.pos
              (all_outstanding reqs')
              r')
          st
      → OnGo
          (λ reqs' r'. Counts src (sum + out_rest + short_rest) from (all_outstanding reqs') r')
          (elim st [ stop o ↦ stop o | go reqs' r'' ↦ go (req ∷ reqs') r'' ])
  rest_visit req sum from r (stop o) e short_rest out_rest h = tt
  rest_visit req sum from r (go reqs' r') e short_rest out_rest h = omega (arith, h)

  abbrev AllCounts : ℕ → ℕ → List (Option Request) → Round → Type 0
  AllCounts sum from reqs r = Counts src sum from (all_outstanding reqs) r

  first_visit :
      (req : Option Request) (reqs : List (Option Request)) (r : Round) (st : Step (Option Request))
      → ((r' : Round)
          → r'.pos ≤ src.size
          → OnGo
              (AllCounts
                (r'.progresscompleted + all_outstanding reqs + all_short src.type reqs)
                r'.pos)
              (visit_all src w reqs r'))
      → OnGo
          (λ req' r'.
            Counts src
              (r.progresscompleted + outstanding req + short src.type req)
              r.pos
              (outstanding req')
              r')
          st
      → OnGo
          (AllCounts
            (r.progresscompleted
              + (outstanding req + all_outstanding reqs)
              + (short src.type req + all_short src.type reqs))
            r.pos)
          (elim st [
            | stop o ↦ stop o
            | go req' r' ↦ elim (visit_all src w reqs r') [
              | stop o ↦ stop o
              | go reqs' r'' ↦ go (req' ∷ reqs') r''
            ]
          ])
  first_visit req reqs r (stop o) ih h = tt
  first_visit req reqs r (go req' r') ih (counted, low) =
      let sum = r.progresscompleted + outstanding req + short src.type req in
      let outs = all_outstanding reqs in
      let shorts = all_short src.type reqs in
      OnGo-map (AllCounts (sum + outs + shorts) r.pos)
        (AllCounts (r.progresscompleted + (outstanding req + outs) + (short src.type req + shorts))
          r.pos)
        (λ reqs' r'' h. omega (arith, h)) _
        (rest_visit req' sum r.pos r' _ counted shorts outs (ih r' low))

  pub visit_all_counts :
      (reqs : List (Option Request)) (r : Round)
      → r.pos ≤ src.size
      → OnGo
          (AllCounts (r.progresscompleted + all_outstanding reqs + all_short src.type reqs) r.pos)
          (visit_all src w reqs r)
  unfolding visit_all
  visit_all_counts [] r low = (omega arith, low)
  visit_all_counts (req ∷ reqs) r low =
      first_visit req reqs r (visit src w req r) (λ r' low'. visit_all_counts reqs r' low')
        (visit_counts req r low)

  -- What `doio_counts` says of a slot and its successor.
  abbrev Grown : Slot → Slot → Type 0
  Grown s s' =
      (s'.progresscompleted + all_outstanding s'.reqs + s.pos
        ≡ s.progresscompleted + all_outstanding s.reqs + all_short src.type s.reqs + s'.pos)
      × (s'.pos ≤ src.size)

  after_counts :
      (s : Slot) (st : Step (List (Option Request)))
      → OnGo
          (AllCounts
            (s.progresscompleted + all_outstanding s.reqs + all_short src.type s.reqs)
            s.pos)
          st
      → (finish_loop w s st).0 ≡ none
      → Grown s (finish_loop w s st).1
  unfolding finish_loop after_loop
  after_counts s (stop o) h e = cc
  after_counts s (go reqs r) h e = ground (arith, h)

  counts :
      (s : Slot) (o : Bool) (t : Bool)
      → s.pos ≤ src.size
      → o ≡ true
      → t ≡ false
      → let res =
          if not o
          then (some complete, record s { retrybt = backoff_by w.ds 2 s.retrybt; retrying = true })
          else if t
          then (none, record s { retrying = false })
          else finish_loop w s (visit_all src w s.reqs (first_round s)) in
        (res.0 ≡ none) → Grown s res.1
  counts s true false low p q = after_counts s _ (visit_all_counts s.reqs (first_round s) low)
  counts s true true low p q = cc
  counts s false t low p q = cc

-- While `doio` goes on, the completed and the outstanding bytes of a transfer grow exactly as the position
-- up to which chunks were handed out, and by the size of each chunk of a download that was reported as
-- complete without all its bytes; the position stays in the file. So without such chunks nothing is
-- counted twice. Conditions: the file is open, its URL is known, and a posted request is in flight or has
-- failed.
pub doio_counts :
    (src : Source) (w : World) (s : Slot)
    → IsPosting w
    → s.pos ≤ src.size
    → s.open_file ≡ true
    → (length s.tempurl == 0) ≡ false
    → (doio src w s).0 ≡ none
    → ((doio src w s).1.progresscompleted + all_outstanding (doio src w s).1.reqs + s.pos
        ≡ s.progresscompleted
          + all_outstanding s.reqs
          + all_short src.type s.reqs
          + (doio src w s).1.pos)
      × ((doio src w s).1.pos ≤ src.size)
unfolding doio
doio_counts src w s posts low o t = counts src w posts s s.open_file (length s.tempurl == 0) low o t
