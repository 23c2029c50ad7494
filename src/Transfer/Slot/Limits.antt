-- ===== src/Transfer/Slot/Limits.antt =====
-- transferslot.cpp: connections that were refused because the transfer limit is reached (HTTP status 509).
use sdk.Prelude.{
  ◌≡◌, ◌∙◌, refl, ap, arith, List, [], ◌∷◌, Bool, true, false, Option, none, some, ltb, ◌==◌,
  Bool-cases, inl, inr, if◌then◌else◌, length,
}
use sdk.Transfer.{req_failure, Request, Source, World, failed, Round}
use sdk.Transfer.Slot.{
  go, api_efailed, by_status, request_failed, keep_busy, visit, visit_all, Slot, first_round,
  after_loop, finish_loop, doio,
}

-- A connection in this state.
abbrev pub IsLimited : Option Request → Type 0
IsLimited none = ⊥
IsLimited (some req) = (req.status ≡ req_failure) × (req.httpstatus ≡ 509)

abbrev pub AllLimited : List (Option Request) → Type 0
AllLimited [] = Unit {0}
AllLimited (req ∷ reqs) = IsLimited req × AllLimited reqs

same_branch : {A : Type 0} (b : Bool) (x : A) → (if b then x else x) ≡ x
same_branch true x = refl
same_branch false x = refl

keep_busy-failed :
    (src : Source) (w : World) (req : Request) (r : Round)
    → req.status ≡ req_failure
    → keep_busy src w req r ≡ go req r
unfolding keep_busy
keep_busy-failed src w req r e = simp e (same_branch r.failure (go req r))

by_status-limit :
    (src : Source) (w : World) (req : Request) (r : Round)
    → IsLimited (some req)
    → by_status src w req.status req r ≡ go req (record r { backoff = 6000 })
unfolding by_status request_failed
by_status-limit src w req r (e, limit) =
    let test : (req.httpstatus == 509) ≡ true = ground arith in
    ap (λ s. by_status src w s req r) e ∙ rw test refl

visit-IsLimited :
    (src : Source) (w : World) (req : Request) (r : Round)
    → IsLimited (some req)
    → visit src w (some req) r ≡ go (some req) (record r { backoff = 6000 })
unfolding visit
visit-IsLimited src w req r h =
    rw (by_status-limit src w req r h, visit)
      (rw (keep_busy-failed src w req (record r { backoff = 6000 }) h.0, visit) refl)

abbrev after_limits : List (Option Request) → Round → Round
after_limits [] r = r
after_limits (req ∷ reqs) r = after_limits reqs (record r { backoff = 6000 })

visit_all-AllLimited :
    (src : Source) (w : World) (reqs : List (Option Request)) (r : Round)
    → AllLimited reqs
    → visit_all src w reqs r ≡ go reqs (after_limits reqs r)
unfolding visit_all
visit_all-AllLimited src w [] r h = refl
visit_all-AllLimited src w (none ∷ reqs) r (h, hs) = elim h [ ]
visit_all-AllLimited src w (some req ∷ reqs) r (h, hs) =
    rw (visit-IsLimited src w req r h, visit_all)
      (rw (visit_all-AllLimited src w reqs (record r { backoff = 6000 }) hs) refl)

after_limits-errorcount :
    (reqs : List (Option Request)) (r : Round) → (after_limits reqs r).errorcount ≡ r.errorcount
after_limits-errorcount [] r = refl
after_limits-errorcount (req ∷ reqs) r = after_limits-errorcount reqs (record r { backoff = 6000 })

after_loop_ends :
    (w : World) (s : Slot) (reqs : List (Option Request)) (r : Round)
    → ((after_loop w s reqs r).1.reqs ≡ reqs)
      × ((after_loop w s reqs r).0
          ≡ (if ltb 10 r.errorcount then some (failed api_efailed) else none))
unfolding after_loop
after_loop_ends w s reqs r = elim (Bool-cases (ltb 10 r.errorcount)) [
  | inl many ↦ rw many (refl, refl)
  | inr few ↦ rw few (refl, refl)
]

-- Where all connections of a slot were refused because of the transfer limit, `doio` leaves them as they
-- are, so that none of them is posted again, however often it runs; it only ends the transfer, if there
-- were more than ten errors before. Conditions: the file is open, and its URL is known.
pub doio-AllLimited :
    (src : Source) (w : World) (s : Slot)
    → AllLimited s.reqs
    → s.open_file ≡ true
    → (length s.tempurl == 0) ≡ false
    → ((doio src w s).1.reqs ≡ s.reqs)
      × ((doio src w s).0 ≡ (if ltb 10 s.errorcount then some (failed api_efailed) else none))
unfolding doio finish_loop
doio-AllLimited src w s h o t =
    let (same, ends) =
      after_loop_ends w (record s { open_file = true }) s.reqs
        (after_limits s.reqs (first_round s)) in
    rw (o, t, visit_all-AllLimited src w s.reqs (first_round s) h)
      (
        same,
        ends
            ∙ ap (λ n. if ltb 10 n then some (failed api_efailed) else none)
                (after_limits-errorcount s.reqs (first_round s)),
      )
