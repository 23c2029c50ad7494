-- ===== src/Transfer/Slot/Accounting.antt =====
-- transferslot.cpp: how `doio` counts the bytes of a transfer.
use sdk.Prelude.{
  ℕ, ◌+◌, ◌-◌, ◌≡◌, ◌≤◌, ◌∙◌, refl, sym, ap, arith, List, [], ◌∷◌, Bool, true, false, ◌||◌, Option,
  none, some, ltb, ◌==◌, if◌then◌else◌, ◌⊎◌, inl, inr, Bool-cases, Option-cases,
}
use sdk.FileChunks.{prepare_download, prepare_upload}
use sdk.Transfer.{
  Direction, get, put, ReqStatus, req_ready, req_prepared, req_inflight, req_success, req_failure,
  req_done, Request, Source, World, Round,
}
use sdk.Transfer.Slot.{
  Step, stop, go, upload_done, download_done, request_failed, by_status, prepare_request, next_end,
  take_chunk, is_ready, is_prepared, post_request, keep_busy,
}

-- What holds of a step that does not end the transfer.
abbrev pub OnGo : {A : Type 0} → (A → Round → Type 0) → Step A → Type 0
OnGo P (stop o) = Unit {0}
OnGo P (go a r) = P a r

-- The bytes of the chunk that a request still has to transfer or to report.
abbrev pub pending : ReqStatus → ℕ → ℕ
pending req_ready size = 0
pending req_prepared size = size
pending req_inflight size = size
pending req_success size = size
pending req_failure size = size
pending req_done size = 0

abbrev pub outstanding : Option Request → ℕ
outstanding none = 0
outstanding (some req) = pending req.status req.chunk.size

abbrev pub all_outstanding : List (Option Request) → ℕ
all_outstanding [] = 0
all_outstanding (req ∷ reqs) = outstanding req + all_outstanding reqs

-- The size of the chunk of a download that is reported as complete with fewer (or more) bytes.
abbrev pub short_of : ReqStatus → Direction → Request → ℕ
short_of req_success get req = if req.chunk.size == req.chunk.bufpos then 0 else req.chunk.size
short_of req_success put req = 0
short_of req_ready type req = 0
short_of req_prepared type req = 0
short_of req_inflight type req = 0
short_of req_failure type req = 0
short_of req_done type req = 0

abbrev pub short : Direction → Option Request → ℕ
short type none = 0
short type (some req) = short_of req.status type req

abbrev pub all_short : Direction → List (Option Request) → ℕ
all_short type [] = 0
all_short type (req ∷ reqs) = short type req + all_short type reqs

-- After `post` a request is in flight, or has failed.
abbrev pub IsPosting : World → Type 0
IsPosting w = (req : Request) → (w.posted req ≡ req_inflight) ⊎ (w.posted req ≡ req_failure)

Direction-cases : (t : Direction) → (t ≡ get) ⊎ (t ≡ put)
Direction-cases get = inl refl
Direction-cases put = inr refl

module _ (src : Source) (w : World) where
  -- The status of a request moves its bytes from the outstanding to the completed ones.
  pub by_status_counts :
      (s : ReqStatus) (req : Request) (r : Round)
      → req.status ≡ s
      → OnGo
          (λ req' r'.
            (r'.progresscompleted + pending req'.status req'.chunk.size
              ≡ r.progresscompleted + pending s req.chunk.size + short_of s src.type req)
            × (r'.pos ≡ r.pos))
          (by_status src w s req r)
  unfolding by_status
  by_status_counts req_ready req r e = (rw e (omega arith), refl)
  by_status_counts req_prepared req r e = (rw e (omega arith), refl)
  by_status_counts req_inflight req r e = (rw e (omega arith), refl)
  by_status_counts req_done req r e = (rw e (omega arith), refl)
  by_status_counts req_failure req r e = unfold request_failed in ground arith
  by_status_counts req_success req r e = elim (Direction-cases src.type) [
    | inl d ↦ rw d (unfold download_done in ground arith)
    | inr d ↦ rw d (unfold upload_done in ground arith)
  ]

  -- What a connection does for its next chunk: `pos` moves by the bytes that become outstanding.
  abbrev pub Moves : Request → Round → Request → Round → Type 0
  Moves req r req' r' =
      (r'.progresscompleted ≡ r.progresscompleted)
      × (r'.pos + pending req.status req.chunk.size ≡ r.pos + pending req'.status req'.chunk.size)
      × (r'.pos ≤ src.size)

  download_size :
      (at npos : ℕ) (req : Request) → (prepare_download w.memory at npos req.chunk).size ≡ npos - at
  unfolding prepare_download
  download_size at npos req = ground arith

  prepare_request_counts :
      (req : Request) (npos : ℕ) (r : Round)
      → req.status ≡ req_ready
      → r.pos ≤ npos
      → npos ≤ src.size
      → OnGo (Moves req r) (prepare_request src w req npos r)
  unfolding prepare_request
  prepare_request_counts req npos r e low high = elim (Direction-cases src.type) [
    | inl d ↦ rw d (refl, rw e (omega (arith, download_size r.pos npos req)), high)
    | inr d ↦
        rw d (elim (Option-cases (prepare_upload src.key src.iv src.fa r.chunkmacs r.pos npos)) [
          | inl n ↦
              rw (n, prepare_request)
                (elim (Bool-cases src.retry) [
                  | inl again ↦ rw again (refl, refl, omega arith)
                  | inr never ↦ rw never tt
                ])
          | inr ((sent, macs), n) ↦ rw (n, prepare_request) (refl, rw e (omega arith), high)
        ])
  ]

  next_end-le : (r : Round) → next_end src r ≤ src.size
  unfolding next_end
  next_end-le r = ground arith

  take_chunk_counts :
      (req : Request) (r : Round)
      → req.status ≡ req_ready
      → r.pos ≤ src.size
      → OnGo (Moves req r) (take_chunk src w req r)
  unfolding take_chunk
  take_chunk_counts req r e low = elim (Bool-cases (ltb r.pos (next_end src r) || src.size == 0)) [
    | inl more ↦
        rw more
          (prepare_request_counts req (next_end src r) r e (ground (arith, more)) (next_end-le r))
    | inr none_left ↦ rw none_left (refl, rw e refl, low)
  ]

  pending_flight :
      (s : ReqStatus) (size : ℕ) → (s ≡ req_inflight) ⊎ (s ≡ req_failure) → pending s size ≡ size
  pending_flight s size (inl e) = rw e refl
  pending_flight s size (inr e) = rw e refl

  post_counts :
      (req : Request) (s : ReqStatus)
      → IsPosting w
      → req.status ≡ s
      → let req' = if is_prepared s then post_request w req else req in
        pending req'.status req'.chunk.size ≡ pending s req.chunk.size
  unfolding post_request
  post_counts req req_prepared posts e = pending_flight _ req.chunk.size (posts _)
  post_counts req req_ready posts e = rw e refl
  post_counts req req_inflight posts e = rw e refl
  post_counts req req_success posts e = rw e refl
  post_counts req req_failure posts e = rw e refl
  post_counts req req_done posts e = rw e refl

  post_step :
      (req : Request) (r : Round) (st : Step Request)
      → IsPosting w
      → OnGo (Moves req r) st
      → OnGo (Moves req r) (elim st [
        | stop o ↦ stop o
        | go req' r' ↦ go (if is_prepared req'.status then post_request w req' else req') r'
      ])
  post_step req r (stop o) posts h = tt
  post_step req r (go req' r') posts (same, moved, low) =
      (same, moved ∙ ap (λ t. r.pos + t) (sym (post_counts req' req'.status posts refl)), low)

  ready_counts :
      (s : ReqStatus) (req : Request) (r : Round)
      → req.status ≡ s
      → r.pos ≤ src.size
      → OnGo (Moves req r) (if is_ready s then take_chunk src w req r else go req r)
  ready_counts req_ready req r e low = take_chunk_counts req r e low
  ready_counts req_prepared req r e low = (refl, refl, low)
  ready_counts req_inflight req r e low = (refl, refl, low)
  ready_counts req_success req r e low = (refl, refl, low)
  ready_counts req_failure req r e low = (refl, refl, low)
  ready_counts req_done req r e low = (refl, refl, low)

  pub keep_busy_counts :
      (req : Request) (r : Round)
      → IsPosting w
      → r.pos ≤ src.size
      → OnGo (Moves req r) (keep_busy src w req r)
  unfolding keep_busy
  keep_busy_counts req r posts low =
      both r.failure _ _ (refl, refl, low)
        (post_step req r _ posts (ready_counts req.status req r refl low))
    where
      both :
          (b : Bool) (x y : Step Request)
          → OnGo (Moves req r) x
          → OnGo (Moves req r) y
          → OnGo (Moves req r) (if b then x else y)
      both true x y h k = h
      both false x y h k = k
