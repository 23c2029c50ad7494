-- ===== src/Transfer/Slot.antt =====
-- transferslot.cpp, TransferSlot::doio: the state machine of a transfer.
pub mod Accounting
pub mod Balance
pub mod Verified
pub mod Limits
mod Tests
use sdk.Prelude.{
  ℕ, zero, suc, ◌+◌, ◌-◌, ◌*◌, ◌/◌, ◌^◌, ◌%◌, List, [], ◌∷◌, ◌++◌, Bool, true, false, not, ◌&&◌,
  ◌||◌, Option, none, some, ltb, leb, ◌==◌, if◌then◌else◌, length, u32,
}
use sdk.Int.{ℤ, pos, negsuc, neg}
use sdk.Base64.{atob}
use sdk.Json.Read.{atoll}
use sdk.Chunks.{chunkceil}
use sdk.Backoff.{BackoffTimer, backoff_by}
use sdk.Fingerprint.{same_bytes}
use sdk.FileChunks.{ChunkMacs, Download, prepare_upload, prepare_download, finalize, macsmac}
use sdk.Transfer.{
  Direction, get, put, ReqStatus, req_ready, req_prepared, req_inflight, req_success, req_failure,
  req_done, Request, Source, World, Outcome, complete, failed, Round,
}

-- API_EFAILED, API_EKEY, API_EREAD
abbrev pub api_efailed : ℤ
api_efailed = neg 5

abbrev pub api_ekey : ℤ
api_ekey = neg 14

abbrev pub api_eread : ℤ
api_eread = neg 21

-- NewNode::UPLOADTOKENLEN
abbrev pub uploadtokenlen : ℕ
uploadtokenlen = 27

-- One connection in one round of the loop: the transfer may be ended there.
pub data Step (A : Type 0) : Type 0 where
  stop : Outcome → Step A
  go : A → Round → Step A

-- The cast to `int`.
to_int : ℤ → ℤ
to_int (pos n) = let low = n % 2 ^ 32 in if ltb low (2 ^ 31) then pos low else neg (2 ^ 32 - low)
to_int (negsuc n) =
    let low = n % 2 ^ 32 in if ltb low (2 ^ 31) then negsuc low else pos (2 ^ 32 - 1 - low)

-- `atoi` at a digit or a minus sign, for numbers in the range of `long`.
atoi : List ℕ → ℤ
atoi p = to_int (atoll p)

-- REQ_SUCCESS of an upload. An answer is the upload token, or the number of an error (`atoi`).
pub upload_done : Request → Round → Step Request
upload_done req r =
    if length req.body == 0
    then go (record req { status = req_ready }) r
    else if length req.body == uploadtokenlen * 4 / 3
        && length (atob req.body (uploadtokenlen + 1)) == uploadtokenlen
    then stop complete
    else stop (failed (atoi req.body))

-- REQ_SUCCESS of a download: a chunk that is all there is decrypted and written.
pub download_done : Source → Request → Round → Step Request
download_done src req r =
    let ((bytes, at), macs) = finalize src.key src.iv r.chunkmacs 0 (negsuc 0) req.chunk in
    let r' = record r { errorcount = 0; chunkmacs = macs; written = (bytes, at) ∷ r.written } in
    if not (req.chunk.size == req.chunk.bufpos)
    then go (record req { status = req_prepared }) (record r { errorcount = r.errorcount + 1 })
    else if not (r.progresscompleted == src.size)
    then go (record req { status = req_ready }) r'
    else if r.progresscompleted == 0 || same_bytes (macsmac src.key macs).0 src.metamac
    then stop complete
    else stop (failed api_ekey)

-- REQ_FAILURE; 509 says that the transfer limit is reached.
pub request_failed : Request → Round → Step Request
request_failed req r =
    if req.httpstatus == 509
    then go req (record r { backoff = 6000 })
    else go (record req { status = req_prepared }) (record r { failure = true })

-- The `switch` on the status of a request.
pub by_status : Source → World → ReqStatus → Request → Round → Step Request
by_status src w req_inflight req r = go req (record r { p = r.p + w.transferred req })
by_status src w req_success req r =
    let r' = record r {
      lastdata = w.ds;
      progresscompleted = r.progresscompleted + req.chunk.size;
    } in
    elim src.type [
      | put ↦ upload_done req (record r' { errorcount = 0 })
      | get ↦ download_done src req r'
    ]
by_status src w req_failure req r = request_failed req r
by_status src w req_ready req r = go req r
by_status src w req_prepared req r = go req r
by_status src w req_done req r = go req r

-- A new HttpReqXfer
abbrev pub new_request : Request
new_request = record {
  status = req_ready;
  httpstatus = 0;
  body = [];
  sent = [];
  chunk = record { dlpos = 0; size = 0; buf = []; buflen = 0; bufpos = 0 };
}

-- `prepare` of a request for the chunk from `pos` to `npos`.
pub prepare_request : Source → World → Request → ℕ → Round → Step Request
prepare_request src w req npos r = elim src.type [
  | put ↦ elim (prepare_upload src.key src.iv src.fa r.chunkmacs r.pos npos) [
    | none ↦ if src.retry then go req (record r { backoff = 2 }) else stop (failed api_eread)
    | some (sent, macs) ↦
        go
          (record req {
            status = req_prepared;
            sent = sent;
            chunk = record (req.chunk) { size = npos - r.pos };
          })
          (record r { pos = npos; chunkmacs = macs })
  ]
  | get ↦
      go
        (record req {
          status = req_prepared;
          chunk = prepare_download w.memory r.pos npos req.chunk;
        })
        (record r { pos = npos })
]

-- The end of the next chunk.
pub next_end : Source → Round → ℕ
next_end src r = let npos = chunkceil r.pos in if ltb src.size npos then src.size else npos

-- A connection that is free takes the next chunk, if there is one (of an empty file there always is).
pub take_chunk : Source → World → Request → Round → Step Request
take_chunk src w req r =
    if ltb r.pos (next_end src r) || src.size == 0
    then prepare_request src w req (next_end src r) r
    else go (record req { status = req_done }) r

abbrev pub is_ready : ReqStatus → Bool
is_ready req_ready = true
is_ready s = false

abbrev pub is_prepared : ReqStatus → Bool
is_prepared req_prepared = true
is_prepared s = false

-- HttpReq::post
pub post_request : World → Request → Request
post_request w req =
    let req' = record req { chunk = record (req.chunk) { bufpos = 0 } } in
    record req' { status = w.posted req' }

-- The part of the loop that keeps a connection busy, which is left out after a failure.
pub keep_busy : Source → World → Request → Round → Step Request
keep_busy src w req r =
    let prepared = if is_ready req.status then take_chunk src w req r else go req r in
    if r.failure then go req r else elim prepared [
      | stop o ↦ stop o
      | go req' r' ↦ go (if is_prepared req'.status then post_request w req' else req') r'
    ]

-- One connection: the request, if there is one, and then the next chunk.
pub visit : Source → World → Option Request → Round → Step (Option Request)
visit src w none r =
    if not r.failure && (ltb r.pos (next_end src r) || src.size == 0)
    then elim (keep_busy src w new_request r) [ stop o ↦ stop o | go req r' ↦ go (some req) r' ]
    else go none r
visit src w (some req) r = elim (by_status src w req.status req r) [
  | stop o ↦ stop o
  | go req' r' ↦ elim (keep_busy src w req' r') [
    | stop o ↦ stop o
    | go req'' r'' ↦ go (some req'') r''
  ]
]

-- The loop over the connections; they are listed in its order, from the last one to the first.
pub visit_all : Source → World → List (Option Request) → Round → Step (List (Option Request))
visit_all src w [] r = go [] r
visit_all src w (req ∷ reqs) r = elim (visit src w req r) [
  | stop o ↦ stop o
  | go req' r' ↦ elim (visit_all src w reqs r') [
    | stop o ↦ stop o
    | go reqs' r'' ↦ go (req' ∷ reqs') r''
  ]
]

-- A TransferSlot and, of its Transfer, what `doio` changes.
pub record Slot : Type 0 where
  pub open_file : Bool
  pub tempurl : List ℕ
  pub reqs : List (Option Request)
  pub progressreported : ℕ
  pub progresscompleted : ℕ
  pub lastdata : ℕ
  pub errorcount : ℕ
  pub failure : Bool
  pub retrying : Bool
  pub retrybt : BackoffTimer
  pub pos : ℕ
  pub chunkmacs : ChunkMacs
  pub written : List (List ℕ × ℕ)
  pub bt : BackoffTimer

-- TransferSlot::XFERTIMEOUT
abbrev pub xfertimeout : ℕ
xfertimeout = 600

abbrev pub first_round : Slot → Round
first_round s = record {
  p = 0;
  backoff = 0;
  pos = s.pos;
  chunkmacs = s.chunkmacs;
  written = s.written;
  progresscompleted = s.progresscompleted;
  errorcount = s.errorcount;
  failure = s.failure;
  lastdata = s.lastdata;
}

-- What `doio` does behind the loop: the end of the transfer, or the slot as it goes on.
pub after_loop : World → Slot → List (Option Request) → Round → Option Outcome × Slot
after_loop w s reqs r =
    let p = r.p + r.progresscompleted in
    let moved = not (p == s.progressreported) in
    let lastdata = if moved then w.ds else r.lastdata in
    let idle = u32 (w.ds + 2 ^ 32 - lastdata) in
    let s' = record s {
      reqs = reqs;
      progressreported = p;
      progresscompleted = r.progresscompleted;
      lastdata = lastdata;
      errorcount = r.errorcount;
      failure = leb xfertimeout idle || r.failure;
      retrying = false;
      pos = r.pos;
      chunkmacs = r.chunkmacs;
      written = r.written;
    } in
    let wait = if r.backoff == 0 then u32 (xfertimeout + 2 ^ 32 - idle) else r.backoff in
    if ltb 10 r.errorcount
    then (some (failed api_efailed), s')
    else (none, record s' { bt = backoff_by w.ds wait s'.bt })

pub finish_loop : World → Slot → Step (List (Option Request)) → Option Outcome × Slot
finish_loop w s (stop o) = (some o, record s { retrying = false })
finish_loop w s (go reqs r) = after_loop w s reqs r

-- TransferSlot::doio; where the transfer ends within the loop, what the loop changed is left out. Without an open file this is a completion that is still pending.
pub doio : Source → World → Slot → Option Outcome × Slot
doio src w s =
    if not s.open_file
    then (some complete, record s { retrybt = backoff_by w.ds 2 s.retrybt; retrying = true })
    else if length s.tempurl == 0
    then (none, record s { retrying = false })
    else finish_loop w s (visit_all src w s.reqs (first_round s))
