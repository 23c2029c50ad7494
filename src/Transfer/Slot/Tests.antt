-- ===== src/Transfer/Slot/Tests.antt =====
-- transferslot.cpp: the theorems at concrete inputs.
use mathlib.Core.List.Permᴰ
use sdk.Prelude.{
  ℕ, ◌+◌, ◌≡◌, ◌≤◌, ◌⊎◌, inl, refl, arith, List, [], ◌∷◌, true, false, some, none, take,
}
use sdk.Int.{pos, negsuc}
use sdk.Cipher.ShiftKey.{shift_key}
use sdk.FileIo.{FileAccess}
use sdk.FileChunks.{Download, finalize, macsmac}
use sdk.FileChunks.OneChunk.{received}
use sdk.FileChunks.AnyOrder.{slice, sent_macs, finalize_all}
use sdk.Transfer.Slot.Limits.{doio-AllLimited}
use sdk.Transfer.Slot.{api_efailed}
use sdk.Transfer.{failed}
use sdk.Transfer.{
  get, req_inflight, req_success, req_failure, Request, Source, World, complete, Round,
}
use sdk.Transfer.Slot.{
  stop, download_done, Slot, doio, visit_all, visit, by_status, request_failed, keep_busy,
  finish_loop, after_loop,
}
use sdk.Transfer.Slot.Accounting.{all_outstanding}
use sdk.Transfer.Slot.Balance.{doio_counts}
use sdk.Transfer.Slot.Verified.{download_done-complete, download_done_intact}

abbrev iv : List ℕ
iv = 3 ∷ 1 ∷ 4 ∷ 1 ∷ 5 ∷ 9 ∷ 2 ∷ 6 ∷ []

abbrev content : List ℕ
content = b'm' ∷ b'e' ∷ b'g' ∷ b'a' ∷ []

abbrev source_file : FileAccess
source_file = record {
  mtime = pos 1;
  size = pos 4;
  by_name = false;
  sysstat = some (pos 1, pos 4);
  sysopen = true;
  sysread = λ len at. some (take len content);
}

-- A download of two chunks, of which the second one arrived first.
abbrev source : Source
source = record {
  type = get;
  size = 4;
  key = shift_key;
  iv = iv;
  metamac = (macsmac shift_key (sent_macs shift_key iv content (0 ∷ 131072 ∷ []) [])).0;
  fa = source_file;
  retry = false;
}

abbrev last_request : Request
last_request = record {
  status = req_success;
  httpstatus = 200;
  body = [];
  sent = [];
  chunk = received shift_key iv 0 (slice content 0) (7 ∷ []);
}

abbrev last_round : Round
last_round = record {
  p = 0;
  backoff = 0;
  pos = 4;
  chunkmacs = (finalize_all shift_key iv content (131072 ∷ []) []).1;
  written = [];
  progresscompleted = 4;
  errorcount = 0;
  failure = false;
  lastdata = 0;
}

download_done_intact_example : download_done source last_request last_round ≡ stop complete
download_done_intact_example =
    download_done_intact source last_request last_round content (7 ∷ []) (0 ∷ 131072 ∷ [])
      (131072 ∷ []) 0 (Permᴰ.swap refl refl) refl refl refl refl

download_done-complete_example :
    (last_request.chunk.size ≡ last_request.chunk.bufpos)
    × (last_round.progresscompleted ≡ 4)
    × ((source.size ≡ 0)
        ⊎ ((macsmac shift_key
              (finalize shift_key iv last_round.chunkmacs 0 (negsuc 0) last_request.chunk).1).0
            ≡ source.metamac))
download_done-complete_example =
    download_done-complete source last_request last_round download_done_intact_example

abbrev chunk_of : ℕ → Download
chunk_of n = record { dlpos = 0; size = n; buf = []; buflen = 0; bufpos = 0 }

-- One connection is in flight, one was refused because the transfer limit is reached.
abbrev slot : Slot
slot = record {
  open_file = true;
  tempurl = b'h' ∷ [];
  reqs =
      some
        (record { status = req_inflight; httpstatus = 0; body = []; sent = []; chunk = chunk_of 2 })
      ∷ some (record {
        status = req_failure;
        httpstatus = 509;
        body = [];
        sent = [];
        chunk = chunk_of 1;
      })
      ∷ [];
  progressreported = 0;
  progresscompleted = 1;
  lastdata = 0;
  errorcount = 0;
  failure = false;
  retrying = false;
  retrybt = record { next = 0; delta = 1 };
  pos = 4;
  chunkmacs = [];
  written = [];
  bt = record { next = 0; delta = 1 };
}

abbrev world : World
world = record { ds = 70; transferred = λ req. 1; posted = λ req. req_inflight; memory = λ n. [] }

slot_goes_on : (doio source world slot).0 ≡ none
unfolding doio visit_all visit by_status request_failed keep_busy finish_loop after_loop
slot_goes_on = refl

doio_counts_example :
    ((doio source world slot).1.progresscompleted
        + all_outstanding (doio source world slot).1.reqs
        + 4
      ≡ 1 + 3 + 0 + (doio source world slot).1.pos)
    × ((doio source world slot).1.pos ≤ 4)
doio_counts_example =
    doio_counts source world slot (λ req. inl refl) (omega arith) refl refl slot_goes_on

abbrev limited_slot : Slot
limited_slot = record slot {
  reqs =
      some (record {
        status = req_failure;
        httpstatus = 509;
        body = [];
        sent = [];
        chunk = chunk_of 1;
      })
      ∷ [];
  errorcount = 11;
}

doio-AllLimited_example :
    ((doio source world limited_slot).1.reqs ≡ limited_slot.reqs)
    × ((doio source world limited_slot).0 ≡ some (failed api_efailed))
doio-AllLimited_example = doio-AllLimited source world limited_slot ((refl, refl), tt) refl refl
