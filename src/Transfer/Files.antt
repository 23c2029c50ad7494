-- ===== src/Transfer/Files.antt =====
-- src/transfer.cpp, Transfer::failed and Transfer::complete, and File::failed of src/file.cpp: what becomes
-- of the files of a transfer. The outcome of each call of the file system is part of the input.
pub mod Retries
pub mod Placing
mod Tests
use sdk.Prelude.{
  ℕ, zero, suc, ◌+◌, List, [], ◌∷◌, ◌++◌, Bool, true, false, not, ◌&&◌, ◌||◌, Option, none, some,
  ltb, ◌==◌, if◌then◌else◌, length, u32,
}
use sdk.Int.{ℤ, pos, negsuc, neg, eq_ℤ}
use sdk.Backoff.{BackoffTimer, backoff, backoff_by}
use sdk.Fingerprint
use sdk.Fingerprint.{FileFingerprint, equal, genfingerprint}

-- API_EAGAIN, API_EKEY, API_EBLOCKED, API_EWRITE, API_EREAD
abbrev pub api_eagain : ℤ
api_eagain = neg 3

abbrev pub api_ekey : ℤ
api_ekey = neg 14

abbrev pub api_eblocked : ℤ
api_eblocked = neg 16

abbrev pub api_ewrite : ℤ
api_ewrite = neg 20

abbrev pub api_eread : ℤ
api_eread = neg 21

-- File::failed: whether the file wants the transfer to be tried again. The files of a synchronisation
-- answer the same.
pub file_failed : ℤ → ℕ → Bool
file_failed e failcount = not (eq_ℤ e api_ekey) && not (eq_ℤ e api_eblocked) && ltb failcount 16

-- One target of a transfer: its local name, and how `renamelocal` and `copylocal` to it end: whether they
-- succeed, and the value of `transient_error`.
pub record Target : Type 0 where
  pub localname : List ℕ
  pub renamed : Bool × Bool
  pub copied : Bool × Bool

-- A Transfer as far as its files are concerned.
pub record Transfer : Type 0 where
  pub failcount : ℕ
  pub bt : BackoffTimer
  pub files : List Target
  pub fingerprint : FileFingerprint

-- `defer`: does any file want another attempt?
pub any_defers : ℤ → ℕ → List Target → Bool
any_defers e failcount [] = false
any_defers e failcount (f ∷ files) = file_failed e failcount || any_defers e failcount files

-- Transfer::failed at the time `ds`; `none` says that the transfer is deleted.
pub failed : ℕ → ℤ → Transfer → Option Transfer
failed ds e t =
    let t' = record t { bt = backoff ds t.bt } in
    if any_defers e t.failcount t.files
    then some (record t' { failcount = u32 (t.failcount + 1) })
    else none

-- What becomes of a target in `complete`.
pub data Fate : Type 0 where
  completed kept given_up : Fate

-- Placing the received file at one target; `placed` says that `tmplocalname`, the name that it was renamed to, is not
-- empty.
pub place : ℕ → Bool → Target → Fate × Bool
place failcount placed f =
    let try_rename = not placed in
    let renamed = try_rename && f.renamed.0 in
    let success = renamed || f.copied.0 in
    let transient =
      (try_rename && not f.renamed.0 && f.renamed.1) || (not f.copied.0 && f.copied.1) in
    (
      (if success
          then completed
          else if transient
          then kept
          else if file_failed api_eagain failcount
          then kept
          else given_up),
      placed || (renamed && not (length f.localname == 0)),
    )

-- The loop over the targets: the ones that are still pending, the completed ones, and whether the file
-- was renamed.
pub place_all : ℕ → Bool → List Target → List Target × List Target × Bool
place_all failcount placed [] = ([], [], placed)
place_all failcount placed (f ∷ files) =
    let (fate, placed') = place failcount placed f in
    let (pending, done, placed'') = place_all failcount placed' files in
    elim fate [
      | completed ↦ (pending, f ∷ done, placed'')
      | kept ↦ (f ∷ pending, done, placed'')
      | given_up ↦ (pending, done, placed'')
    ]

-- The result of `complete`: the transfer, if it is not deleted, the files that were completed, whether the
-- received file is removed, and the timer of the slot, if the completion is still pending.
pub record Completion : Type 0 where
  pub transfer : Option Transfer
  pub done : List Target
  pub unlinked : Bool
  pub retrybt : Option BackoffTimer

pub ended : ℕ → BackoffTimer → Transfer → List Target × List Target × Bool → Completion
ended ds bt t ([], done, placed) = record {
  transfer = none;
  done = done;
  unlinked = not placed;
  retrybt = none;
}
ended ds bt t (f ∷ pending, done, placed) = record {
  transfer = some (record t { files = f ∷ pending });
  done = done;
  unlinked = false;
  retrybt = some (backoff_by ds 11 bt);
}

-- Is the received file not the one that was wanted?
pub refused : Option FileFingerprint → Transfer → Bool
refused none t = false
refused (some fingerprint) t = t.fingerprint.isvalid && not (equal fingerprint t.fingerprint)

-- Transfer::complete of a download. `received` is the fingerprint of the received file, if it can be
-- opened.
pub complete_get : ℕ → BackoffTimer → Option FileFingerprint → Transfer → Completion
complete_get ds bt received t =
    if refused received t
    then record { transfer = failed ds api_ewrite t; done = []; unlinked = true; retrybt = none }
    else ended ds bt t (place_all t.failcount false t.files)

-- Transfer::complete of an upload: the file must not have changed since the transfer was started.
pub complete_put : (List ℕ → List ℕ) → List ℕ → ℕ → Fingerprint.FileAccess → Transfer → Completion
complete_put crc32 garbage ds fa t =
    let (changed, fingerprint) = genfingerprint crc32 garbage fa true t.fingerprint in
    let t' = record t { fingerprint = fingerprint } in
    if changed
    then record { transfer = failed ds api_eread t'; done = []; unlinked = false; retrybt = none }
    else record { transfer = none; done = t.files; unlinked = false; retrybt = none }
