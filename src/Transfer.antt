-- ===== src/Transfer.antt =====
-- src/transferslot.cpp, TransferSlot, and src/transfer.cpp, Transfer: a transfer in its slot, whose
-- connections carry one chunk each. `Transfer/Slot` is `doio`, `Transfer/Files` what becomes of the
-- files. The network, the clock and the file system are parameters.
pub mod Slot
pub mod Files
pub mod Dispatch
use sdk.Prelude.{ℕ, List, Bool, Option}
use sdk.Int.{ℤ}
use sdk.Cipher.{BlockCipher}
use sdk.FileIo.{FileAccess}
use sdk.FileChunks.{ChunkMacs, Download}

-- direction_t
pub data Direction : Type 0 where
  get put : Direction

-- reqstatus_t
pub data ReqStatus : Type 0 where
  req_ready req_prepared req_inflight req_success req_failure req_done : ReqStatus

-- A HttpReqXfer: `body` is the answer (`in`), `sent` the data to post (`out`); the size of the chunk and,
-- for a download, its position and buffer are in `chunk`.
pub record Request : Type 0 where
  pub status : ReqStatus
  pub httpstatus : ℕ
  pub body : List ℕ
  pub sent : List ℕ
  pub chunk : Download

-- What does not change while `doio` runs: of the Transfer its direction, size, key, counter and the MAC
-- that a download must have; of the slot the source file and whether a failed read may be repeated.
pub record Source : Type 0 where
  pub type : Direction
  pub size : ℕ
  pub key : BlockCipher
  pub iv : List ℕ
  pub metamac : List ℕ
  pub fa : FileAccess
  pub retry : Bool

-- What it takes from outside: the time, the progress of a request in flight, the status after `post`, and
-- memory that is not initialised.
pub record World : Type 0 where
  pub ds : ℕ
  pub transferred : Request → ℕ
  pub posted : Request → ReqStatus
  pub memory : ℕ → List ℕ

-- How `doio` may end a transfer: with `complete()`, or with `failed(e)`.
pub data Outcome : Type 0 where
  complete : Outcome
  failed : ℤ → Outcome

-- What a round of the loop over the connections changes: the local variables `p` and `backoff`, of the
-- transfer `pos`, `chunkmacs` and what was written to the file, of the slot the rest.
pub record Round : Type 0 where
  pub p : ℕ
  pub backoff : ℕ
  pub pos : ℕ
  pub chunkmacs : ChunkMacs
  pub written : List (List ℕ × ℕ)
  pub progresscompleted : ℕ
  pub errorcount : ℕ
  pub failure : Bool
  pub lastdata : ℕ
