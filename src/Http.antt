-- ===== src/Http.antt =====
-- src/http.cpp: the receive buffer of a request (HttpReq) and the tracking of outages (HttpIO).
pub mod Receiving
pub mod Outages
mod Tests
use sdk.Prelude.{
  ℕ, zero, suc, ◌+◌, ◌-◌, ◌^◌, List, [], ◌∷◌, ◌++◌, Bool, true, false, not, ◌&&◌, Option, none,
  some, ltb, ◌==◌, if◌then◌else◌, take, drop, length, replicate, u32,
}
use sdk.Int.{ℤ, pos, negsuc}

-- HttpReq, as far as data is received. `input` is its `in`; `buf` is the fixed buffer, if there is one, `buflen` its length.
pub record HttpReq : Type 0 where
  pub buf : Option (List ℕ)
  pub buflen : ℕ
  pub bufpos : ℕ
  pub input : List ℕ
  pub contentlength : ℤ

-- HttpReq::post, up to the call of the network layer.
pub post : HttpReq → HttpReq
post r = record r { bufpos = 0; contentlength = negsuc 0 }

-- `memcpy(buf + p, data, len)`
pub copy : List ℕ → ℕ → List ℕ → List ℕ
copy buf p bytes = take p buf ++ (bytes ++ drop (p + length bytes) buf)

-- The length that fits, in `put` and `reserveput`.
pub fitting : HttpReq → ℕ → ℕ
fitting r len = if ltb r.buflen (r.bufpos + len) then r.buflen - r.bufpos else len

-- HttpReq::put
pub put : List ℕ → HttpReq → HttpReq
put bytes r = elim r.buf [
  | some buf ↦
      let len = fitting r (length bytes) in
      record r { buf = some (copy buf r.bufpos (take len bytes)); bufpos = r.bufpos + len }
  | none ↦ record r { input = r.input ++ bytes; bufpos = r.bufpos + length bytes }
]

-- HttpReq::setcontentlength
pub setcontentlength : ℤ → HttpReq → HttpReq
setcontentlength len r = record r { contentlength = len }

-- HttpReq::reserveput: the offset of the space, its length, and the request. `resize` adds NULs.
pub reserveput : ℕ → HttpReq → (ℕ × ℕ) × HttpReq
reserveput len r = elim r.buf [
  | some buf ↦ ((r.bufpos, fitting r len), r)
  | none ↦
      let size = length r.input in
      let grown =
        if ltb size (r.bufpos + len)
        then r.input ++ replicate (r.bufpos + len - size) 0
        else r.input in
      ((r.bufpos, length grown - r.bufpos), record r { input = grown })
]

-- HttpReq::transferred
pub transferred : HttpReq → ℕ
transferred r = elim r.buf [ some buf ↦ r.bufpos | none ↦ length r.input ]

-- HttpIO: when the outage was noticed, 0 if there is none, and whether one has just ended.
pub record HttpIo : Type 0 where
  pub noinetds : ℕ
  pub inetback : Bool

-- HttpIO::HttpIO
pub new_io : HttpIo
new_io = record { noinetds = 0; inetback = false }

-- HttpIO::inetstatus at the time `ds`
pub inetstatus : ℕ → Bool → HttpIo → HttpIo
inetstatus ds true io =
    let long = not (io.noinetds == 0) && ltb 600 (u32 (ds + 2 ^ 32 - io.noinetds)) in
    record { noinetds = 0; inetback = if long then true else io.inetback }
inetstatus ds false io = if io.noinetds == 0 then record io { noinetds = ds } else io

-- HttpIO::inetisback
pub inetisback : HttpIo → Bool × HttpIo
inetisback io = if io.inetback then (true, record io { inetback = false }) else (false, io)
