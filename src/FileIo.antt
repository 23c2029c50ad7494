-- ===== src/FileIo.antt =====
-- src/filesystem.cpp, FileAccess: reading a file that may have changed since it was looked at. The calls
-- of the operating system are a parameter.
use sdk.Prelude.{
  ℕ, ◌≡◌, refl, List, ◌++◌, Bool, true, false, not, ◌&&◌, Option, none, some, if◌then◌else◌,
  replicate,
}
use sdk.Int.{ℤ, eq_ℤ}

-- A FileAccess: `by_name` says that `localname` is set, so the file is opened for each read; what
-- `sysstat`, `sysopen` and `sysread(dst, len, pos)` give is the operating system's.
pub record FileAccess : Type 0 where
  pub mtime : ℤ
  pub size : ℤ
  pub by_name : Bool
  pub sysstat : Option (ℤ × ℤ)
  pub sysopen : Bool
  pub sysread : ℕ → ℕ → Option (List ℕ)

-- FileAccess::fopen(string*): whether the file is there, and the object.
pub fopen : FileAccess → Bool × FileAccess
fopen fa = elim fa.sysstat [
  | none ↦ (false, record fa { by_name = true })
  | some (mtime, size) ↦ (true, record fa { by_name = true; mtime = mtime; size = size })
]

-- FileAccess::openf
unfoldable pub openf : FileAccess → Bool
openf fa = if not fa.by_name then true else elim fa.sysstat [
  | none ↦ false
  | some (mtime, size) ↦ eq_ℤ mtime fa.mtime && eq_ℤ size fa.size && fa.sysopen
]

-- FileAccess::fread: the bytes with `pad` zeros behind them.
pub fread : FileAccess → ℕ → ℕ → ℕ → Option (List ℕ)
fread fa len pad pos =
    if openf fa
    then elim (fa.sysread len pos) [ none ↦ none | some bytes ↦ some (bytes ++ replicate pad 0) ]
    else none

-- FileAccess::frawread
pub frawread : FileAccess → ℕ → ℕ → Option (List ℕ)
frawread fa len pos = if openf fa then fa.sysread len pos else none

-- Reading succeeds where the file is unchanged and the operating system reads it.
pub fread_open :
    (fa : FileAccess) (len pad pos : ℕ) (bytes : List ℕ)
    → openf fa ≡ true
    → fa.sysread len pos ≡ some bytes
    → fread fa len pad pos ≡ some (bytes ++ replicate pad 0)
unfolding fread
fread_open fa len pad pos bytes opens read = rw opens (rw (read, fread) refl)
