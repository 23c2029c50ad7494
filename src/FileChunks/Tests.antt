-- ===== src/FileChunks/Tests.antt =====
-- http.cpp and transferslot.cpp, chunks: the theorems at concrete inputs.
use mathlib.Core.List.Permᴰ
use sdk.Prelude.{ℕ, ◌≡◌, refl, List, [], ◌∷◌, true, false, some, take}
use sdk.Int.{pos}
use sdk.Cipher.ShiftKey.{shift_key}
use sdk.FileIo.{FileAccess, openf}
use sdk.FileChunks.{macsmac}
use sdk.FileChunks.AnyOrder.{slice, sent_macs, finalize_all, finalize_all-macsmac}

abbrev iv : List ℕ
iv = 3 ∷ 1 ∷ 4 ∷ 1 ∷ 5 ∷ 9 ∷ 2 ∷ 6 ∷ []

abbrev content : List ℕ
content = b'm' ∷ b'e' ∷ b'g' ∷ b'a' ∷ []

-- A file that is open.
abbrev source_file : FileAccess
source_file = record {
  mtime = pos 1;
  size = pos 4;
  by_name = false;
  sysstat = some (pos 1, pos 4);
  sysopen = true;
  sysread = λ len at. some (take len content);
}

source_file_opens : openf source_file ≡ true
unfolding openf
source_file_opens = refl

finalize_all-macsmac_example :
    ((finalize_all shift_key iv content (131072 ∷ 0 ∷ []) []).0
      ≡ (slice content 131072, 131072) ∷ (slice content 0, 0) ∷ [])
    × (macsmac shift_key (finalize_all shift_key iv content (131072 ∷ 0 ∷ []) []).1
        ≡ macsmac shift_key (sent_macs shift_key iv content (0 ∷ 131072 ∷ []) []))
finalize_all-macsmac_example =
    finalize_all-macsmac shift_key iv content (0 ∷ 131072 ∷ []) (131072 ∷ 0 ∷ [])
      (Permᴰ.swap refl refl)
