-- ===== src/Transfer/Files/Tests.antt =====
-- transfer.cpp and file.cpp: the theorems at concrete inputs.
use mathlib.Core.List.{Permᴰ}
use sdk.Prelude.{ℕ, ◌≡◌, refl, arith, List, [], ◌∷◌, ◌++◌, true, false, some, none, replicate}
use sdk.Int.{pos, negsuc}
use sdk.Backoff.{backoff_by}
use sdk.Fingerprint
use sdk.Fingerprint.{FileFingerprint, genfingerprint, newcrc, same_bytes, read_or}
use sdk.Transfer.Files.{Target, Transfer, place_all, complete_get, complete_put, refused}
use sdk.Transfer.Files.Retries.{failed_all, is_there, failed_all-survives}
use sdk.Transfer.Files.Placing.{place_all-perm, complete_get_retries}

abbrev hopeless : Target
hopeless = record { localname = b'a' ∷ []; renamed = (false, false); copied = (false, false) }

abbrev fine : Target
fine = record { localname = b'b' ∷ []; renamed = (true, false); copied = (true, false) }

abbrev tiny_crc : List ℕ
tiny_crc = b'x' ∷ b'x' ∷ b'x' ∷ replicate 13 0

-- The fingerprint of a file of three bytes.
abbrev tiny_fingerprint : FileFingerprint
tiny_fingerprint = record { size = pos 3; mtime = pos 9; crc = tiny_crc; isvalid = true }

abbrev transfer : Transfer
transfer = record {
  failcount = 14;
  bt = record { next = 0; delta = 1 };
  files = hopeless ∷ [];
  fingerprint = tiny_fingerprint;
}

-- Three failures are too many for a transfer that has failed fourteen times.
failed_all-survives_example :
    is_there (failed_all ((1, negsuc 2) ∷ (5, negsuc 2) ∷ (9, negsuc 2) ∷ []) transfer) ≡ false
failed_all-survives_example =
    failed_all-survives ((1, negsuc 2) ∷ (5, negsuc 2) ∷ (9, negsuc 2) ∷ []) transfer hopeless []
      refl (omega arith)

place_all-perm_example :
    Permᴰ
      ((place_all 3 false (hopeless ∷ fine ∷ [])).0 ++ (place_all 3 false (hopeless ∷ fine ∷ [])).1)
      (hopeless ∷ fine ∷ [])
place_all-perm_example = place_all-perm 3 false (hopeless ∷ fine ∷ []) (omega arith)

not_refused : refused none transfer ≡ false
unfolding refused
not_refused = refl

complete_get_retries_example :
    ((complete_get 7 (record { next = 0; delta = 1 }) none transfer).transfer ≡ some transfer)
    × ((complete_get 7 (record { next = 0; delta = 1 }) none transfer).retrybt
        ≡ some (backoff_by 7 11 (record { next = 0; delta = 1 })))
    × ((complete_get 7 (record { next = 0; delta = 1 }) none transfer).done ≡ [])
complete_get_retries_example =
    complete_get_retries 7 (record { next = 0; delta = 1 }) none transfer hopeless [] not_refused
      refl (omega arith) ((refl, refl), tt)

-- The file of three bytes, and a checksum that is always 1.
abbrev tiny : Fingerprint.FileAccess
tiny = record { mtime = pos 9; size = 3; frawread = λ len p. some (replicate len b'x') }

abbrev one_crc : List ℕ → List ℕ
one_crc data_bytes = 0 ∷ 0 ∷ 0 ∷ 1 ∷ []

put_done : (complete_put one_crc [] 7 tiny transfer).done ≡ hopeless ∷ []
unfolding complete_put genfingerprint newcrc same_bytes read_or
put_done = refl
