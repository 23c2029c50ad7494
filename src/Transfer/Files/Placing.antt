-- ===== src/Transfer/Files/Placing.antt =====
-- transfer.cpp: what `complete` does with the files of a transfer.
use mathlib.Core.List.{Permᴰ}
use mathlib.Core.List.Permᴰ
use sdk.Prelude.{
  ℕ, ◌≡◌, ◌≢◌, ◌<◌, ◌∙◌, refl, sym, ap, arith, List, [], ◌∷◌, ◌++◌, Bool, true, false, Option, some,
  if◌then◌else◌, All, Bool-cases, inl, inr,
}
use sdk.Int.{pos}
use sdk.Backoff.{BackoffTimer, backoff_by}
use sdk.Fingerprint
use sdk.Fingerprint.{FileFingerprint, genfingerprint, newcrc, equal}
use sdk.Fingerprint.Generate.{genfingerprint_unchanged}
use sdk.Transfer.Files.{
  api_eagain, file_failed, Target, Transfer, Fate, completed, kept, given_up, place, place_all,
  ended, refused, complete_get, complete_put,
}

perm_middle :
    (xs : List Target) (y : Target) (ys : List Target) → Permᴰ (xs ++ y ∷ ys) (y ∷ (xs ++ ys))
perm_middle [] y ys = Permᴰ.refl (y ∷ ys)
perm_middle (x ∷ xs) y ys =
    Permᴰ.trans (Permᴰ.cons refl (perm_middle xs y ys)) (Permᴰ.swap refl refl)

-- Sorting a target by its fate.
abbrev sort : Fate → Target → List Target × List Target × Bool → List Target × List Target × Bool
sort fate f (pending, done, placed) = elim fate [
  | completed ↦ (pending, f ∷ done, placed)
  | kept ↦ (f ∷ pending, done, placed)
  | given_up ↦ (pending, done, placed)
]

sort_keeps :
    (fate : Fate) (f : Target) (files : List Target) (rest : List Target × List Target × Bool)
    → fate ≢ given_up
    → Permᴰ (rest.0 ++ rest.1) files
    → Permᴰ ((sort fate f rest).0 ++ (sort fate f rest).1) (f ∷ files)
sort_keeps completed f files (pending, done, placed) h p =
    Permᴰ.trans (perm_middle pending f done) (Permᴰ.cons refl p)
sort_keeps kept f files (pending, done, placed) h p = Permᴰ.cons refl p
sort_keeps given_up f files rest h p = absurd (h refl)

eagain : (n : ℕ) → n < 16 → file_failed api_eagain n ≡ true
unfolding file_failed
eagain n h = ground arith

not_given_up : (n : ℕ) (placed : Bool) (f : Target) → n < 16 → (place n placed f).0 ≢ given_up
unfolding place
not_given_up n placed f h = choose _ _ _ (eagain n h)
  where
    choose :
        (a b c : Bool)
        → c ≡ true
        → (if a then completed else if b then kept else if c then kept else given_up) ≢ given_up
    choose true b c e = λ p. cc
    choose false true c e = λ p. cc
    choose false false true e = λ p. cc
    choose false false false e = cc

-- While a transfer has failed fewer than sixteen times, no target is lost when the received file is placed:
-- each of them is either completed or still pending.
pub place_all-perm :
    (n : ℕ) (placed : Bool) (files : List Target)
    → n < 16
    → Permᴰ ((place_all n placed files).0 ++ (place_all n placed files).1) files
unfolding place_all
place_all-perm n placed [] h = Permᴰ.nil
place_all-perm n placed (f ∷ files) h =
    sort_keeps (place n placed f).0 f files (place_all n (place n placed f).1 files)
      (not_given_up n placed f h) (place_all-perm n (place n placed f).1 files h)

-- A target at which the file can be placed neither by renaming nor by copying, and not for a passing
-- reason.
abbrev pub IsHopeless : Target → Type 0
IsHopeless f = (f.renamed ≡ (false, false)) × (f.copied ≡ (false, false))

place-IsHopeless : (n : ℕ) (f : Target) → n < 16 → IsHopeless f → place n false f ≡ (kept, false)
unfolding place
place-IsHopeless n f h (r, c) = rw (r, c) (rw (eagain n h) refl)

place_all-IsHopeless :
    (n : ℕ) (files : List Target)
    → n < 16
    → All IsHopeless files
    → place_all n false files ≡ (files, [], false)
unfolding place_all
place_all-IsHopeless n [] h k = refl
place_all-IsHopeless n (f ∷ files) h k =
    ap (λ p. sort p.0 f (place_all n p.1 files)) (place-IsHopeless n f h k.0)
    ∙ ap (sort kept f) (place_all-IsHopeless n files h k.1)

-- The completion of a download that can be placed at none of its targets, for a lasting reason, is tried
-- again after eleven deciseconds, for ever: the transfer stays exactly as it was, its failures are not
-- counted. Conditions: the received
-- file is the right one, the transfer failed fewer than sixteen times before, and there is a target.
pub complete_get_retries :
    (ds : ℕ) (bt : BackoffTimer) (received : Option FileFingerprint) (t : Transfer) (f : Target)
    (files : List Target)
    → refused received t ≡ false
    → t.files ≡ f ∷ files
    → t.failcount < 16
    → All IsHopeless (f ∷ files)
    → ((complete_get ds bt received t).transfer ≡ some t)
      × ((complete_get ds bt received t).retrybt ≡ some (backoff_by ds 11 bt))
      × ((complete_get ds bt received t).done ≡ [])
unfolding complete_get ended
complete_get_retries ds bt received t f files right e few hopeless =
    let stay =
      ap (place_all t.failcount false) e
      ∙ place_all-IsHopeless t.failcount (f ∷ files) few hopeless in
    let same : record t { files = f ∷ files } ≡ t = ap (λ x. record t { files = x }) (sym e) in
    rw right (rw (stay, ended) (ap some same, refl, refl))

-- An upload completes its files only if the source file still has the size and the checksum that it had
-- when the transfer was started.
pub complete_put_unchanged :
    (crc32 : List ℕ → List ℕ) (garbage : List ℕ) (ds : ℕ) (fa : Fingerprint.FileAccess)
    (t : Transfer)
    → (complete_put crc32 garbage ds fa t).done ≢ []
    → (t.fingerprint.isvalid ≡ true)
      × (t.fingerprint.size ≡ pos fa.size)
      × (newcrc crc32 garbage fa ≡ some t.fingerprint.crc)
unfolding complete_put
complete_put_unchanged crc32 garbage ds fa t h =
    elim (Bool-cases (genfingerprint crc32 garbage fa true t.fingerprint).0) [
      | inl changed ↦ absurd (h (rw changed refl))
      | inr same ↦
          let (valid, size, crc, time) =
            genfingerprint_unchanged crc32 garbage fa t.fingerprint true same in
          (valid, size, crc)
    ]
