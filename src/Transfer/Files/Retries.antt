-- ===== src/Transfer/Files/Retries.antt =====
-- transfer.cpp and file.cpp: when a transfer that fails again and again is given up.
use sdk.Prelude.{
  ℕ, ◌+◌, ◌≡◌, ◌≤◌, ◌<◌, ◌∙◌, refl, ap, arith, List, [], ◌∷◌, Bool, true, false, not, ◌&&◌, Option,
  none, some, leb, if◌then◌else◌, length, Bool-cases, inl, inr, u32,
}
use sdk.Int.{ℤ, eq_ℤ}
use sdk.Backoff.{backoff}
use sdk.Transfer.Files.{api_ekey, api_eblocked, file_failed, Target, Transfer, any_defers, failed}

-- The attempts of a transfer that failed, each with its time and error.
pub failed_all : List (ℕ × ℤ) → Transfer → Option Transfer
failed_all [] t = some t
failed_all ((ds, e) ∷ attempts) t = elim (failed ds e t) [
  | none ↦ none
  | some t' ↦ failed_all attempts t'
]

-- The errors after which a transfer is tried again.
abbrev pub retriable : List (ℕ × ℤ) → Bool
retriable [] = true
retriable ((ds, e) ∷ attempts) =
    not (eq_ℤ e api_ekey) && not (eq_ℤ e api_eblocked) && retriable attempts

abbrev pub is_there : Option Transfer → Bool
is_there none = false
is_there (some t) = true

any_defers_same :
    (e : ℤ) (n : ℕ) (f : Target) (files : List Target)
    → any_defers e n (f ∷ files) ≡ file_failed e n
unfolding any_defers
any_defers_same e n f [] = ground arith
any_defers_same e n f (g ∷ files) = rw (any_defers_same e n g files) (ground arith)

failed_lem :
    (ds : ℕ) (e : ℤ) (t : Transfer) (f : Target) (files : List Target)
    → t.files ≡ f ∷ files
    → failed ds e t ≡ (
        if file_failed e t.failcount
        then some (record t { bt = backoff ds t.bt; failcount = u32 (t.failcount + 1) })
        else none)
unfolding failed
failed_lem ds e t f files h =
    let one : any_defers e t.failcount t.files ≡ file_failed e t.failcount =
      ap (any_defers e t.failcount) h ∙ any_defers_same e t.failcount f files in
    rw (one, failed) refl

next_attempt :
    (ds : ℕ) (e : ℤ) (attempts : List (ℕ × ℤ)) (t : Transfer) (f : Target) (files : List Target)
    → t.files ≡ f ∷ files
    → file_failed e t.failcount ≡ true
    → failed_all ((ds, e) ∷ attempts) t
      ≡ failed_all attempts (record t { bt = backoff ds t.bt; failcount = u32 (t.failcount + 1) })
unfolding failed_all
next_attempt ds e attempts t f files h again =
    let b : failed ds e t
        ≡ some (record t { bt = backoff ds t.bt; failcount = u32 (t.failcount + 1) }) =
      failed_lem ds e t f files h ∙ chosen _ again _ in
    rw (b, failed_all) refl
  where
    chosen : (b : Bool) → b ≡ true → (x : Option Transfer) → (if b then x else none) ≡ x
    chosen true p x = refl
    chosen false p x = cc

last_attempt :
    (ds : ℕ) (e : ℤ) (attempts : List (ℕ × ℤ)) (t : Transfer) (f : Target) (files : List Target)
    → t.files ≡ f ∷ files
    → file_failed e t.failcount ≡ false
    → failed_all ((ds, e) ∷ attempts) t ≡ none
unfolding failed_all
last_attempt ds e attempts t f files h never =
    let b : failed ds e t ≡ none = failed_lem ds e t f files h ∙ chosen _ never _ in
    rw (b, failed_all) refl
  where
    chosen : (b : Bool) → b ≡ false → (x : Option Transfer) → (if b then x else none) ≡ none
    chosen true p x = cc
    chosen false p x = refl

-- A transfer with at least one file survives its failed attempts exactly if there are, with the ones
-- before, at most sixteen, and none of them is a cryptographic error or says that the file is blocked.
-- So the seventeenth failure at the latest ends it.
pub failed_all-survives :
    (attempts : List (ℕ × ℤ)) (t : Transfer) (f : Target) (files : List Target)
    → t.files ≡ f ∷ files
    → t.failcount ≤ 16
    → is_there (failed_all attempts t)
      ≡ (leb (t.failcount + length attempts) 16 && retriable attempts)
failed_all-survives [] t f files some_file low = unfold failed_all in ground arith
failed_all-survives ((ds, e) ∷ attempts) t f files some_file low =
    elim (Bool-cases (file_failed e t.failcount)) [
      | inl again ↦
          let few : t.failcount < 16 = unfold file_failed in ground arith in
          let count : u32 (t.failcount + 1) ≡ t.failcount + 1 = omega arith in
          let t' = record t { bt = backoff ds t.bt; failcount = u32 (t.failcount + 1) } in
          ap is_there (next_attempt ds e attempts t f files some_file again)
          ∙ failed_all-survives attempts t' f files some_file (omega arith)
          ∙ unfold file_failed in ground arith
      | inr never ↦
          ap is_there (last_attempt ds e attempts t f files some_file never)
          ∙ unfold file_failed in ground arith
    ]
