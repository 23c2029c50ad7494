-- ===== src/Fingerprint/Generate.antt =====
-- filefingerprint.cpp: what `genfingerprint` says of a file.
use sdk.Prelude.{
  ℕ, ◌≡◌, refl, sym, ap, ◌∙◌, arith, List, Bool, true, false, some, Option-cases, Bool-cases, inl,
  inr, ◌⊎◌,
}
use sdk.Int.{pos, eq_ℤ→eq, eq_ℤ-refl}
use sdk.Fingerprint.{FileFingerprint, FileAccess, newcrc, genfingerprint}
use sdk.Fingerprint.Compare.{same_bytes_refl, same_bytes→eq}

module _ (crc32 : List ℕ → List ℕ) (garbage : List ℕ) (fa : FileAccess) where
  abbrev taken : List ℕ → FileFingerprint
  taken crc = record { size = pos fa.size; mtime = fa.mtime; crc = crc; isvalid = true }

  genfingerprint-taken :
      (f : FileFingerprint) (ignoremtime : Bool) (crc : List ℕ)
      → newcrc crc32 garbage fa ≡ some crc
      → (genfingerprint crc32 garbage fa ignoremtime f).1 ≡ taken crc
  unfolding genfingerprint
  genfingerprint-taken f ignoremtime crc e = rw (e, genfingerprint)

  taken_again :
      (ignoremtime : Bool) (crc : List ℕ)
      → newcrc crc32 garbage fa ≡ some crc
      → genfingerprint crc32 garbage fa ignoremtime (taken crc) ≡ (false, taken crc)
  unfolding genfingerprint
  taken_again ignoremtime crc e =
      rw (e, genfingerprint)
        (rw (eq_ℤ-refl fa.mtime, eq_ℤ-refl (pos fa.size), same_bytes_refl crc) refl)

  -- A fingerprint that was taken from a readable file does not change when it is taken again from the
  -- same file: this is how an upload sees that the file stayed as it was.
  pub genfingerprint_again :
      (f : FileFingerprint) (ignoremtime again : Bool) (crc : List ℕ)
      → newcrc crc32 garbage fa ≡ some crc
      → genfingerprint crc32 garbage fa again (genfingerprint crc32 garbage fa ignoremtime f).1
        ≡ (false, record { size = pos fa.size; mtime = fa.mtime; crc = crc; isvalid = true })
  genfingerprint_again f ignoremtime again crc e =
      ap (genfingerprint crc32 garbage fa again) (genfingerprint-taken f ignoremtime crc e)
      ∙ taken_again again crc e

  -- If `genfingerprint` reports no change, the fingerprint was valid and is what the file gives: its size
  -- and checksum, and also its time, if that is not ignored.
  pub genfingerprint_unchanged :
      (f : FileFingerprint) (ignoremtime : Bool)
      → (genfingerprint crc32 garbage fa ignoremtime f).0 ≡ false
      → (f.isvalid ≡ true)
        × (f.size ≡ pos fa.size)
        × (newcrc crc32 garbage fa ≡ some f.crc)
        × ((ignoremtime ≡ true) ⊎ (f.mtime ≡ fa.mtime))
  unfolding genfingerprint
  genfingerprint_unchanged f ignoremtime h = elim (Option-cases (newcrc crc32 garbage fa)) [
    | inl n ↦ ground arith
    | inr (crc, e) ↦ (
      ground arith,
      eq_ℤ→eq f.size (pos fa.size) (ground arith),
      e ∙ ap some (sym (same_bytes→eq f.crc crc (ground arith))),
      elim (Bool-cases ignoremtime) [
        | inl a ↦ inl a
        | inr b ↦ inr (eq_ℤ→eq f.mtime fa.mtime (ground arith))
      ],
    )
  ]
