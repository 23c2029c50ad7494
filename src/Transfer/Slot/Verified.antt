-- ===== src/Transfer/Slot/Verified.antt =====
-- transferslot.cpp: a download is complete when all of it has arrived and its MAC is the one it must have.
use mathlib.Core.List.{Permᴰ}
use sdk.Prelude.{
  ℕ, ◌≡◌, ◌∙◌, refl, sym, ap, arith, List, [], ◌∷◌, ◌++◌, Bool, true, false, ◌||◌, ◌==◌,
  if◌then◌else◌, ◌⊎◌, inl, inr, length, Bool-cases,
}
use sdk.Int.{negsuc}
use sdk.Fingerprint.{same_bytes}
use sdk.Fingerprint.Compare.{same_bytes→eq, same_bytes_refl}
use sdk.FileChunks.{set_mac, finalize, macsmac}
use sdk.FileChunks.OneChunk.{received, finalize-received, sealed_mac}
use sdk.FileChunks.AnyOrder.{slice, sent_macs, finalize_all, macsmac-last}
use sdk.Transfer.{Request, Source, complete, failed, Round}
use sdk.Transfer.Slot.{Step, stop, download_done, api_ekey}

-- A chunk of a download ends the transfer with success only if it has all its bytes, the whole file is
-- counted as complete, and, unless the file is empty, the MAC of the file, this chunk included, is the one
-- that the file must have.
pub download_done-complete :
    (src : Source) (req : Request) (r : Round)
    → download_done src req r ≡ stop complete
    → (req.chunk.size ≡ req.chunk.bufpos)
      × (r.progresscompleted ≡ src.size)
      × ((src.size ≡ 0)
          ⊎ ((macsmac src.key (finalize src.key src.iv r.chunkmacs 0 (negsuc 0) req.chunk).1).0
              ≡ src.metamac))
unfolding download_done
download_done-complete src req r h =
    let macs = (finalize src.key src.iv r.chunkmacs 0 (negsuc 0) req.chunk).1 in
    (
      ground arith,
      ground arith,
      elim (Bool-cases (r.progresscompleted == 0)) [
        | inl e ↦ inl (ground arith)
        | inr e ↦ inr (same_bytes→eq (macsmac src.key macs).0 src.metamac (ground arith))
      ],
    )

or_true : (b : Bool) (x y : Step Request) → (if b || true then x else y) ≡ x
or_true true x y = refl
or_true false x y = refl

-- The last chunk of a file that was sent in chunks under the same key, and of which the other chunks were
-- finalized in any order, ends the transfer with success, if the sizes are right and the MAC that the file
-- must have is the sender's: an intact download is not refused.
pub download_done_intact :
    (src : Source) (req : Request) (r : Round) (content tail : List ℕ) (ps qs : List ℕ) (p : ℕ)
    → Permᴰ ps (qs ++ p ∷ [])
    → r.chunkmacs ≡ (finalize_all src.key src.iv content qs []).1
    → req.chunk ≡ received src.key src.iv p (slice content p) tail
    → r.progresscompleted ≡ src.size
    → src.metamac ≡ (macsmac src.key (sent_macs src.key src.iv content ps [])).0
    → download_done src req r ≡ stop complete
unfolding download_done
download_done_intact src req r content tail ps qs p perm before chunk all_there must =
    let mac = sealed_mac src.key src.iv p (slice content p) in
    let done =
      ap (finalize src.key src.iv r.chunkmacs 0 (negsuc 0)) chunk
      ∙ finalize-received src.key src.iv r.chunkmacs p (slice content p) tail in
    let whole : (req.chunk.size == req.chunk.bufpos) ≡ true =
      ap (λ c. c.size == c.bufpos) chunk ∙ same (length (slice content p)) in
    let counted : (r.progresscompleted == src.size) ≡ true = ground arith in
    let sum : (macsmac src.key (set_mac p mac r.chunkmacs)).0 ≡ src.metamac =
      ap (λ m. (macsmac src.key (set_mac p mac m)).0) before
      ∙ ap (λ m. m.0) (macsmac-last src.key src.iv content ps qs p perm)
      ∙ sym must in
    let test : same_bytes (macsmac src.key (set_mac p mac r.chunkmacs)).0 src.metamac ≡ true =
      ap (λ m. same_bytes m src.metamac) sum ∙ same_bytes_refl src.metamac in
    rw (whole, counted, done, test)
      (or_true (r.progresscompleted == 0) (stop complete) (stop (failed api_ekey)))
  where
    same : (n : ℕ) → (n == n) ≡ true
    same n = ground arith
