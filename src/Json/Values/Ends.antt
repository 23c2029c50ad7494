-- ===== src/Json/Values/Ends.antt =====
-- json.cpp: the loop of `storeobject` ends on every text.
use sdk.Prelude.{
  ℕ, zero, suc, ◌≡◌, ◌≢◌, ◌≤◌, ◌<◌, arith, List, [], ◌∷◌, Bool, false, not, ◌&&◌, ◌==◌, some, next,
  length, Option-cases, inl, inr,
}
use sdk.Int.{ℤ}
use sdk.Json.{skip_string, skip_number, scan_token, scan, stuck}

skip_string-le :
    (escaped : Bool) (p : List ℕ) (q : List ℕ)
    → skip_string escaped p ≡ some q
    → (length (next q) < length p)
unfolding skip_string
skip_string-le escaped [] q e = cc
skip_string-le escaped (c ∷ cs) q e = ground (arith, skip_string-le (c == 92 && not escaped) cs q)

skip_number-le : (p : List ℕ) → length (skip_number p) ≤ length p
unfolding skip_number
skip_number-le [] = omega arith
skip_number-le (c ∷ cs) = ground (arith, skip_number-le cs)

scan_token-shorter :
    (p : List ℕ) (o a : ℤ) (q : List ℕ) (o' a' : ℤ)
    → scan_token p o a ≡ some (q, o', a')
    → length q < length p
unfolding scan_token
scan_token-shorter [] o a q o' a' e = cc
scan_token-shorter (c ∷ cs) o a q o' a' e = elim (Option-cases (skip_string false cs)) [
  | inl n ↦ ground (arith, skip_number-le cs)
  | inr (r, s) ↦ ground (arith, skip_number-le cs, skip_string-le false cs r s)
]

-- With one round for each character and one more the loop ends by itself: by accepting a value or by
-- refusing the text.
pub scan-ne-stuck : (fuel : ℕ) (p : List ℕ) (o a : ℤ) → length p < fuel → scan fuel p o a ≢ stuck
unfolding scan
scan-ne-stuck zero p o a h = absurd (omega arith)
scan-ne-stuck (suc fuel) p o a h = elim (Option-cases (scan_token p o a)) [
  | inl n ↦ rw (n, scan) (λ e. cc)
  | inr ((q, o', a'), s) ↦
      let shorter = scan_token-shorter p o a q o' a' s in
      ground (arith, s, scan-ne-stuck fuel q o' a' (omega arith))
]
