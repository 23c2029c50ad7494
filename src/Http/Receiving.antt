-- ===== src/Http/Receiving.antt =====
-- http.cpp: what a request receives, in whatever pieces it arrives.
use sdk.Prelude.{
  ℕ, zero, suc, ◌+◌, ◌-◌, ◌≡◌, ◌≤◌, ◌∙◌, refl, sym, ap, ap₂, subst, arith, List, [], ◌∷◌, ◌++◌,
  some, ltb, take, drop, length, length-append, length-take, length-drop, take-length, take-append,
  Bool-cases, inl, inr,
}
use mathlib.Core.List.{append_assoc, append-nil}
use sdk.Int.{ℤ}
use sdk.Http.{HttpReq, post, fitting, copy, put}

-- The pieces, one after the other.
pub put_all : List (List ℕ) → HttpReq → HttpReq
put_all [] r = r
put_all (d ∷ ds) r = put_all ds (put d r)

abbrev pub joined : List (List ℕ) → List ℕ
joined [] = []
joined (d ∷ ds) = d ++ joined ds

-- A request with a fixed buffer.
abbrev pub fixed : List ℕ → ℕ → ℕ → List ℕ → ℤ → HttpReq
fixed buf buflen bufpos input contentlength = record {
  buf = some buf;
  buflen = buflen;
  bufpos = bufpos;
  input = input;
  contentlength = contentlength;
}

take-split :
    (xs ys : List ℕ) (n : ℕ) → length xs ≤ n → take n (xs ++ ys) ≡ xs ++ take (n - length xs) ys
take-split [] ys n h = let e : n - 0 ≡ n = omega arith in ap (λ k. take k ys) (sym e)
take-split (x ∷ xs) ys zero h = absurd (omega arith)
take-split (x ∷ xs) ys (suc n) h =
    let e : suc n - suc (length xs) ≡ n - length xs = omega arith in
    ap (◌∷◌ x) (take-split xs ys n (omega arith)) ∙ ap (λ k. x ∷ (xs ++ take k ys)) (sym e)

take-cut : (n : ℕ) (xs ys : List ℕ) → take n (take n xs ++ ys) ≡ take n (xs ++ ys)
take-cut zero xs ys = refl
take-cut (suc n) [] ys = refl
take-cut (suc n) (x ∷ xs) ys = ap (◌∷◌ x) (take-cut n xs ys)

length-copy :
    (buf bytes : List ℕ) (p : ℕ)
    → p + length bytes ≤ length buf
    → length (copy buf p bytes) ≡ length buf
unfolding copy
length-copy buf bytes p h = omega (
  arith,
  length-append (take p buf) (bytes ++ drop (p + length bytes) buf),
  length-append bytes (drop (p + length bytes) buf),
  length-take p buf,
  length-drop (p + length bytes) buf,
)

take-copy :
    (buf bytes : List ℕ) (p : ℕ)
    → p + length bytes ≤ length buf
    → take (p + length bytes) (copy buf p bytes) ≡ take p buf ++ bytes
unfolding copy
take-copy buf bytes p h =
    let front : length (take p buf ++ bytes) ≡ p + length bytes =
      omega (arith, length-append (take p buf) bytes, length-take p buf) in
    let behind = drop (p + length bytes) buf in
    ap (take (p + length bytes)) (sym (append_assoc (take p buf) bytes behind))
    ∙ ap (λ k. take k ((take p buf ++ bytes) ++ behind)) (sym front)
    ∙ take-append (take p buf ++ bytes) behind

-- What fits of a piece is what the buffer has room for.
fitting-take :
    (r : HttpReq) (d : List ℕ)
    → r.bufpos ≤ r.buflen
    → take (fitting r (length d)) d ≡ take (r.buflen - r.bufpos) d
unfolding fitting
fitting-take r d h = elim (Bool-cases (ltb r.buflen (r.bufpos + length d))) [
  | inl e ↦ rw e refl
  | inr e ↦ rw e (
      take-length (length d) d (omega arith)
      ∙ sym (take-length (r.buflen - r.bufpos) d (ground arith)))
]

-- A request with a fixed buffer that received `bytes`, cut off at the length of the buffer.
abbrev pub HasReceived : ℕ → List ℕ → HttpReq → Type 0
HasReceived size bytes r =
    (b : List ℕ) × (r.buf ≡ some b)
    × (length b ≡ size)
    × (r.buflen ≡ size)
    × (r.bufpos ≤ size)
    × (take r.bufpos b ≡ take size bytes)

put-fixed :
    (size : ℕ) (buf bytes d input : List ℕ) (bufpos : ℕ) (total : ℤ)
    → length buf ≡ size
    → bufpos ≤ size
    → take bufpos buf ≡ take size bytes
    → HasReceived size (bytes ++ d) (put d (fixed buf size bufpos input total))
unfolding put
put-fixed size buf bytes d input bufpos total full h had =
    let r = fixed buf size bufpos input total in
    let len = fitting r (length d) in
    let bound : len ≤ length d = unfold fitting in ground arith in
    let fits : bufpos + len ≤ size = unfold fitting in ground arith in
    let count : length (take len d) ≡ len = omega (arith, length-take len d) in
    let room : bufpos + length (take len d) ≤ length buf = omega arith in
    let front : length (take bufpos buf) ≡ bufpos = omega (arith, length-take bufpos buf) in
    let cut : take size (take bufpos buf ++ d) ≡ take bufpos buf ++ take (size - bufpos) d =
      take-split (take bufpos buf) d size (omega arith)
      ∙ ap (λ k. take bufpos buf ++ take (size - k) d) front in
    (
      copy buf bufpos (take len d),
      refl,
      length-copy buf (take len d) bufpos room ∙ full,
      refl,
      fits,
      ap (λ k. take (bufpos + k) (copy buf bufpos (take len d))) (sym count)
          ∙ take-copy buf (take len d) bufpos room
          ∙ ap (λ t. take bufpos buf ++ t) (fitting-take r d h)
          ∙ sym cut
          ∙ ap (λ t. take size (t ++ d)) had
          ∙ take-cut size bytes d,
    )

put-HasReceived :
    (size : ℕ) (bytes d : List ℕ) (r : HttpReq)
    → HasReceived size bytes r
    → HasReceived size (bytes ++ d) (put d r)
put-HasReceived size bytes d r (b, has, full, whole, h, had) =
    let same : r ≡ fixed b size r.bufpos r.input r.contentlength =
      ap₂ (λ x y. record r { buf = x; buflen = y }) has whole in
    subst (λ t. HasReceived size (bytes ++ d) (put d t)) (sym same)
      (put-fixed size b bytes d r.input r.bufpos r.contentlength full h had)

put_all-HasReceived :
    (ds : List (List ℕ)) (size : ℕ) (bytes : List ℕ) (r : HttpReq)
    → HasReceived size bytes r
    → HasReceived size (bytes ++ joined ds) (put_all ds r)
unfolding put_all
put_all-HasReceived [] size bytes r h = subst (λ t. HasReceived size t r) (sym (append-nil bytes)) h
put_all-HasReceived (d ∷ ds) size bytes r h =
    subst (λ t. HasReceived size t (put_all ds (put d r))) (append_assoc bytes d (joined ds))
      (put_all-HasReceived ds size (bytes ++ d) (put d r) (put-HasReceived size bytes d r h))

-- After `post`, a request with a fixed buffer may get its data in any pieces and of any length: the
-- buffer keeps its length, no more bytes are received than it has room for, and the bytes in it are those
-- that arrived, cut off at the length of the buffer.
pub put_all-received :
    (ds : List (List ℕ)) (buf input : List ℕ) (bufpos : ℕ) (total : ℤ)
    → HasReceived
        (length buf)
        (joined ds)
        (put_all ds (post (fixed buf (length buf) bufpos input total)))
unfolding post
put_all-received ds buf input bufpos total =
    put_all-HasReceived ds (length buf) [] _
      (buf, refl, refl, refl, omega arith, sym (take-length (length buf) [] (omega arith)))
