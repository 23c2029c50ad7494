-- ===== src/Transfer/Dispatch.antt =====
-- src/megaclient.cpp, MegaClient::moretransfers and slotavail: whether more transfers are to be started.
mod Tests
use sdk.Prelude.{
  ℕ, ◌+◌, ◌-◌, ◌*◌, ◌/◌, ◌%◌, ◌^◌, ◌≡◌, ◌∙◌, ap₂, refl, arith, List, [], ◌∷◌, Bool, true, false,
  not, ◌&&◌, ltb, leb, ◌==◌, if◌then◌else◌, length, u32,
}
use sdk.Transfer.{Direction, get, put}

pub same_direction : Direction → Direction → Bool
same_direction get get = true
same_direction put put = true
same_direction get put = false
same_direction put get = false

-- What is read of the slot and its transfer.
pub record Slot : Type 0 where
  pub direction : Direction
  pub starttime : ℕ
  pub progressreported : ℕ
  pub size : ℕ

-- MAXTRANSFERS and MINPIPELINE
abbrev pub maxtransfers : ℕ
maxtransfers = 8

abbrev pub minpipeline : ℕ
minpipeline = 65536

-- `t`, `c` and `total`; what remains, `r`, is `sizes` minus `c`, which may be negative.
pub record Totals : Type 0 where
  pub t : ℕ
  pub c : ℕ
  pub sizes : ℕ
  pub total : ℕ

pub tally : ℕ → Direction → List Slot → Totals → Totals
tally ds d [] x = x
tally ds d (s ∷ slots) x =
    if same_direction s.direction d
    then tally ds d slots (record {
      t = if s.starttime == 0 then x.t else u32 (x.t + u32 (ds + 2 ^ 32 - s.starttime));
      c = x.c + s.progressreported;
      sizes = x.sizes + s.size;
      total = x.total + 1;
    })
    else tally ds d slots x

-- MegaClient::slotavail
pub slotavail : List Slot → Bool
slotavail slots = ltb (length slots) maxtransfers

-- The last test: `bpds` is cut off to an `int`.
pub is_fast : Totals → Bool
is_fast x =
    let bpds = u32 (x.c / x.t) in
    ltb 100 bpds && ltb bpds (2 ^ 31) && ltb ((x.sizes - x.c) / bpds) 20

-- The tests on the totals.
pub wants_more : Totals → Bool
wants_more x =
    if ltb x.sizes (minpipeline + x.c)
    then true
    else if leb 2 x.t
    then false
    else if ltb 50 x.t
    then is_fast x
    else false

-- MegaClient::moretransfers
pub moretransfers : ℕ → Direction → List Slot → Bool
moretransfers ds d slots =
    if not (slotavail slots)
    then false
    else wants_more (tally ds d slots (record { t = 0; c = 0; sizes = 0; total = 0 }))

wants_more_lem : (x : Totals) → wants_more x ≡ ltb x.sizes (minpipeline + x.c)
unfolding wants_more
wants_more_lem x = ground arith

-- A number, if the directions are the same.
abbrev pub part : Direction → Direction → ℕ → ℕ
part get get n = n
part put put n = n
part get put n = 0
part put get n = 0

-- The sum of a number of each slot over the slots of a direction.
abbrev pub sum_over : Direction → (Slot → ℕ) → List Slot → ℕ
sum_over d f [] = 0
sum_over d f (s ∷ slots) = part s.direction d (f s) + sum_over d f slots

tally_step :
    (ds : ℕ) (d e : Direction) (s : Slot) (slots : List Slot) (x : Totals)
    → ((y : Totals)
        → ((tally ds d slots y).c ≡ y.c + sum_over d (λ s. s.progressreported) slots)
          × ((tally ds d slots y).sizes ≡ y.sizes + sum_over d (λ s. s.size) slots))
    → let r =
        if◌then◌else◌ {A = Totals}
          (same_direction e d)
          (tally ds d slots (record {
            t = if s.starttime == 0 then x.t else u32 (x.t + u32 (ds + 2 ^ 32 - s.starttime));
            c = x.c + s.progressreported;
            sizes = x.sizes + s.size;
            total = x.total + 1;
          }))
          (tally ds d slots x) in
      (r.c ≡ x.c + (part e d s.progressreported + sum_over d (λ s. s.progressreported) slots))
      × (r.sizes ≡ x.sizes + (part e d s.size + sum_over d (λ s. s.size) slots))
unfolding same_direction
tally_step ds get get s slots x later = (omega (arith, (later _).0), omega (arith, (later _).1))
tally_step ds put put s slots x later = (omega (arith, (later _).0), omega (arith, (later _).1))
tally_step ds get put s slots x later = (omega (arith, (later x).0), omega (arith, (later x).1))
tally_step ds put get s slots x later = (omega (arith, (later x).0), omega (arith, (later x).1))

tally-sum_over :
    (ds : ℕ) (d : Direction) (slots : List Slot) (x : Totals)
    → ((tally ds d slots x).c ≡ x.c + sum_over d (λ s. s.progressreported) slots)
      × ((tally ds d slots x).sizes ≡ x.sizes + sum_over d (λ s. s.size) slots)
unfolding tally
tally-sum_over ds d [] x = (omega arith, omega arith)
tally-sum_over ds d (s ∷ slots) x =
    tally_step ds d s.direction s slots x (λ y. tally-sum_over ds d slots y)

-- More transfers are started exactly while fewer than 8 slots are taken and, over the slots of the direction, the
-- sizes of the transfers are less than 65536 above the progress that was reported. Neither the time that the
-- transfers have taken nor their number in that direction matters.
pub moretransfers_lem :
    (ds : ℕ) (d : Direction) (slots : List Slot)
    → moretransfers ds d slots ≡ (
        ltb (length slots) 8
        && ltb
            (sum_over d (λ s. s.size) slots)
            (65536 + sum_over d (λ s. s.progressreported) slots))
unfolding moretransfers slotavail
moretransfers_lem ds d slots = by_slot (ltb (length slots) 8)
  where
    x : Totals
    x = tally ds d slots (record { t = 0; c = 0; sizes = 0; total = 0 })

    by_slot :
        (b : Bool)
        → (if not b then false else wants_more x) ≡ (
            b
            && ltb
                (sum_over d (λ s. s.size) slots)
                (65536 + sum_over d (λ s. s.progressreported) slots))
    by_slot true =
        let sums = tally-sum_over ds d slots (record { t = 0; c = 0; sizes = 0; total = 0 }) in
        let sizes : x.sizes ≡ sum_over d (λ s. s.size) slots = omega (arith, sums.1) in
        let c : x.c ≡ sum_over d (λ s. s.progressreported) slots = omega (arith, sums.0) in
        wants_more_lem x ∙ ap₂ (λ a b. ltb a (65536 + b)) sizes c
    by_slot false = refl
