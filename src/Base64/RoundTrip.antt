-- ===== src/Base64/RoundTrip.antt =====
-- base64.cpp: `atob` reads back what `btoa` wrote.
use sdk.Prelude.{
  ℕ, zero, suc, ◌+◌, ◌*◌, ◌/◌, ◌%◌, ◌^◌, ◌<◌, ◌≡◌, ◌≢◌, ◌∙◌, refl, ap, arith, bit_and, List, [],
  ◌∷◌, ◌++◌, bit_and_48, bit_and_60, bit_or_field, peek, next, IsByte, All, take,
}
use sdk.Base64.{
  from64, sextet1, sextet2, sextet3, sextet4, btoa, read_sextets, octet1, octet2, octet3, atob_loop,
  atob,
}
use sdk.Base64.Alphabet.{from64-sextet1, from64-sextet2, from64-sextet3, from64-sextet4}

-- The bytes that are put together from sextets p, q, r, s.
octet1_lem : (p q r s : ℕ) → p < 64 → q < 64 → octet1 (p ∷ q ∷ r ∷ s ∷ []) ≡ p * 4 + q / 16
unfolding octet1
octet1_lem p q r s h k =
    omega
      (arith, bit_and_48 q, bit_or_field 2 p (bit_and q 0x30 / 2 ^ 4) (omega (arith, bit_and_48 q)))

octet2_lem : (p q r s : ℕ) → q < 64 → r < 64 → octet2 (p ∷ q ∷ r ∷ s ∷ []) ≡ q % 16 * 16 + r / 4
unfolding octet2
octet2_lem p q r s h k =
    omega
      (arith, bit_and_60 r, bit_or_field 4 q (bit_and r 0x3c / 2 ^ 2) (omega (arith, bit_and_60 r)))

octet3_lem : (p q r s : ℕ) → r < 64 → s < 64 → octet3 (p ∷ q ∷ r ∷ s ∷ []) ≡ r % 4 * 64 + s
unfolding octet3
octet3_lem p q r s h k = omega (arith, bit_or_field 6 r s (omega arith))

-- The reading loop on a whole group, and on a last group of two or three characters.
module _ (c0 c1 c2 c3 s1 s2 : ℕ) (v1 : from64 s1 ≢ 255) (v2 : from64 s2 ≢ 255) where
  read_two :
      (stop : List ℕ)
      → from64 (peek stop) ≡ 255
      → read_sextets 4 0 (c0 ∷ c1 ∷ c2 ∷ c3 ∷ []) (s1 ∷ s2 ∷ stop)
        ≡ (2, from64 s1 ∷ from64 s2 ∷ 255 ∷ c3 ∷ [], next stop)
  unfolding read_sextets
  read_two stop h = ground arith

  read_three :
      (s3 : ℕ) (stop : List ℕ)
      → from64 s3 ≢ 255
      → from64 (peek stop) ≡ 255
      → read_sextets 4 0 (c0 ∷ c1 ∷ c2 ∷ c3 ∷ []) (s1 ∷ s2 ∷ s3 ∷ stop)
        ≡ (3, from64 s1 ∷ from64 s2 ∷ from64 s3 ∷ 255 ∷ [], next stop)
  unfolding read_sextets
  read_three s3 stop v3 h = ground arith

  read_four :
      (s3 s4 : ℕ) (a : List ℕ)
      → from64 s3 ≢ 255
      → from64 s4 ≢ 255
      → read_sextets 4 0 (c0 ∷ c1 ∷ c2 ∷ c3 ∷ []) (s1 ∷ s2 ∷ s3 ∷ s4 ∷ a)
        ≡ (4, from64 s1 ∷ from64 s2 ∷ from64 s3 ∷ from64 s4 ∷ [], a)
  unfolding read_sextets
  read_four s3 s4 a v3 v4 = ground arith

read_none :
    (c0 c1 c2 c3 : ℕ) (stop : List ℕ)
    → from64 (peek stop) ≡ 255
    → read_sextets 4 0 (c0 ∷ c1 ∷ c2 ∷ c3 ∷ []) stop ≡ (0, 255 ∷ c1 ∷ c2 ∷ c3 ∷ [], next stop)
unfolding read_sextets
read_none c0 c1 c2 c3 stop h = ground arith

-- Each byte comes back from the sextets that it was spread over.
module _ (x y : ℕ) (hx : x < 256) (hy : y < 256) where
  octet1-sextets : (r s : ℕ) → octet1 (from64 (sextet1 x) ∷ from64 (sextet2 x y) ∷ r ∷ s ∷ []) ≡ x
  octet1-sextets r s = omega (
    arith,
    octet1_lem (from64 (sextet1 x)) (from64 (sextet2 x y)) r s,
    from64-sextet1 x hx,
    from64-sextet2 x y hx hy,
  )

  octet2-sextets :
      (z p s : ℕ) → z < 256 → octet2 (p ∷ from64 (sextet2 x y) ∷ from64 (sextet3 y z) ∷ s ∷ []) ≡ y
  octet2-sextets z p s hz = omega (
    arith,
    octet2_lem p (from64 (sextet2 x y)) (from64 (sextet3 y z)) s,
    from64-sextet2 x y hx hy,
    from64-sextet3 y z hy hz,
  )

  octet3-sextets : (p q : ℕ) → octet3 (p ∷ q ∷ from64 (sextet3 x y) ∷ from64 (sextet4 y) ∷ []) ≡ y
  octet3-sextets p q = omega (
    arith,
    octet3_lem p q (from64 (sextet3 x y)) (from64 (sextet4 y)),
    from64-sextet3 x y hx hy,
    from64-sextet4 y hy,
  )

-- Every sextet is accepted by the reading loop.
sextet1-valid : (x : ℕ) → x < 256 → from64 (sextet1 x) ≢ 255
sextet1-valid x h = omega (arith, from64-sextet1 x h)

sextet2-valid : (x y : ℕ) → x < 256 → y < 256 → from64 (sextet2 x y) ≢ 255
sextet2-valid x y h k = omega (arith, from64-sextet2 x y h k)

sextet3-valid : (y z : ℕ) → y < 256 → z < 256 → from64 (sextet3 y z) ≢ 255
sextet3-valid y z h k = omega (arith, from64-sextet3 y z h k)

sextet4-valid : (z : ℕ) → z < 256 → from64 (sextet4 z) ≢ 255
sextet4-valid z h = omega (arith, from64-sextet4 z h)

-- The last group, of no, one or two bytes, at every amount of room.
module _ (c0 c1 c2 c3 : ℕ) (stop : List ℕ) (hs : from64 (peek stop) ≡ 255) where
  last_none : (room : ℕ) → atob_loop (c0 ∷ c1 ∷ c2 ∷ c3 ∷ []) stop room ≡ take room []
  unfolding atob_loop
  last_none zero = refl
  last_none (suc zero) = rw (read_none c0 c1 c2 c3 stop hs)
  last_none (suc (suc zero)) = rw (read_none c0 c1 c2 c3 stop hs)
  last_none (suc (suc (suc n))) = rw (read_none c0 c1 c2 c3 stop hs)

  module _ (x : ℕ) (hx : x < 256) where
    read_last_one :
        read_sextets 4 0 (c0 ∷ c1 ∷ c2 ∷ c3 ∷ []) (sextet1 x ∷ sextet2 x 0 ∷ stop)
        ≡ (2, from64 (sextet1 x) ∷ from64 (sextet2 x 0) ∷ 255 ∷ c3 ∷ [], next stop)
    read_last_one =
        read_two c0 c1 c2 c3 (sextet1 x) (sextet2 x 0) (sextet1-valid x hx)
          (sextet2-valid x 0 hx (omega arith)) stop hs

    last_one :
        (room : ℕ)
        → atob_loop (c0 ∷ c1 ∷ c2 ∷ c3 ∷ []) (sextet1 x ∷ sextet2 x 0 ∷ stop) room
          ≡ take room (x ∷ [])
    unfolding atob_loop
    last_one zero = refl
    last_one (suc zero) = rw (read_last_one, octet1-sextets x 0 hx (omega arith) 255 c3)
    last_one (suc (suc zero)) = rw (read_last_one, octet1-sextets x 0 hx (omega arith) 255 c3)
    last_one (suc (suc (suc n))) = rw (read_last_one, octet1-sextets x 0 hx (omega arith) 255 c3)

  module _ (x y : ℕ) (hx : x < 256) (hy : y < 256) where
    read_last_two :
        read_sextets 4 0 (c0 ∷ c1 ∷ c2 ∷ c3 ∷ []) (sextet1 x ∷ sextet2 x y ∷ sextet3 y 0 ∷ stop) ≡ (
          3,
          from64 (sextet1 x) ∷ from64 (sextet2 x y) ∷ from64 (sextet3 y 0) ∷ 255 ∷ [],
          next stop,
        )
    read_last_two =
        read_three c0 c1 c2 c3 (sextet1 x) (sextet2 x y) (sextet1-valid x hx)
          (sextet2-valid x y hx hy) (sextet3 y 0) stop (sextet3-valid y 0 hy (omega arith)) hs

    last_two :
        (room : ℕ)
        → atob_loop (c0 ∷ c1 ∷ c2 ∷ c3 ∷ []) (sextet1 x ∷ sextet2 x y ∷ sextet3 y 0 ∷ stop) room
          ≡ take room (x ∷ y ∷ [])
    unfolding atob_loop
    last_two zero = refl
    last_two (suc zero) = rw (read_last_two, octet1-sextets x y hx hy _ 255)
    last_two (suc (suc zero)) = rw (
      read_last_two,
      octet1-sextets x y hx hy _ 255,
      octet2-sextets x y hx hy 0 _ 255 (omega arith),
    )
    last_two (suc (suc (suc n))) = rw (
      read_last_two,
      octet1-sextets x y hx hy _ 255,
      octet2-sextets x y hx hy 0 _ 255 (omega arith),
    )

-- A whole group of three bytes, before the characters `a`.
module _ (c0 c1 c2 c3 x y z : ℕ) (hx : x < 256) (hy : y < 256) (hz : z < 256) (a : List ℕ) where
  abbrev group : List ℕ
  group = from64 (sextet1 x) ∷ from64 (sextet2 x y) ∷ from64 (sextet3 y z) ∷ from64 (sextet4 z) ∷ []

  read_group :
      read_sextets 4 0
        (c0 ∷ c1 ∷ c2 ∷ c3 ∷ [])
        (sextet1 x ∷ sextet2 x y ∷ sextet3 y z ∷ sextet4 z ∷ a)
      ≡ (4, group, a)
  read_group =
      read_four c0 c1 c2 c3 (sextet1 x) (sextet2 x y) (sextet1-valid x hx) (sextet2-valid x y hx hy)
        (sextet3 y z) (sextet4 z) a (sextet3-valid y z hy hz) (sextet4-valid z hz)

  group_two : octet1 group ∷ octet2 group ∷ [] ≡ x ∷ y ∷ []
  group_two = rw (octet1-sextets x y hx hy _ _, octet2-sextets x y hx hy z _ _ hz)

  atob_loop-group_one :
      atob_loop (c0 ∷ c1 ∷ c2 ∷ c3 ∷ []) (sextet1 x ∷ sextet2 x y ∷ sextet3 y z ∷ sextet4 z ∷ a) 1
      ≡ x ∷ []
  unfolding atob_loop
  atob_loop-group_one = rw (read_group, octet1-sextets x y hx hy _ _)

  atob_loop-group_two :
      atob_loop (c0 ∷ c1 ∷ c2 ∷ c3 ∷ []) (sextet1 x ∷ sextet2 x y ∷ sextet3 y z ∷ sextet4 z ∷ a) 2
      ≡ x ∷ y ∷ []
  unfolding atob_loop
  atob_loop-group_two = rw read_group group_two

  atob_loop-group_three :
      (n : ℕ)
      → atob_loop
          (c0 ∷ c1 ∷ c2 ∷ c3 ∷ [])
          (sextet1 x ∷ sextet2 x y ∷ sextet3 y z ∷ sextet4 z ∷ a)
          (suc (suc (suc n)))
        ≡ x ∷ y ∷ z ∷ atob_loop group a n
  unfolding atob_loop
  atob_loop-group_three n = rw (
    read_group,
    octet1-sextets x y hx hy _ _,
    octet2-sextets x y hx hy z _ _ hz,
    octet3-sextets y z hy hz _ _,
  )

atob_loop-btoa :
    (b stop : List ℕ) (c0 c1 c2 c3 room : ℕ)
    → All IsByte b
    → from64 (peek stop) ≡ 255
    → atob_loop (c0 ∷ c1 ∷ c2 ∷ c3 ∷ []) (btoa b ++ stop) room ≡ take room b
unfolding btoa
atob_loop-btoa [] stop c0 c1 c2 c3 room hb hs = last_none c0 c1 c2 c3 stop hs room
atob_loop-btoa (x ∷ []) stop c0 c1 c2 c3 room hb hs = last_one c0 c1 c2 c3 stop hs x hb.0 room
atob_loop-btoa (x ∷ y ∷ []) stop c0 c1 c2 c3 room hb hs =
    last_two c0 c1 c2 c3 stop hs x y hb.0 hb.1.0 room
atob_loop-btoa (x ∷ y ∷ z ∷ b) stop c0 c1 c2 c3 zero hb hs = unfold atob_loop in refl
atob_loop-btoa (x ∷ y ∷ z ∷ b) stop c0 c1 c2 c3 (suc zero) hb hs =
    atob_loop-group_one c0 c1 c2 c3 x y z hb.0 hb.1.0 hb.1.1.0 (btoa b ++ stop)
atob_loop-btoa (x ∷ y ∷ z ∷ b) stop c0 c1 c2 c3 (suc (suc zero)) hb hs =
    atob_loop-group_two c0 c1 c2 c3 x y z hb.0 hb.1.0 hb.1.1.0 (btoa b ++ stop)
atob_loop-btoa (x ∷ y ∷ z ∷ b) stop c0 c1 c2 c3 (suc (suc (suc n))) hb hs =
    atob_loop-group_three c0 c1 c2 c3 x y z hb.0 hb.1.0 hb.1.1.0 (btoa b ++ stop) n
    ∙ ap (λ t. x ∷ y ∷ z ∷ t) (atob_loop-btoa b stop _ _ _ _ n hb.1.1.1 hs)

-- Decoding what `btoa` wrote, followed by anything that does not begin with a base64 character (the
-- terminating NUL, a quote), into a buffer of `blen` bytes gives the encoded bytes, cut off at `blen`.
pub atob-btoa :
    (b stop : List ℕ) (blen : ℕ)
    → All IsByte b
    → from64 (peek stop) ≡ 255
    → atob (btoa b ++ stop) blen ≡ take blen b
unfolding atob
atob-btoa b stop blen hb hs = atob_loop-btoa b stop 0 0 0 0 blen hb hs
