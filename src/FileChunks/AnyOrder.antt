-- ===== src/FileChunks/AnyOrder.antt =====
-- transferslot.cpp and http.cpp: a file that is sent in chunks and received in chunks, in any two orders.
use mathlib.Core.List.{Permᴰ}
use sdk.Prelude.{
  ℕ, ◌≡◌, ◌≢◌, ◌∙◌, refl, sym, ap, arith, List, [], ◌∷◌, ◌++◌, drop, take, map, ◌-◌, ℕ_discrete,
}
use sdk.Int.{negsuc}
use sdk.Cipher.{BlockCipher}
use sdk.FileChunks.{ChunkMacs, set_mac, finalize, macsmac}
use sdk.Chunks.{chunkceil}
use sdk.FileChunks.OneChunk.{sealed_mac, received, finalize-received}

-- Notes of two chunks at different positions may be exchanged.
set_mac_comm :
    (p q : ℕ) (m n : List ℕ) (macs : ChunkMacs)
    → p ≢ q
    → set_mac p m (set_mac q n macs) ≡ set_mac q n (set_mac p m macs)
unfolding set_mac
set_mac_comm p q m n [] h = ground arith
set_mac_comm p q m n ((r, k) ∷ macs) h = ground (arith, set_mac_comm p q m n macs h)

module _ (mac_at : ℕ → List ℕ) where
  -- The MACs of the chunks at these positions, noted one after the other.
  pub note_all : List ℕ → ChunkMacs → ChunkMacs
  note_all [] macs = macs
  note_all (p ∷ ps) macs = note_all ps (set_mac p (mac_at p) macs)

  note_comm :
      (p q : ℕ) (macs : ChunkMacs)
      → set_mac p (mac_at p) (set_mac q (mac_at q) macs)
        ≡ set_mac q (mac_at q) (set_mac p (mac_at p) macs)
  note_comm p q macs = elim (ℕ_discrete p q) [
    | yes e ↦
        ap (λ t. set_mac t (mac_at t) (set_mac q (mac_at q) macs)) e
        ∙ ap (λ t. set_mac q (mac_at q) (set_mac t (mac_at t) macs)) (sym e)
    | no d ↦ set_mac_comm p q (mac_at p) (mac_at q) macs d
  ]

  note_all-perm :
      {ps qs : List ℕ} → Permᴰ ps qs → (macs : ChunkMacs) → note_all ps macs ≡ note_all qs macs
  unfolding note_all
  note_all-perm Permᴰ.nil macs = refl
  note_all-perm (Permᴰ.cons {a = a} {b = b} {l₁ = ps} e h) macs =
      ap (λ t. note_all ps (set_mac t (mac_at t) macs)) e
      ∙ note_all-perm h (set_mac b (mac_at b) macs)
  note_all-perm (Permᴰ.swap {a = a} {b = b} {a' = a'} {b' = b'} {l = ps} e e') macs =
      ap (note_all ps) (
        note_comm b a macs
        ∙ ap (λ t. set_mac t (mac_at t) (set_mac b (mac_at b) macs)) e
        ∙ ap (λ t. set_mac b' (mac_at b') (set_mac t (mac_at t) macs)) e')
  note_all-perm (Permᴰ.trans h k) macs = note_all-perm h macs ∙ note_all-perm k macs

-- The chunk of a file at a position.
abbrev pub slice : List ℕ → ℕ → List ℕ
slice content p = take (chunkceil p - p) (drop p content)

module _ (key : BlockCipher) (iv content : List ℕ) where
  -- The sender's MACs, of chunks that are taken in this order.
  pub sent_macs : List ℕ → ChunkMacs → ChunkMacs
  sent_macs ps macs = note_all (λ p. sealed_mac key iv p (slice content p)) ps macs

  -- The receiver finalizes the chunks in this order: what it writes, and its MACs.
  pub finalize_all : List ℕ → ChunkMacs → List (List ℕ × ℕ) × ChunkMacs
  finalize_all [] macs = ([], macs)
  finalize_all (p ∷ ps) macs =
      let (written, macs') =
        finalize key iv macs 0 (negsuc 0) (received key iv p (slice content p) []) in
      let (rest, macs'') = finalize_all ps macs' in (written ∷ rest, macs'')

  finalize_all-note :
      (ps : List ℕ) (macs : ChunkMacs)
      → finalize_all ps macs ≡ (map (λ p. (slice content p, p)) ps, sent_macs ps macs)
  unfolding finalize_all sent_macs note_all
  finalize_all-note [] macs = refl
  finalize_all-note (p ∷ ps) macs =
      rw (finalize-received key iv macs p (slice content p) [], finalize_all-note ps _) refl

  -- A file that is sent in chunks in one order and received in any other order is written chunk by chunk
  -- as it was, and the MAC that the receiver computes from the MACs of the chunks is the sender's.
  pub finalize_all-macsmac :
      (ps qs : List ℕ)
      → Permᴰ ps qs
      → ((finalize_all qs []).0 ≡ map (λ p. (slice content p, p)) qs)
        × (macsmac key (finalize_all qs []).1 ≡ macsmac key (sent_macs ps []))
  unfolding sent_macs
  finalize_all-macsmac ps qs h =
      let noted = note_all-perm (λ p. sealed_mac key iv p (slice content p)) h [] in
      (
        ap (λ r. r.0) (finalize_all-note qs []),
        ap (λ r. macsmac key r.1) (finalize_all-note qs []) ∙ ap (macsmac key) (sym noted),
      )

  note_all-last :
      (mac_at : ℕ → List ℕ) (qs : List ℕ) (p : ℕ) (macs : ChunkMacs)
      → note_all mac_at (qs ++ p ∷ []) macs ≡ set_mac p (mac_at p) (note_all mac_at qs macs)
  unfolding note_all
  note_all-last mac_at [] p macs = refl
  note_all-last mac_at (q ∷ qs) p macs = note_all-last mac_at qs p (set_mac q (mac_at q) macs)

  -- With the last chunk noted behind the others, the MAC of the file is the sender's.
  pub macsmac-last :
      (ps qs : List ℕ) (p : ℕ)
      → Permᴰ ps (qs ++ p ∷ [])
      → macsmac key (set_mac p (sealed_mac key iv p (slice content p)) (finalize_all qs []).1)
        ≡ macsmac key (sent_macs ps [])
  unfolding sent_macs
  macsmac-last ps qs p h =
      let mac_at : ℕ → List ℕ = λ k. sealed_mac key iv k (slice content k) in
      ap (λ r. macsmac key (set_mac p (mac_at p) r.1)) (finalize_all-note qs [])
      ∙ ap (macsmac key) (sym (note_all-last mac_at qs p []) ∙ sym (note_all-perm mac_at h []))
