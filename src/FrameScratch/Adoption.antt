-- ===== src/FrameScratch/Adoption.antt =====
-- A frame that adopts a packet: its references lead to the copies in the frame.
use mathlib.Core.Path.{subst}
use telora.Common.{
  ℕ, zero, suc, ◌+◌, ◌-◌, ◌*◌, ◌/◌, ◌%◌, ◌^◌, ◌≤◌, ◌<◌, ◌≡◌, refl, ap, ◌∙◌, inl, inr, true, false,
  ◌&&◌, some, List, [], ◌∷◌, ◌++◌, arith, ltb, leb, if◌then◌else◌, ltb→lt, leb→le, Bool-cases,
  length, get_or, set, length-set, Result, ok, err,
}
use telora.FrameScratch.{
  scratch_base, transfer_base, Error, Scratch, Grant, half, reference_at, word_address, Extent,
  pending_count, enter_extent, entered, enter,
}
use telora.FrameScratch.Packets.{moved, get_or-set_ne, get_or-set_self}
use telora.FrameScratch.Invariant.{IsValid, Within}
use telora.FrameScratch.Admit.{Extended, Extends, enter_extent-Extends}
use telora.FrameScratch.Enter.{
  entered_len, packet-Moved, carried_packet, spare, carried_len, adopted_words,
}

get_or-append_right :
    (xs ys : List ℕ) (k i : ℕ) → k ≡ length xs + i → get_or (xs ++ ys) k 0 ≡ get_or ys i 0
get_or-append_right [] ys k i e =
    let same : k ≡ i = omega (arith, e) in ap (λ (n : ℕ). get_or ys n 0) same
get_or-append_right (x ∷ xs) ys zero i e = absurd (omega (arith, e))
get_or-append_right (x ∷ xs) ys (suc k) i e = get_or-append_right xs ys k i (omega (arith, e))

get_or-append_left :
    (xs ys : List ℕ) (i : ℕ) → i < length xs → get_or (xs ++ ys) i 0 ≡ get_or xs i 0
get_or-append_left [] ys i lt = absurd (omega (arith, lt))
get_or-append_left (x ∷ xs) ys zero lt = refl
get_or-append_left (x ∷ xs) ys (suc i) lt = get_or-append_left xs ys i (omega (arith, lt))

-- The references of the packet after its adoption by the frame, which starts behind the words of `s`.
abbrev pub Adopted : ℕ → Scratch → Result ℕ Error × Scratch → Type 0
Adopted count s (err e, s') = Unit {0}
Adopted count s (ok frame, s') =
    (get_or s'.words (length s.words + length s.transfer) 0 ≡ scratch_base + length s.words * 8)
    × ((j : ℕ)
        → j < 2 * length s.transfer
        → reference_at s'.words (2 * length s.words + j) ≡ (
            if ltb j count && leb transfer_base (reference_at s.transfer j)
            then scratch_base + length s.words * 8 + (reference_at s.transfer j - transfer_base)
            else reference_at s.transfer j))
    × ((j : ℕ)
        → j < count
        → transfer_base ≤ reference_at s.transfer j
        → reference_at s.transfer j - transfer_base < length s.transfer * 8)

module _ (bytes args : ℕ) (s : Scratch) (v : IsValid s) (fits : args < 2 ^ 32) (x : Extent)
    (h : Extended bytes args s x) (count : ℕ) (e : s.pending ≡ some count) where
  abbrev body : List ℕ
  body = carried_packet bytes args s v fits x h count e ++ spare bytes args s v fits x h count e

  adopted_len : length (carried_packet bytes args s v fits x h count e) ≡ length s.transfer
  adopted_len = (packet-Moved bytes args s v fits x h count e).2

  -- A word of the packet in the words of the frame.
  adopted_word :
      (i : ℕ)
      → i < length s.transfer
      → get_or (entered x args s).words (length s.words + i) 0
        ≡ get_or (carried_packet bytes args s v fits x h count e) i 0
  adopted_word i lt =
      let carried = carried_len bytes args s v fits x h count e in
      ap (λ (ws : List ℕ). get_or ws (length s.words + i) 0)
        (adopted_words bytes args s v fits x h count e)
      ∙ (get_or-set_ne (s.words ++ body) (x.locals - 1) (length s.words + i) (word_address x.base) 0
            (λ same. absurd (omega (arith, same, lt, h.prefixed, h.at_end, carried)))
          ∙ (get_or-append_right s.words body (length s.words + i) i refl
              ∙ get_or-append_left (carried_packet bytes args s v fits x h count e)
                  (spare bytes args s v fits x h count e) i (omega (arith, adopted_len, lt))))

  adopted_reference :
      (j : ℕ)
      → j < 2 * length s.transfer
      → reference_at (entered x args s).words (2 * length s.words + j)
        ≡ reference_at (carried_packet bytes args s v fits x h count e) j
  adopted_reference j lt =
      let place : (2 * length s.words + j) / 2 ≡ length s.words + j / 2 = omega arith in
      let side : (2 * length s.words + j) % 2 ≡ j % 2 = omega arith in
      ap
        (λ (k : ℕ).
          get_or (entered x args s).words ((2 * length s.words + j) / 2) 0 / 2 ^ (k * 32) % 2 ^ 32)
        side
      ∙ (ap (λ (k : ℕ). half (get_or (entered x args s).words k 0) j) place
          ∙ ap (λ (w : ℕ). half w j) (adopted_word (j / 2) (omega (arith, lt))))

  points :
      (j : ℕ)
      → j < count
      → transfer_base ≤ reference_at s.transfer j
      → reference_at s.transfer j - transfer_base < length s.transfer * 8
  points j lt far =
      let within = subst (λ p. Within (pending_count p) 0 x.prefix s.transfer) e h.within in
      omega (
        arith,
        within j (omega arith) (omega (arith, lt)) far,
        far,
        carried_len bytes args s v fits x h count e,
      )

  -- Within the packet an address does not wrap around.
  moved_plain :
      (j : ℕ)
      → (if leb 0 j && ltb j (0 + count)
          then moved x.base (reference_at s.transfer j)
          else reference_at s.transfer j)
        ≡ (if ltb j count && leb transfer_base (reference_at s.transfer j)
            then scratch_base + length s.words * 8 + (reference_at s.transfer j - transfer_base)
            else reference_at s.transfer j)
  moved_plain j = elim (Bool-cases (ltb j count)) [
    | inr t ↦
        let out : (leb 0 j && ltb j (0 + count)) ≡ false = ground (arith, t) in rw (t, out) refl
    | inl t ↦
        let inside : (leb 0 j && ltb j (0 + count)) ≡ true = ground (arith, t) in
        elim (Bool-cases (leb transfer_base (reference_at s.transfer j))) [
          | inr f ↦ rw (t, inside, f) refl
          | inl f ↦
              let near =
                points j (ltb→lt j count t) (leb→le transfer_base (reference_at s.transfer j) f) in
              let carried = carried_len bytes args s v fits x h count e in
              rw (t, inside, f)
                (omega (
                  arith,
                  near,
                  h.at_end,
                  h.prefixed,
                  h.sized,
                  h.bounded,
                  carried,
                  leb→le transfer_base (reference_at s.transfer j) f,
                ))
        ]
  ]

  adopted_arguments :
      get_or (entered x args s).words (length s.words + length s.transfer) 0 ≡ word_address x.base
  adopted_arguments =
      let carried = carried_len bytes args s v fits x h count e in
      let place : length s.words + length s.transfer ≡ x.locals - 1 =
        omega (arith, h.at_end, h.prefixed, carried) in
      ap (λ (ws : List ℕ). get_or ws (length s.words + length s.transfer) 0)
        (adopted_words bytes args s v fits x h count e)
      ∙ (ap (λ (k : ℕ). get_or (set (s.words ++ body) (x.locals - 1) (word_address x.base)) k 0)
            place
          ∙ get_or-set_self (s.words ++ body) (x.locals - 1) (word_address x.base) 0 (
              omega (
                arith,
                ap length (adopted_words bytes args s v fits x h count e),
                length-set (s.words ++ body) (x.locals - 1) (word_address x.base),
                entered_len bytes args s v fits x h,
                h.prefixed,
                h.sized,
              )))

  entered-Adopted : Adopted count s (ok (word_address x.locals), entered x args s)
  entered-Adopted =
      let (moves, words, len) = packet-Moved bytes args s v fits x h count e in
      (
        adopted_arguments ∙ omega (arith, h.at_end, h.prefixed, h.sized, h.bounded),
        λ j lt. adopted_reference j lt ∙ (moves j ∙ moved_plain j),
        points,
      )

-- A frame that is entered while a packet of `count` references waits, from a valid state: the word of its
-- arguments has the address of the packet's copy behind the words; every half word of the packet is
-- copied as it is, but for the first `count` of them that point into packets, which point to the same
-- place in the copy; and each of those lies in the copy.
pub enter-Adopted :
    (g : Grant) (bytes args : ℕ) (s : Scratch) (count : ℕ)
    → IsValid s
    → args < 2 ^ 32
    → s.pending ≡ some count
    → Adopted count s (enter g bytes args s)
unfolding enter
enter-Adopted g bytes args s count v fits e =
    go (enter_extent g bytes args s) (enter_extent-Extends g bytes args s v)
  where
    go :
        (r : Result Extent Error)
        → Extends bytes args s r
        → Adopted count s
            (elim r [ err e ↦ (err e, s) | ok x ↦ (ok (word_address x.locals), entered x args s) ])
    go (err _) h = tt
    go (ok x) h = entered-Adopted bytes args s v fits x h count e
