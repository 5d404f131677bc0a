-- ===== src/FrameScratch/Admit.antt =====
-- What the tests of `enter` admit.
use telora.Common.{
  ℕ, ◌+◌, ◌-◌, ◌*◌, ◌/◌, ◌^◌, ◌≤◌, ◌<◌, ◌≡◌, refl, ap, inl, inr, Bool, true, false, not, ◌&&◌, ◌||◌,
  Option, none, some, List, arith, ltb, leb, ◌==◌, if◌then◌else◌, Bool-cases, length, Result,
  usize_max, ok, err,
}
use telora.FrameScratch.{
  scratch_base, transfer_base, Error, panic, Scratch, Grant, check_packet, Extent, is_pending,
  pending_count, enter_extent, scratch_overflow, namespace_exhausted, frames_exhausted,
  scratch_exhausted,
}
use telora.FrameScratch.Invariant.{Packed, IsValid, Within, Checked, check_packet-Checked}

-- The extents of an admitted frame.
pub record Extended (bytes args : ℕ) (s : Scratch) (x : Extent) : Type 0 where
  pub at_end : x.base ≡ length s.words
  pub prefixed : x.locals ≡ x.base + x.prefix + 1
  pub sized : x.end_word ≡ x.locals + (bytes + 7) / 8
  pub bounded : x.end_word < 2 ^ 27
  pub adopts : (args == transfer_base) ≡ is_pending s.pending
  pub carried : x.prefix ≡ (if is_pending s.pending then length s.transfer else 0)
  pub within : Within (pending_count s.pending) 0 x.prefix s.transfer

abbrev pub Extends : (bytes args : ℕ) → Scratch → Result Extent Error → Type 0
Extends bytes args s (ok x) = Extended bytes args s x
Extends bytes args s (err panic) = ⊥
Extends bytes args s (err e) = Unit {0}

-- The tests after the check of the packet.
admit-Extends :
    (g : Grant) (bytes args : ℕ) (s : Scratch) (x : Extent) (r : Result (Unit {0}) Error)
    → Checked (Within (pending_count s.pending) 0 x.prefix s.transfer) r
    → (Within (pending_count s.pending) 0 x.prefix s.transfer
        → x.end_word < 2 ^ 27
        → Extended bytes args s x)
    → Extends bytes args s (elim r [
      | err e ↦ err e
      | ok u ↦
          if ltb usize_max x.end_word
          then err scratch_overflow
          else if leb ((transfer_base - scratch_base) / 8) x.end_word
          then err namespace_exhausted
          else if not g.frames
          then err frames_exhausted
          else if not g.words
          then err scratch_exhausted
          else ok x
    ])
admit-Extends g bytes args s x (err panic) c k = c
admit-Extends g bytes args s x (err _) c k = tt
admit-Extends g bytes args s x (ok u) c k = elim (Bool-cases (ltb usize_max x.end_word)) [
  | inl a ↦ rw a tt
  | inr a ↦ elim (Bool-cases (leb ((transfer_base - scratch_base) / 8) x.end_word)) [
    | inl b ↦ rw (a, b) tt
    | inr b ↦
        let extended = k c (ground (arith, b)) in
        elim (Bool-cases g.frames) [
          | inl f ↦ elim (Bool-cases g.words) [
            | inl w ↦ rw (a, b, f, w) extended
            | inr w ↦ rw (a, b, f, w) tt
          ]
          | inr f ↦ rw (a, b, f) tt
        ]
  ]
]

pub enter_extent-Extends :
    (g : Grant) (bytes args : ℕ) (s : Scratch)
    → IsValid s
    → Extends bytes args s (enter_extent g bytes args s)
unfolding enter_extent
enter_extent-Extends g bytes args s v = elim (Bool-cases unfit) [
  | inl t ↦ rw (t, enter_extent) tt
  | inr t ↦
      let adopts : (args == transfer_base) ≡ is_pending s.pending =
        agree (args == transfer_base) (is_pending s.pending) t in
      rw (t, enter_extent)
        (admit-Extends g bytes args s extent
          (check_packet (pending_count s.pending) 0 extent.prefix s.transfer)
          (check_packet-Checked (pending_count s.pending) 0 extent.prefix s.transfer
            (counted s.pending s.transfer v.packed))
          λ within bounded. record {
            at_end = refl;
            prefixed = refl;
            sized = refl;
            bounded = bounded;
            adopts = adopts;
            carried = ap (λ (b : Bool). if b then length s.transfer else 0) adopts;
            within = within;
          })
]
  where
    extent : Extent
    extent =
        let prefix = if args == transfer_base then length s.transfer else 0 in
        record {
          prefix = prefix;
          base = length s.words;
          locals = length s.words + prefix + 1;
          end_word = length s.words + prefix + 1 + (bytes + 7) / 8;
        }

    unfit : Bool
    unfit =
        (args == transfer_base) && not (is_pending s.pending)
        || not (args == transfer_base) && is_pending s.pending

    agree : (a b : Bool) → (a && not b || not a && b) ≡ false → a ≡ b
    agree true true t = refl
    agree true false t = absurd (cc t)
    agree false true t = absurd (cc t)
    agree false false t = refl

    counted :
        (pending : Option ℕ) (transfer : List ℕ)
        → Packed pending transfer
        → 0 + pending_count pending ≤ 2 * length transfer
    counted none transfer packed = omega arith
    counted (some count) transfer packed = omega (arith, packed)
