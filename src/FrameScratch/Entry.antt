-- ===== src/FrameScratch/Entry.antt =====
-- What `enter` does on each of its results.
use telora.Common.{
  ℕ, ◌+◌, ◌-◌, ◌*◌, ◌^◌, ◌≤◌, ◌<◌, ◌≡◌, refl, sym, ap, ◌∙◌, false, ◌||◌, Option, none, some, List,
  [], arith, ltb, leb, if◌then◌else◌, length, Result, ok, err,
}
use telora.FrameScratch.{
  scratch_base, transfer_base, Error, panic, Scratch, Grant, word_address, Extent, is_pending,
  enter_extent, entered, enter, leave, address,
}
use telora.FrameScratch.Invariant.{Packed, IsValid}
use telora.FrameScratch.Admit.{Extends, enter_extent-Extends}
use telora.FrameScratch.Enter.{entered-IsValid, leave-entered, entered_len}

-- What `enter` does: an admitted frame that `leave` undoes, with its locals in the storage; or an error
-- other than a panic, and nothing changes.
abbrev pub Entered : (bytes args : ℕ) → Scratch → Result ℕ Error × Scratch → Type 0
Entered bytes args s (ok frame, s') =
    IsValid s'
    × (leave s'
        ≡ (ok tt, record { words = s.words; frames = s.frames; transfer = []; pending = none }))
    × (frame ≡ scratch_base + (length s.words + length s.transfer + 1) * 8)
    × ((offset : ℕ)
        → offset ≤ bytes
        → address (frame + offset) s' ≡ ok ((length s.words + length s.transfer + 1) * 8 + offset))
Entered bytes args s (err panic, s') = ⊥
Entered bytes args s (err e, s') = s' ≡ s

-- A place in the words has its address.
addressed :
    (s : Scratch) (reference offset : ℕ)
    → reference ≡ scratch_base + offset
    → offset ≤ length s.words * 8
    → reference < transfer_base
    → address reference s ≡ ok offset
unfolding address
addressed s reference offset e le lt =
    let above : ltb reference scratch_base ≡ false = ground (arith, e) in
    let inside : (leb transfer_base reference
          || ltb (length s.words * 8) (reference - scratch_base))
        ≡ false =
      ground (arith, e, le, lt) in
    let place : reference - scratch_base ≡ offset = omega (arith, e) in
    rw (above, inside, address) (ap ok place)

-- From a valid state, with arguments of 32 bits, `enter` does not panic; an error changes nothing; and a
-- frame it admits is undone by `leave`, which gives the words and frames back without a packet, has its
-- locals behind the words, the packet and the arguments' word, and each of their bytes has its address in
-- the storage.
pub enter-Entered :
    (g : Grant) (bytes args : ℕ) (s : Scratch)
    → IsValid s
    → args < 2 ^ 32
    → Entered bytes args s (enter g bytes args s)
unfolding enter
enter-Entered g bytes args s v fits =
    go (enter_extent g bytes args s) (enter_extent-Extends g bytes args s v)
  where
    go :
        (r : Result Extent Error)
        → Extends bytes args s r
        → Entered bytes args s
            (elim r [ err e ↦ (err e, s) | ok x ↦ (ok (word_address x.locals), entered x args s) ])
    go (err panic) h = h
    go (err _) h = refl
    go (ok x) h =
        let len = entered_len bytes args s v fits x h in
        let carried : x.prefix ≡ length s.transfer =
          h.carried ∙ idle s.pending s.transfer v.packed in
        (
          entered-IsValid bytes args s v fits x h,
          leave-entered bytes args s v fits x h,
          omega (arith, h.at_end, h.prefixed, h.bounded, h.sized, carried),
          λ offset le.
              addressed (entered x args s) (word_address x.locals + offset)
                ((length s.words + length s.transfer + 1) * 8 + offset)
                (omega (arith, h.at_end, h.prefixed, h.bounded, h.sized, carried))
                (omega (arith, h.at_end, h.prefixed, h.bounded, h.sized, carried, len, le))
                (omega (arith, h.at_end, h.prefixed, h.bounded, h.sized, carried, len, le)),
        )
      where
        idle :
            (pending : Option ℕ) (transfer : List ℕ)
            → Packed pending transfer
            → (if is_pending pending then length transfer else 0) ≡ length transfer
        idle none transfer empty = sym (ap length empty)
        idle (some count) transfer packed = refl
