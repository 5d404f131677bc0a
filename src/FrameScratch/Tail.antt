-- ===== src/FrameScratch/Tail.antt =====
-- What `tail` does on each of its results.
use mathlib.Core.Path.{subst}
use telora.Common.{
  ℕ, ◌+◌, ◌-◌, ◌*◌, ◌/◌, ◌%◌, ◌≤◌, ◌<◌, ◌≡◌, refl, sym, ap, inl, inr, false, not, ◌&&◌, ◌||◌,
  Option, none, some, List, [], ◌∷◌, arith, ltb, leb, ◌==◌, if◌then◌else◌, Bool-cases, length, take,
  drop, length-take, length-drop, Result, usize_max, ok, err,
}
use telora.FrameScratch.{
  scratch_base, transfer_base, Error, panic, Scratch, Grant, is_pending, leave, tail_start, tail,
  outside_frame, invalid_extent, storage_exhausted,
}
use telora.FrameScratch.Invariant.{Nested, IsValid, take-Words, drop-Words}
use telora.FrameScratch.Enter.{popped}

-- No packet waits yet, and this one is made of whole words of the innermost frame, with room for its
-- references.
pub record PacketOf (packet bytes count : ℕ) (s : Scratch) : Type 0 where
  pub idle : s.pending ≡ none
  pub above_base : scratch_base ≤ packet
  pub below_transfer : packet < transfer_base
  pub whole_start : packet % 8 ≡ 0
  pub whole_words : bytes % 8 ≡ 0
  pub base : ℕ
  pub outer : List ℕ
  pub innermost : s.frames ≡ base ∷ outer
  pub in_frame : scratch_base + base * 8 ≤ packet
  pub in_words : packet + bytes ≤ scratch_base + length s.words * 8
  pub counted : count * 4 ≤ bytes

-- What `tail` does: the innermost frame is left and its packet waits; or an error other than a panic,
-- and nothing changes.
abbrev pub Tailed : (packet bytes count : ℕ) → Scratch → Result ℕ Error × Scratch → Type 0
Tailed packet bytes count s (ok reference, s') =
    IsValid s'
    × (reference ≡ transfer_base)
    × (s'.pending ≡ some count)
    × (s'.transfer ≡ take (bytes / 8) (drop ((packet - scratch_base) / 8) s.words))
    × (leave s ≡ (ok tt, record s { words = s'.words; frames = s'.frames }))
    × PacketOf packet bytes count s
Tailed packet bytes count s (err panic, s') = ⊥
Tailed packet bytes count s (err e, s') = s' ≡ s

-- What the tests of `tail` admit.
record Started (packet bytes count : ℕ) (s : Scratch) (start : ℕ) : Type 0 where
  starts : start ≡ (packet - scratch_base) / 8
  framed : (base : ℕ) × (frames : List ℕ) × (s.frames ≡ base ∷ frames)
  extent : start + bytes / 8 ≤ length s.words
  counted : count ≤ bytes / 4
  aligned : bytes % 8 ≡ 0
  packet_of : PacketOf packet bytes count s

abbrev Starts : (packet bytes count : ℕ) → Scratch → Result ℕ Error → Type 0
Starts packet bytes count s (ok start) = Started packet bytes count s start
Starts packet bytes count s (err panic) = ⊥
Starts packet bytes count s (err e) = Unit {0}

tail_start-Starts :
    (g : Grant) (packet bytes count : ℕ) (s : Scratch)
    → Starts packet bytes count s (tail_start g packet bytes count s)
unfolding tail_start
tail_start-Starts g packet bytes count s =
    elim (Bool-cases (
      is_pending s.pending
      || not (leb scratch_base packet && ltb packet transfer_base)
      || not (bytes % 8 == 0))) [
        | inl a ↦ rw (a, tail_start) tt
        | inr a ↦ elim (Bool-cases (ltb usize_max ((packet - scratch_base) / 8 + bytes / 8))) [
          | inl b ↦ rw (a, b, tail_start) tt
          | inr b ↦ rw (a, b, tail_start) (by_frames s.frames refl (first_tests s.pending refl a))
        ]
      ]
  where
    start : ℕ
    start = (packet - scratch_base) / 8

    first_tests :
        (p : Option ℕ)
        → s.pending ≡ p
        → (is_pending p
            || not (leb scratch_base packet && ltb packet transfer_base)
            || not (bytes % 8 == 0))
          ≡ false
        → (s.pending ≡ none) × (scratch_base ≤ packet) × (packet < transfer_base) × (bytes % 8 ≡ 0)
    first_tests none e a = (e, ground (arith, a), ground (arith, a), ground (arith, a))
    first_tests (some n) e a = absurd (cc a)

    by_frames :
        (frames : List ℕ)
        → s.frames ≡ frames
        → (s.pending ≡ none) × (scratch_base ≤ packet) × (packet < transfer_base) × (bytes % 8 ≡ 0)
        → Starts packet bytes count s (elim frames [
          | [] ↦ err outside_frame
          | frame ∷ frames ↦
              if not (packet % 8 == 0)
                || ltb start frame
                || ltb (length s.words) (start + bytes / 8)
                || ltb (bytes / 4) count
              then err invalid_extent
              else if not g.transfer
              then err storage_exhausted
              else ok start
        ])
    by_frames [] e first = tt
    by_frames (frame ∷ frames) e (idle, low, high, whole) =
        elim (Bool-cases (
          not (packet % 8 == 0)
          || ltb start frame
          || ltb (length s.words) (start + bytes / 8)
          || ltb (bytes / 4) count)) [
            | inl c ↦ rw c tt
            | inr c ↦ elim (Bool-cases g.transfer) [
              | inl d ↦
                  rw (c, d)
                    (record {
                      starts = refl;
                      framed = (frame, frames, e);
                      extent = ground (arith, c);
                      counted = ground (arith, c);
                      aligned = whole;
                      packet_of = record {
                        idle = idle;
                        above_base = low;
                        below_transfer = high;
                        whole_start = ground (arith, c);
                        whole_words = whole;
                        base = frame;
                        outer = frames;
                        innermost = e;
                        in_frame = ground (arith, c, low);
                        in_words = ground (arith, c, low, whole);
                        counted = ground (arith, c, whole);
                      };
                    })
              | inr d ↦ rw (c, d) tt
            ]
          ]

-- From a valid state `tail` does not panic, and an error changes nothing. A packet is accepted only if
-- none waits, it starts at a word of the innermost frame and consists of whole words up to the end of the
-- storage at most, and its references have room in it; it is then a copy of those words, waits with the
-- count of its references, and the innermost frame is left as `leave` leaves it.
pub tail-Tailed :
    (g : Grant) (packet bytes count : ℕ) (s : Scratch)
    → IsValid s
    → Tailed packet bytes count s (tail g packet bytes count s)
unfolding tail leave
tail-Tailed g packet bytes count s v =
    go (tail_start g packet bytes count s) (tail_start-Starts g packet bytes count s)
  where
    copied : ℕ → Scratch
    copied start = record s { transfer = take (bytes / 8) (drop start s.words) }

    handed : ℕ → Result (Unit {0}) Error × Scratch → Result ℕ Error × Scratch
    handed start (left, s') = elim left [
      | err e ↦ (err e, s')
      | ok u ↦ (ok transfer_base, record s' { pending = some count })
    ]

    waits :
        (start base : ℕ) (frames : List ℕ)
        → Started packet bytes count s start
        → s.frames ≡ base ∷ frames
        → IsValid (record {
          words = take base s.words;
          frames = frames;
          transfer = take (bytes / 8) (drop start s.words);
          pending = some count;
        })
    waits start base frames h e =
        let nested = subst (Nested (length s.words)) e v.nested in
        let below = length-take base s.words in
        record {
          bounded = omega (arith, below, v.bounded);
          words = take-Words base s.words v.words;
          transfer = take-Words (bytes / 8) (drop start s.words) (drop-Words start s.words v.words);
          nested = subst (λ n. Nested n frames) (omega (arith, below, nested.0)) nested.1;
          packed = omega (
            arith,
            length-take (bytes / 8) (drop start s.words),
            length-drop start s.words,
            h.extent,
            h.counted,
            h.aligned,
          );
        }

    go :
        (r : Result ℕ Error)
        → Starts packet bytes count s r
        → Tailed packet bytes count s
            (elim r [ err e ↦ (err e, s) | ok start ↦ handed start (leave (copied start)) ])
    go (err panic) h = h
    go (err _) h = refl
    go (ok start) h =
        let (base, frames, e) = h.framed in
        subst (λ left. Tailed packet bytes count s (handed start left))
          (sym (popped (copied start) base frames e))
          (
            waits start base frames h e,
            refl,
            refl,
            ap (λ (n : ℕ). take (bytes / 8) (drop n s.words)) h.starts,
            popped s base frames e,
            h.packet_of,
          )
