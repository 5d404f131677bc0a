-- ===== src/FrameScratch/Enter.antt =====
-- Entering and leaving a frame.
use mathlib.Core.Path.{subst}
use telora.Common.{
  ℕ, ◌+◌, ◌-◌, ◌*◌, ◌^◌, ◌≤◌, ◌<◌, ◌≡◌, refl, sym, ap, ◌∙◌, Option, none, some, List, [], ◌∷◌, ◌++◌,
  arith, if◌then◌else◌, length, set, take, drop, replicate, length-append, length-set, length-drop,
  length-replicate, take-append, take-set, ok,
}
use telora.FrameScratch.{Scratch, word_address, Extent, is_pending, relocate, entered, leave}
use telora.FrameScratch.Packets.{Words, set-Words, relocate-Moved, Moved}
use telora.FrameScratch.Invariant.{Nested, Packed, IsValid, append-Words, drop-Words, zeros-Words}
use telora.FrameScratch.Admit.{Extended}

pub popped :
    (s : Scratch) (base : ℕ) (frames : List ℕ)
    → s.frames ≡ base ∷ frames
    → leave s ≡ (ok tt, record s { words = take base s.words; frames = frames })
unfolding leave
popped s base frames e = rw (e, leave) refl

-- The words of an admitted frame: those before it, and its own with the arguments' word set.
pub record Framed (x : Extent) (s : Scratch) (words : List ℕ) : Type 0 where
  pub body : List ℕ
  pub arguments : ℕ
  pub shape : words ≡ set (s.words ++ body) (x.locals - 1) arguments
  pub body_len : length body ≡ x.end_word - x.base
  pub body_words : Words body
  pub small : arguments < 2 ^ 64

module _ (bytes args : ℕ) (s : Scratch) (v : IsValid s) (fits : args < 2 ^ 32) (x : Extent)
    (h : Extended bytes args s x) where
  -- The packet of the adopting frame, and the zeros after it.
  module _ (count : ℕ) (e : s.pending ≡ some count) where
    pub packet-Moved :
        Moved count 0 x.base s.transfer (relocate count 0 x.base s.transfer)
        × Words (relocate count 0 x.base s.transfer)
        × (length (relocate count 0 x.base s.transfer) ≡ length s.transfer)
    packet-Moved = relocate-Moved count 0 x.base s.transfer v.transfer (omega (arith, fitting))
      where
        fitting : count ≤ 2 * length s.transfer
        fitting = subst (λ p. Packed p s.transfer) e v.packed

    abbrev pub carried_packet : List ℕ
    carried_packet = relocate count 0 x.base s.transfer

    abbrev pub spare : List ℕ
    spare = drop (x.base + length carried_packet) (s.words ++ replicate (x.end_word - x.base) 0)

    pub carried_len : x.prefix ≡ length s.transfer
    carried_len = h.carried ∙ ap (λ p. if is_pending p then length s.transfer else 0) e

    pub adopted_words :
        (entered x args s).words
        ≡ set (s.words ++ (carried_packet ++ spare)) (x.locals - 1) (word_address x.base)
    unfolding entered
    adopted_words =
        rw (e, entered)
          (ap
            (λ (xs : List ℕ).
              set (xs ++ (carried_packet ++ spare)) (x.locals - 1) (word_address x.base))
            (take-append s.words (replicate (x.end_word - x.base) 0) x.base h.at_end))

    adopted-Framed : Framed x s (entered x args s).words
    adopted-Framed =
        let zeros : List ℕ = replicate (x.end_word - x.base) 0 in
        let (moves, words, len) = packet-Moved in
        record {
          body = carried_packet ++ spare;
          arguments = word_address x.base;
          shape = adopted_words;
          body_len = omega (
            arith,
            length-append carried_packet spare,
            length-drop (x.base + length carried_packet) (s.words ++ zeros),
            length-append s.words zeros,
            length-replicate {A = ℕ} (x.end_word - x.base) 0,
            len,
            carried_len,
            h.at_end,
            h.prefixed,
            h.sized,
          );
          body_words = append-Words carried_packet spare words (
              drop-Words (x.base + length carried_packet) (s.words ++ zeros)
                (append-Words s.words zeros v.words (zeros-Words (x.end_word - x.base))));
          small = omega arith;
        }

  pub entered-Framed : Framed x s (entered x args s).words
  unfolding entered
  entered-Framed = go s.pending refl
    where
      go : (pending : Option ℕ) → s.pending ≡ pending → Framed x s (entered x args s).words
      go (some count) e = adopted-Framed count e
      go none e = record {
        body = replicate (x.end_word - x.base) 0;
        arguments = args;
        shape = rw (e, entered) refl;
        body_len = length-replicate (x.end_word - x.base) 0;
        body_words = zeros-Words (x.end_word - x.base);
        small = omega (arith, fits);
      }

  entered_frames : (entered x args s).frames ≡ x.base ∷ s.frames
  unfolding entered
  entered_frames = go s.pending refl
    where
      go :
          (pending : Option ℕ) → s.pending ≡ pending → (entered x args s).frames ≡ x.base ∷ s.frames
      go none e = rw (e, entered) refl
      go (some count) e = rw (e, entered) refl

  -- No packet waits in an entered frame.
  entered-Packed :
      Words (entered x args s).transfer
      × ((entered x args s).transfer ≡ [])
      × ((entered x args s).pending ≡ none)
  unfolding entered
  entered-Packed = go s.pending refl
    where
      go :
          (pending : Option ℕ)
          → s.pending ≡ pending
          → Words (entered x args s).transfer
            × ((entered x args s).transfer ≡ [])
            × ((entered x args s).pending ≡ none)
      go none e = rw (e, entered) (v.transfer, subst (λ p. Packed p s.transfer) e v.packed, e)
      go (some count) e = rw (e, entered) (tt, refl, refl)

  pub entered_len : length (entered x args s).words ≡ x.end_word
  entered_len =
      let f = entered-Framed in
      omega (
        arith,
        ap length f.shape,
        length-set (s.words ++ f.body) (x.locals - 1) f.arguments,
        length-append s.words f.body,
        f.body_len,
        h.at_end,
        h.prefixed,
        h.sized,
      )

  pub entered-IsValid : IsValid (entered x args s)
  entered-IsValid =
      let f = entered-Framed in
      let (words, empty, idle) = entered-Packed in
      record {
        bounded = omega (arith, entered_len, h.bounded);
        words = rw f.shape (
            set-Words (s.words ++ f.body) (x.locals - 1) f.arguments
              (append-Words s.words f.body v.words f.body_words) f.small);
        transfer = words;
        nested =
            rw (entered_frames, entered_len)
              (
                omega (arith, h.prefixed, h.sized),
                subst (λ n. Nested n s.frames) (sym h.at_end) v.nested,
              );
        packed = rw idle empty;
      }

  -- Leaving the frame gives the words and frames back.
  pub leave-entered :
      leave (entered x args s)
      ≡ (ok tt, record { words = s.words; frames = s.frames; transfer = []; pending = none })
  unfolding leave
  leave-entered =
      let f = entered-Framed in
      let (words, empty, idle) = entered-Packed in
      let below : take x.base (entered x args s).words ≡ s.words =
        ap (λ (xs : List ℕ). take x.base xs) f.shape
        ∙ (take-set x.base (s.words ++ f.body) (x.locals - 1) f.arguments
              (omega (arith, h.prefixed))
            ∙ take-append s.words f.body x.base h.at_end) in
      popped (entered x args s) x.base s.frames entered_frames ∙ (λ i. (
        ok tt,
        record { words = below i; frames = s.frames; transfer = empty i; pending = idle i },
      ))
