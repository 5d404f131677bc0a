-- ===== src/FrameScratch/Halves.antt =====
-- The halves of a word, set through a mask.
use telora.Common.{
  ℕ, zero, suc, ◌+◌, ◌-◌, ◌*◌, ◌/◌, ◌%◌, ◌^◌, ◌<◌, bit_and, bit_or, ◌≡◌, refl, ap, ◌∙◌, arith,
  u32_max, u64_max,
}
use telora.Common.Bits.{bit_or-disjoint, bit_and-high, bit_and-mask32, bit_or-swap}
use telora.FrameScratch.{half, put_half}

put_half_low :
    (word reference : ℕ)
    → word < 2 ^ 64
    → reference < 2 ^ 32
    → bit_or (bit_and word (u64_max - u32_max * 2 ^ 0)) (reference * 2 ^ 0)
      ≡ word / 2 ^ 32 * 2 ^ 32 + reference
put_half_low word reference w r =
    ap (λ (x : ℕ). bit_or x (reference * 2 ^ 0)) (bit_and-high word w)
    ∙ (ap (λ (y : ℕ). bit_or (word / 2 ^ 32 * 2 ^ 32) y) (omega arith)
        ∙ bit_or-disjoint 32 (word / 2 ^ 32) reference r)

put_half_high :
    (word reference : ℕ)
    → bit_or (bit_and word (u64_max - u32_max * 2 ^ 32)) (reference * 2 ^ 32)
      ≡ reference * 2 ^ 32 + word % 2 ^ 32
put_half_high word reference =
    ap (λ (x : ℕ). bit_or x (reference * 2 ^ 32)) (bit_and-mask32 word)
    ∙ (bit_or-swap (word % 2 ^ 32) (reference * 2 ^ 32)
        ∙ bit_or-disjoint 32 reference (word % 2 ^ 32) (omega arith))

-- A word with a half set: its halves, and that it is a word.
pub put_half_halves :
    (word i reference : ℕ)
    → word < 2 ^ 64
    → reference < 2 ^ 32
    → (put_half word i reference < 2 ^ 64)
      × (half (put_half word i reference) i ≡ reference)
      × (half (put_half word i reference) (i + 1) ≡ half word (i + 1))
put_half_halves word i reference w r =
    by_parity (i % 2) ((i + 1) % 2) refl refl (omega arith) (omega arith)
  where
    by_parity :
        (k l : ℕ)
        → i % 2 ≡ k
        → (i + 1) % 2 ≡ l
        → k < 2
        → l + k ≡ 1
        → (put_half word i reference < 2 ^ 64)
          × (half (put_half word i reference) i ≡ reference)
          × (half (put_half word i reference) (i + 1) ≡ half word (i + 1))
    by_parity zero zero e f small sum = absurd (omega (arith, sum))
    by_parity zero (suc zero) e f small sum =
        let low = put_half_low word reference w r in
        rw (e, f) (omega (arith, low), omega (arith, low), omega (arith, low))
    by_parity zero (suc (suc l)) e f small sum = absurd (omega (arith, sum))
    by_parity (suc zero) zero e f small sum =
        let high = put_half_high word reference in
        rw (e, f) (omega (arith, high), omega (arith, high), omega (arith, high))
    by_parity (suc zero) (suc l) e f small sum = absurd (omega (arith, sum))
    by_parity (suc (suc k)) l e f small sum = absurd (omega (arith, small))
