-- ===== src/LineIndex/Locations.antt =====
-- Packed locations of a text, and the bytes they come from.
use telora.Common.{ℕ, ◌*◌, ◌/◌, ◌%◌, ◌^◌, ◌≤◌, ◌<◌, bit_or, ◌≡◌, refl, ◌≢◌, arith, ok}
use telora.Common.Bits.{bit_or-disjoint}
use telora.LineIndex.{LineIndex, SourceCoordinates, u32, coordinates, start_point, end_point}

-- A word from its two halves.
halves : (p : ℕ) → p < 2 ^ 64 → bit_or (p / 2 ^ 32 % 2 ^ 32 * 2 ^ 32) (p % 2 ^ 32) ≡ p
halves p h = omega (arith, bit_or-disjoint 32 (p / 2 ^ 32 % 2 ^ 32) (p % 2 ^ 32) (omega arith))

-- `SourceCoordinates::new` keeps the source and both points.
pub coordinates-points :
    (source p q : ℕ)
    → source ≢ 0
    → p ≤ q
    → q < 2 ^ 64
    → (c : SourceCoordinates) × (coordinates source p q ≡ ok c)
      × (c.word0 ≡ source)
      × (start_point c ≡ p)
      × (end_point c ≡ q)
unfolding coordinates start_point end_point
coordinates-points source p q s le fits = (
  record {
    word0 = source;
    word1 = u32 (p / 2 ^ 32);
    word2 = u32 p;
    word3 = u32 (q / 2 ^ 32);
    word4 = u32 q;
  },
  ground arith,
  refl,
  halves p (omega arith),
  halves q fits,
)
