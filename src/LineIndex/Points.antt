-- ===== src/LineIndex/Points.antt =====
-- Bytes to points and back, on an index that tiles its text.
use telora.Common.{
  ℕ, zero, suc, ◌+◌, ◌-◌, ◌*◌, ◌/◌, ◌%◌, ◌^◌, ◌≤◌, ◌<◌, min, bit_or, ◌≡◌, refl, sym, ap, ◌∙◌, inl,
  inr, some, List, [], ◌∷◌, arith, Option-cases, length, get_elem?, get_or, u32_max, ok,
}
use native.Mathlib.Decide.{dec_le}
use telora.Common.Bits.{bit_or-disjoint}
use telora.LineIndex.{LineIndex, new, partition_point, point, position, byte, byte_at}
use telora.LineIndex.Scan.{Tiled, new_lines}

-- The line of a byte: its number, its start and its end, where the next line begins after the byte.
pub record LineOf (starts ends : List ℕ) (b : ℕ) : Type 0 where
  pub line : ℕ
  pub start : ℕ
  pub end : ℕ
  pub start_at : get_elem? starts line ≡ some start
  pub end_at : get_elem? ends line ≡ some end
  pub is_point : partition_point b starts ≡ suc line
  pub after_start : start ≤ b
  pub ordered : start ≤ end
  pub near : b ≤ end + 1

none_start :
    (s b top : ℕ) (ss es : List ℕ) → b < s → Tiled (s ∷ ss) es top → partition_point b (s ∷ ss) ≡ 0
unfolding partition_point
none_start s b top ss es h t = ground arith

pub line_of :
    (s b top : ℕ) (ss es : List ℕ) → s ≤ b → b ≤ top → Tiled (s ∷ ss) es top → LineOf (s ∷ ss) es b
unfolding partition_point
line_of s b top ss [] h in_text t = absurd t
line_of s b top [] (e ∷ es) h in_text t = record {
  line = 0;
  start = s;
  end = e;
  start_at = refl;
  end_at = refl;
  is_point = ground arith;
  after_start = h;
  ordered = t.0;
  near = omega arith;
}
line_of s b top (u ∷ ss) (e ∷ es) h in_text t = elim (dec_le u b) [
  | yes more ↦
      let rest = line_of u b top ss es more in_text t.3 in
      record {
        line = suc rest.line;
        start = rest.start;
        end = rest.end;
        start_at = rest.start_at;
        end_at = rest.end_at;
        is_point = let tail = rest.is_point in ground (arith, tail);
        after_start = rest.after_start;
        ordered = rest.ordered;
        near = rest.near;
      }
  | no here ↦
      let tail = none_start u b top ss es (omega arith) t.3 in
      record {
        line = 0;
        start = s;
        end = e;
        start_at = refl;
        end_at = refl;
        is_point = ground (arith, tail);
        after_start = h;
        ordered = t.0;
        near = omega arith;
      }
]

-- A line of the index is the line of each byte from its start to its end.
line_unique :
    (s top b line start end : ℕ) (ss es : List ℕ)
    → Tiled (s ∷ ss) es top
    → get_elem? (s ∷ ss) line ≡ some start
    → get_elem? es line ≡ some end
    → start ≤ b
    → b ≤ end
    → (s ≤ start) × (partition_point b (s ∷ ss) ≡ suc line)
unfolding partition_point
line_unique s top b line start end ss [] t p q lo hi = absurd t
line_unique s top b zero start end [] (e ∷ es) t p q lo hi = (ground arith, ground arith)
line_unique s top b (suc line) start end [] (e ∷ es) t p q lo hi = absurd (cc p)
line_unique s top b zero start end (u ∷ ss) (e ∷ es) t p q lo hi =
    let last : b < u = ground arith in
    let tail = none_start u b top ss es last t.3 in (ground arith, ground (arith, tail))
line_unique s top b (suc line) start end (u ∷ ss) (e ∷ es) t p q lo hi =
    let (le, rest) = line_unique u top b line start end ss es t.3 p q lo hi in
    (omega arith, ground (arith, rest))

get_or-get_elem? : (xs : List ℕ) (i d : ℕ) {a : ℕ} → get_elem? xs i ≡ some a → get_or xs i d ≡ a
get_or-get_elem? [] i d e = cc
get_or-get_elem? (x ∷ xs) zero d e = ground arith
get_or-get_elem? (x ∷ xs) (suc i) d e = get_or-get_elem? xs i d e

start-le-top : (s top : ℕ) (ss es : List ℕ) → Tiled (s ∷ ss) es top → s ≤ top
start-le-top s top ss [] t = absurd t
start-le-top s top [] (e ∷ es) t = omega arith
start-le-top s top (u ∷ ss) (e ∷ es) t = omega (arith, start-le-top u top ss es t.3)

-- Ends lie within the text, and line numbers are no larger than the starts.
line_bounds :
    (s top line start end : ℕ) (ss es : List ℕ)
    → Tiled (s ∷ ss) es top
    → get_elem? (s ∷ ss) line ≡ some start
    → get_elem? es line ≡ some end
    → (end ≤ top) × (s + line ≤ start) × (start ≤ end)
line_bounds s top line start end ss [] t p q = absurd t
line_bounds s top zero start end [] (e ∷ es) t p q = (ground arith, ground arith, ground arith)
line_bounds s top (suc line) start end [] (e ∷ es) t p q = absurd (cc p)
line_bounds s top zero start end (u ∷ ss) (e ∷ es) t p q =
    let high = start-le-top u top ss es t.3 in (ground arith, ground arith, ground arith)
line_bounds s top (suc line) start end (u ∷ ss) (e ∷ es) t p q =
    let (le, rest, ordered) = line_bounds u top line start end ss es t.3 p q in
    (le, omega arith, ordered)

-- Packing a line and a column of u32 size, and taking them apart again.
packed_point :
    (line column : ℕ)
    → line < 2 ^ 32
    → column < 2 ^ 32
    → bit_or (line * 2 ^ 32 % 2 ^ 64) column ≡ line * 2 ^ 32 + column
packed_point line column l c =
    let word : line * 2 ^ 32 % 2 ^ 64 ≡ line * 2 ^ 32 = omega arith in
    rw word (bit_or-disjoint 32 line column c)

module _ (ss es : List ℕ) (s top b : ℕ) (t : Tiled (s ∷ ss) es top) (fits : top ≤ u32_max) where
  abbrev lines : LineIndex
  lines = record { starts = s ∷ ss; ends = es }

  -- The point of a byte, by its line.
  pub point-line :
      (l : LineOf (s ∷ ss) es b)
      → b ≤ top
      → (point lines b ≡ l.line * 2 ^ 32 + (min b l.end - l.start))
        × (l.line < 2 ^ 32)
        × (min b l.end - l.start < 2 ^ 32)
  unfolding point
  point-line l inside =
      let (le, low, ordered) = line_bounds s top l.line l.start l.end ss es t l.start_at l.end_at in
      let small : l.line < 2 ^ 32 = omega (arith, l.ordered) in
      let narrow : min b l.end - l.start < 2 ^ 32 = omega arith in
      let pred : partition_point b (s ∷ ss) - 1 ≡ l.line = omega (arith, l.is_point) in
      (
        rw
            (
              pred,
              get_or-get_elem? es l.line 0 l.end_at,
              get_or-get_elem? (s ∷ ss) l.line 0 l.start_at,
            )
            (packed_point l.line (min b l.end - l.start) small narrow),
        small,
        narrow,
      )

byte-inversion :
    (index : LineIndex) (p b : ℕ)
    → byte index p ≡ some b
    → (start : ℕ) × (end : ℕ) × (get_elem? index.starts (p / 2 ^ 32 % 2 ^ 32) ≡ some start)
      × (get_elem? index.ends (p / 2 ^ 32 % 2 ^ 32) ≡ some end)
      × (p % 2 ^ 32 ≤ end - start)
      × (b ≡ start + p % 2 ^ 32)
unfolding byte byte_at position
byte-inversion index p b e = elim (Option-cases (get_elem? index.starts (p / 2 ^ 32 % 2 ^ 32))) [
  | inl n ↦ absurd (ground arith)
  | inr (start, m) ↦ elim (Option-cases (get_elem? index.ends (p / 2 ^ 32 % 2 ^ 32))) [
    | inl n ↦ absurd (ground arith)
    | inr (end, n) ↦ (start, end, m, n, ground arith, ground arith)
  ]
]

point-byte-Tiled :
    (ss es : List ℕ) (top p b : ℕ)
    → Tiled (0 ∷ ss) es top
    → top ≤ u32_max
    → p < 2 ^ 64
    → byte (record { starts = 0 ∷ ss; ends = es }) p ≡ some b
    → (point (record { starts = 0 ∷ ss; ends = es }) b ≡ p) × (b ≤ top)
point-byte-Tiled ss es top p b t small h f =
    let index : LineIndex = record { starts = 0 ∷ ss; ends = es } in
    let (start, end, m, n, within, sum) = byte-inversion index p b f in
    let line : ℕ = p / 2 ^ 32 % 2 ^ 32 in
    let (le, low, ordered) = line_bounds 0 top line start end ss es t m n in
    let (_, found) = line_unique 0 top b line start end ss es t m n (omega arith) (omega arith) in
    let l : LineOf (0 ∷ ss) es b = record {
      line = line;
      start = start;
      end = end;
      start_at = m;
      end_at = n;
      is_point = found;
      after_start = omega arith;
      ordered = ordered;
      near = omega arith;
    } in
    let (here, _, _) = point-line ss es 0 top b t small l (omega arith) in
    (here ∙ omega arith, omega arith)

-- A u64 point that the index of a text maps to a byte offset is the point of that offset, which is
-- not past the end of the text.
pub point-byte :
    (text : List ℕ) (index : LineIndex) (p b : ℕ)
    → new text ≡ ok index
    → p < 2 ^ 64
    → byte index p ≡ some b
    → (point index b ≡ p) × (b ≤ length text)
point-byte text index p b e h f =
    let (ss, es, same, tiled, small) = new_lines text index e in
    let f' = sym (ap (λ (x : LineIndex). byte x p) same) ∙ f in
    rw same (point-byte-Tiled ss es (length text) p b tiled small h f')
