-- ===== src/SourceRange/Packing.antt =====
-- The packed form of source_range.rs and its inverse.
use mathlib.Core.Path.{subst}
use native.Mathlib.Nat.{pow-suc}
use telora.Common.{
  if◌then◌else◌, leb, length-append, [], ◌∷◌, ℕ, ◌+◌, ◌*◌, ◌/◌, ◌%◌, ◌^◌, ◌≤◌, ◌<◌, ◌≡◌, sym, ap,
  ◌∙◌, none, some, List, ◌++◌, length, take, take-append, length-take, arith, All,
}
use telora.Common.Bits.{bit_or-disjoint, bit_and-mask25}
use telora.Common.Bytes.{
  IsByte, to_le_bytes, from_le_bytes, length-to_le_bytes, from_le_bytes-to_le_bytes,
  to_le_bytes-from_le_bytes,
}
use telora.SourceRange.{
  SourceRange, source_limit, offset_limit, checked, packed, encode, unpack, decode,
}

-- What `checked` promises of a range.
pub record Fits (r : SourceRange) : Type 0 where
  pub source_fits : r.source < source_limit
  pub ordered : r.start ≤ r.end
  pub end_fits : r.end < offset_limit

-- `checked` accepts exactly the ranges that fit the fields, are not reversed and end within the
-- source.
pub checked_iff :
    (r : SourceRange) (len : ℕ)
    → ((checked r.source r.start r.end len ≡ some r) → Fits r × (r.end ≤ len))
      × (Fits r → r.end ≤ len → checked r.source r.start r.end len ≡ some r)
unfolding checked
checked_iff r len = (λ h. ground arith, λ f h. ground arith)

checked_within :
    (r : SourceRange) (len : ℕ)
    → Fits r
    → checked r.source r.start r.end len ≡ (if leb r.end len then some r else none)
unfolding checked
checked_within r len f = ground arith

-- The two shifts and the two `|` of `packed`, as sums.
packed_sum : (r : SourceRange) → Fits r → packed r ≡ r.source * 2 ^ 50 + r.start * 2 ^ 25 + r.end
unfolding packed
packed_sum r f =
    let first = bit_or-disjoint 50 r.source (r.start * 2 ^ 25) (omega arith) in
    let second = bit_or-disjoint 25 (r.source * 2 ^ 25 + r.start) r.end (omega arith) in
    let s : r.source * 2 ^ 50 % 2 ^ 64 ≡ r.source * 2 ^ 50 = omega arith in
    let t : r.start * 2 ^ 25 % 2 ^ 64 ≡ r.start * 2 ^ 25 = omega arith in
    let joined : r.source * 2 ^ 50 + r.start * 2 ^ 25 ≡ (r.source * 2 ^ 25 + r.start) * 2 ^ 25 =
      omega arith in
    rw (s, t, first, joined, second) (omega arith)

pub packed_bound : (r : SourceRange) → Fits r → packed r < 2 ^ 64
packed_bound r f = omega (arith, packed_sum r f)

-- `unpack` recovers every range that fits from its packed word.
pub unpack-packed : (r : SourceRange) → Fits r → unpack (packed r) ≡ some r
unfolding unpack
unpack-packed r f = rw (packed_sum r f, bit_and-mask25, bit_and-mask25) (ground arith)

-- A range that was unpacked from a u64 word fits, and packs back into the same word.
pub packed-unpack :
    (word : ℕ) (r : SourceRange) → word < 2 ^ 64 → unpack word ≡ some r → Fits r × (packed r ≡ word)
unfolding unpack
packed-unpack word r h e =
    let m1 = bit_and-mask25 (word / 2 ^ 25) in
    let m2 = bit_and-mask25 word in
    let f : Fits r = record {
      source_fits = ground (arith, m1, m2);
      ordered = ground (arith, m1, m2);
      end_fits = ground (arith, m1, m2);
    } in
    let s = packed_sum r f in (f, ground (arith, m1, m2, s))

decode-append :
    (bs rest : List ℕ) (len : ℕ) (r : SourceRange)
    → length bs ≡ 8
    → unpack (from_le_bytes bs) ≡ some r
    → decode (bs ++ rest) len ≡ checked r.source r.start r.end len
unfolding decode
decode-append bs rest len r n e =
    let front = take-append bs rest 8 (sym n) in
    rw (front, e) (ground (arith, length-append bs rest))

-- Decoding what `encode` wrote for a range that fits, whatever follows it, gives the range back when it lies within the
-- source, and nothing when it does not.
pub decode-encode :
    (r : SourceRange) (rest : List ℕ) (len : ℕ)
    → Fits r
    → decode (encode r ++ rest) len ≡ (if leb r.end len then some r else none)
unfolding encode
decode-encode r rest len f =
    let n = length-to_le_bytes 8 (packed r) in
    let word = from_le_bytes-to_le_bytes 8 (packed r) (packed_bound r f) in
    decode-append (to_le_bytes 8 (packed r)) rest len r n (rw word (unpack-packed r f))
    ∙ checked_within r len f

decode_word :
    (bytes : List ℕ) (len : ℕ) (r : SourceRange)
    → decode bytes len ≡ some r
    → (unpack (from_le_bytes (take 8 bytes)) ≡ some r) × (8 ≤ length bytes) × (r.end ≤ len)
unfolding decode checked
decode_word bytes len r e = ground arith

from_le_bytes-bound : (bs : List ℕ) → All IsByte bs → from_le_bytes bs < 256 ^ length bs
from_le_bytes-bound [] h = omega arith
from_le_bytes-bound (b ∷ bs) h = omega (arith, from_le_bytes-bound bs h.1, pow-suc 256 (length bs))

-- A range decoded from bytes fits, lies within the source, and encodes to the very bytes that were
-- read.
pub encode-decode :
    (bytes : List ℕ) (len : ℕ) (r : SourceRange)
    → All IsByte (take 8 bytes)
    → decode bytes len ≡ some r
    → Fits r × (r.end ≤ len) × (encode r ≡ take 8 bytes)
unfolding encode
encode-decode bytes len r h e =
    let (u, long, within) = decode_word bytes len r e in
    let n : length (take 8 bytes) ≡ 8 = omega (arith, length-take 8 bytes) in
    let small = from_le_bytes-bound (take 8 bytes) h in
    let small' : from_le_bytes (take 8 bytes) < 2 ^ 64 =
      subst (λ (k : ℕ). from_le_bytes (take 8 bytes) < 256 ^ k) n small in
    let (f, back) = packed-unpack (from_le_bytes (take 8 bytes)) r small' u in
    let same = to_le_bytes-from_le_bytes (take 8 bytes) h in
    (
      f,
      within,
      ap (to_le_bytes 8) back
          ∙ subst (λ (k : ℕ). to_le_bytes k (from_le_bytes (take 8 bytes)) ≡ take 8 bytes) n same,
    )
