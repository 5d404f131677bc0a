-- ===== src/SourceRange/Examples.antt =====
-- Runs of source_range.rs at concrete ranges.
use telora.Common.{
  ℕ, ◌+◌, ◌*◌, ◌^◌, ◌≤◌, ◌<◌, ◌≡◌, refl, none, some, List, [], ◌∷◌, ◌++◌, arith, leb, if◌then◌else◌,
  take, All,
}
use telora.Common.Bytes.{IsByte, to_le_bytes}
use telora.SourceRange.{SourceRange, checked, packed, encode, unpack, decode}
use telora.SourceRange.Packing.{
  Fits, checked_iff, unpack-packed, packed-unpack, decode-encode, encode-decode,
}

abbrev range : SourceRange
range = record { source = 5; start = 100; end = 1000 }

range-Fits : Fits range
range-Fits = record { source_fits = omega arith; ordered = omega arith; end_fits = omega arith }

checked_iff_example :
    ((checked 5 100 1000 2000 ≡ some range) → Fits range × (1000 ≤ 2000))
    × (Fits range → 1000 ≤ 2000 → checked 5 100 1000 2000 ≡ some range)
checked_iff_example = checked_iff range 2000

unpack-packed_example : unpack (packed range) ≡ some range
unpack-packed_example = unpack-packed range range-Fits

abbrev word : ℕ
word = 5 * 2 ^ 50 + 100 * 2 ^ 25 + 1000

unpacked : unpack word ≡ some range
unfolding unpack
unpacked = refl

packed-unpack_example : Fits range × (packed range ≡ word)
packed-unpack_example = packed-unpack word range (omega arith) unpacked

decode-encode_example :
    decode (encode range ++ 7 ∷ []) 900 ≡ (if leb 1000 900 then some range else none)
decode-encode_example = decode-encode range (7 ∷ []) 900 range-Fits

abbrev stored : List ℕ
stored = to_le_bytes 8 word ++ 9 ∷ 9 ∷ []

read_back : decode stored 1000 ≡ some range
unfolding decode unpack checked
read_back = refl

stored-IsByte : All IsByte (take 8 stored)
stored-IsByte =
    let b : (n : ℕ) → n < 256 → IsByte n = λ n h. h in
    (
      b 232 (omega arith),
      (
        b 3 (omega arith),
        (
          b 0 (omega arith),
          (
            b 200 (omega arith),
            (b 0 (omega arith), (b 0 (omega arith), (b 20 (omega arith), (b 0 (omega arith), tt)))),
          ),
        ),
      ),
    )

encode-decode_example : Fits range × (1000 ≤ 1000) × (encode range ≡ take 8 stored)
encode-decode_example = encode-decode stored 1000 range stored-IsByte read_back
