-- ===== src/Content/Examples.antt =====
-- Runs of the content views at concrete values.
use telora.Common.{ℕ, ◌-◌, ◌≡◌, List, [], ◌∷◌, ◌++◌, arith, length, take, replicate, ok}
use telora.Content.{Slice, inline, slice, encode, decode}
use telora.Content.RoundTrip.{IsGood, decode-encode_slice, decode-encode_inline}

abbrev twenty : Slice
twenty = record { start = 4; end = 24; raw = 4096 }

twenty-IsGood : IsGood twenty
twenty-IsGood = record {
  stored = omega arith;
  long = omega arith;
  raw_fits = omega arith;
  end_fits = omega arith;
}

decode-encode_slice_example :
    (bytes : List ℕ) × (encode (slice twenty) ≡ ok bytes)
    × (length bytes ≡ 16)
    × (decode bytes ≡ ok (slice twenty))
decode-encode_slice_example = decode-encode_slice twenty twenty-IsGood

abbrev buffer : List ℕ
buffer = 1 ∷ 2 ∷ 3 ∷ 4 ∷ 5 ∷ 6 ∷ 7 ∷ 8 ∷ 9 ∷ 10 ∷ 11 ∷ 12 ∷ 13 ∷ 14 ∷ 15 ∷ []

decode-encode_inline_example :
    (bytes : List ℕ) × (encode (inline buffer 3) ≡ ok bytes)
    × (length bytes ≡ 16)
    × (decode bytes ≡ ok (inline (take 3 buffer ++ replicate (15 - 3) 0) 3))
decode-encode_inline_example = decode-encode_inline buffer 3 (omega arith) (omega arith)
