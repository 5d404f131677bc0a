-- ===== src/Content/RoundTrip.antt =====
-- Encoding and decoding the views of content.rs.
use mathlib.Core.Path.{subst}
use telora.Common.{
  ℕ, ◌+◌, ◌-◌, ◌^◌, ◌≤◌, ◌<◌, ◌≡◌, refl, sym, ◌≢◌, true, false, List, [], ◌∷◌, ◌++◌, arith, leb,
  length, get_or, take, replicate, length-append, length-take, length-replicate, take-append, ok,
}
use telora.Common.Bytes.{to_le_bytes, from_le_bytes, from_le_bytes-to_le_bytes}
use telora.Content.{Slice, inline, slice, is_bad, encode, word, decode_slice, decode}

-- A slice of u32 words that `encode` accepts.
pub record IsGood (s : Slice) : Type 0 where
  pub stored : s.raw ≢ 0
  pub long : s.start + 16 ≤ s.end
  pub raw_fits : s.raw < 2 ^ 32
  pub end_fits : s.end < 2 ^ 32

good_not_bad : (s : Slice) → IsGood s → is_bad s ≡ false
unfolding is_bad
good_not_bad s g = ground arith

-- Three words and the tag, as bytes at variable positions.
words : (a b c : List ℕ) → List ℕ
words a b c = a ++ (b ++ (c ++ (0 ∷ 0 ∷ 0 ∷ 16 ∷ [])))

words-words :
    (a b c : List ℕ)
    → length a ≡ 4
    → length b ≡ 4
    → length c ≡ 4
    → (word 0 (words a b c) ≡ from_le_bytes a)
      × (word 4 (words a b c) ≡ from_le_bytes b)
      × (word 8 (words a b c) ≡ from_le_bytes c)
unfolding words word
words-words (a0 ∷ a1 ∷ a2 ∷ a3 ∷ []) (b0 ∷ b1 ∷ b2 ∷ b3 ∷ []) (c0 ∷ c1 ∷ c2 ∷ c3 ∷ []) e f g =
    (refl, refl, refl)
words-words _ _ _ e f g = absurd (omega arith)

decode-slice :
    (s : Slice) (a b c : List ℕ)
    → IsGood s
    → length a ≡ 4
    → length b ≡ 4
    → length c ≡ 4
    → from_le_bytes a ≡ s.raw
    → from_le_bytes b ≡ s.start
    → from_le_bytes c ≡ s.end
    → decode (words a b c) ≡ ok (slice s)
unfolding decode words decode_slice is_bad word
decode-slice s (a0 ∷ a1 ∷ a2 ∷ a3 ∷ []) (b0 ∷ b1 ∷ b2 ∷ b3 ∷ []) (c0 ∷ c1 ∷ c2 ∷ c3 ∷ []) g e f h x
      y z =
    let good = good_not_bad s g in rw (x, y, z, good)
decode-slice s _ _ _ g e f h x y z = absurd (omega arith)

-- A slice of storage, at least 16 bytes long and within u32, is encoded in 16
-- bytes, and the bytes decode to it.
pub decode-encode_slice :
    (s : Slice)
    → IsGood s
    → (bytes : List ℕ) × (encode (slice s) ≡ ok bytes)
      × (length bytes ≡ 16)
      × (decode bytes ≡ ok (slice s))
unfolding encode words
decode-encode_slice s g =
    let a = to_le_bytes 4 s.raw in
    let b = to_le_bytes 4 s.start in
    let c = to_le_bytes 4 s.end in
    let start_fits : s.start < 2 ^ 32 = omega (arith, g.long, g.end_fits) in
    (
      words a b c,
      rw (good_not_bad s g) refl,
      refl,
      decode-slice s a b c g refl refl refl (from_le_bytes-to_le_bytes 4 s.raw g.raw_fits)
          (from_le_bytes-to_le_bytes 4 s.start start_fits)
          (from_le_bytes-to_le_bytes 4 s.end g.end_fits),
    )

get_or-append_last : (xs : List ℕ) (x : ℕ) → get_or (xs ++ x ∷ []) (length xs) 0 ≡ x
get_or-append_last [] x = refl
get_or-append_last (y ∷ xs) x = get_or-append_last xs x

decode-inline :
    (xs : List ℕ) (len : ℕ)
    → length xs ≡ 15
    → len ≤ 15
    → decode (xs ++ len ∷ []) ≡ ok (inline xs len)
unfolding decode
decode-inline xs len e h =
    let tag : get_or (xs ++ len ∷ []) 15 0 ≡ len =
      subst (λ n. get_or (xs ++ len ∷ []) n 0 ≡ len) e (get_or-append_last xs len) in
    let kept : take 15 (xs ++ len ∷ []) ≡ xs = take-append xs (len ∷ []) 15 (sym e) in
    let small : leb len 15 ≡ true = ground arith in rw (tag, kept, small)

-- An inline view of at most 15 bytes is encoded in 16, and the bytes decode to the same view with
-- zeros after its content.
pub decode-encode_inline :
    (data15 : List ℕ) (len : ℕ)
    → length data15 ≡ 15
    → len ≤ 15
    → (bytes : List ℕ) × (encode (inline data15 len) ≡ ok bytes)
      × (length bytes ≡ 16)
      × (decode bytes ≡ ok (inline (take len data15 ++ replicate (15 - len) 0) len))
unfolding encode
decode-encode_inline data15 len e h =
    let zero_byte : ℕ = 0 in
    let content = take len data15 ++ replicate (15 - len) 0 in
    let full : length content ≡ 15 =
      rw
        (
          length-append (take len data15) (replicate (15 - len) 0),
          length-take len data15,
          length-replicate (15 - len) zero_byte,
        )
        (omega arith) in
    let small : leb 16 len ≡ false = ground arith in
    (
      content ++ len ∷ [],
      rw small refl,
      rw (length-append content (len ∷ [])) (omega arith),
      decode-inline content len full h,
    )
