-- ===== src/Sha256/Padding.antt =====
-- The digest of a whole message by its padding, and lemmas on whole blocks.
use telora.Common.{
  ℕ, zero, suc, ◌+◌, ◌-◌, ◌*◌, ◌/◌, ◌%◌, ◌^◌, ◌≤◌, ◌≡◌, refl, sym, ap, ◌∙◌, List, [], ◌∷◌, ◌++◌,
  arith, length, take, drop, replicate, length-append, length-take, length-drop, length-replicate,
  take-append-drop, take-append_short,
}
use telora.Common.Bytes.{to_be_bytes, length-to_be_bytes}
use telora.Sha256.{State, initial, compress, compress_blocks, state_bytes}

-- The message, the bit 1, zeros up to 8 bytes before the end of a block, and the length in bits.
unfoldable pub padded : List ℕ → List ℕ
padded m =
    m
    ++ (0x80 ∷ (replicate ((119 - length m % 64) % 64) 0 ++ to_be_bytes 8 (length m * 8 % 2 ^ 64)))

-- The code's compression of all blocks of the padded message.
unfoldable pub digest : List ℕ → List ℕ
unfolding padded
digest m = state_bytes (compress_blocks (length (padded m) / 64) initial (padded m))

-- The padding fills whole blocks.
pub padded_whole : (m : List ℕ) → length (padded m) % 64 ≡ 0
unfolding padded
padded_whole m =
    let pad = (119 - length m % 64) % 64 in
    let zeros = replicate {A = ℕ} pad 0 in
    omega (
      arith,
      length-append m (0x80 ∷ (zeros ++ to_be_bytes 8 (length m * 8 % 2 ^ 64))),
      length-append zeros (to_be_bytes 8 (length m * 8 % 2 ^ 64)),
      length-replicate {A = ℕ} pad 0,
      length-to_be_bytes 8 (length m * 8 % 2 ^ 64),
    )

drop-append_long : (k : ℕ) (xs ys : List ℕ) → k ≤ length xs → drop k (xs ++ ys) ≡ drop k xs ++ ys
drop-append_long zero xs ys h = refl
drop-append_long (suc k) [] ys h = absurd (omega arith)
drop-append_long (suc k) (x ∷ xs) ys h = drop-append_long k xs ys (omega arith)

-- Whole blocks first, then the rest.
pub compress_blocks-append :
    (n a b : ℕ) (s : State) (xs ys : List ℕ)
    → n ≡ a + b
    → length xs ≡ 64 * a
    → compress_blocks n s (xs ++ ys) ≡ compress_blocks b (compress_blocks a s xs) ys
unfolding compress_blocks
compress_blocks-append n zero b s [] ys e h =
    let same : n ≡ b = omega arith in ap (λ (k : ℕ). compress_blocks k s ys) same
compress_blocks-append n zero b s (x ∷ xs) ys e h = absurd (omega arith)
compress_blocks-append zero (suc a) b s xs ys e h = absurd (omega arith)
compress_blocks-append (suc n) (suc a) b s xs ys e h =
    rw (take-append_short 64 xs ys (omega arith), drop-append_long 64 xs ys (omega arith))
      (compress_blocks-append n a b (compress s (take 64 xs)) (drop 64 xs) ys (omega arith)
        (omega (arith, length-drop 64 xs)))

-- What follows the whole blocks does not count.
pub compress_blocks-take :
    (n : ℕ) (s : State) (xs : List ℕ)
    → 64 * n ≤ length xs
    → compress_blocks n s xs ≡ compress_blocks n s (take (64 * n) xs)
compress_blocks-take n s xs h =
    ap (compress_blocks n s) (sym (take-append-drop (64 * n) xs))
    ∙ compress_blocks-append n n 0 s (take (64 * n) xs) (drop (64 * n) xs) (omega arith)
        (omega (arith, length-take (64 * n) xs))
    ∙ unfold compress_blocks in refl
