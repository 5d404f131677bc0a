-- ===== src/Sha256/Conforms.antt =====
-- The code's constants and its compression of a block are those of the standard.
use telora.Common.{
  ℕ, zero, suc, ◌+◌, ◌-◌, ◌/◌, ◌%◌, ◌^◌, ◌≤◌, ◌<◌, ◌≡◌, refl, sym, ap, ◌∙◌, List, [], ◌∷◌, ◌++◌,
  append-nil, arith, length, get_or, set, take, drop, replicate, length-append,
}
use telora.Common.Bytes.{from_be_bytes}
use telora.Sha256.{
  State, initial, rounds, block_words, extend, round, run_rounds, add_state, compress,
  compress_blocks, state_bytes,
}
use telora.Sha256.Padding.{padded, digest}
use telora.Sha256.Standard.{
  round_constants, initial_hash, message_words, next_word, schedule, big_sigma0, big_sigma1,
  small_sigma0, small_sigma1, choose, majority, standard_round, standard_rounds, sum, block_hash,
  blocks_hash, hash_bytes, standard_digest,
}

rounds-roots : rounds ≡ round_constants
rounds-roots = refl

initial-roots : initial ≡ initial_hash
initial-roots = refl

block_words-message : (n : ℕ) (block : List ℕ) → block_words n block ≡ message_words n block
unfolding block_words message_words
block_words-message zero block = refl
block_words-message (suc n) block =
    ap (λ (ws : List ℕ). from_be_bytes (take 4 block) ∷ ws) (block_words-message n (drop 4 block))

-- Wrapping after each addition or at the end.
wrapped_sum4 :
    (a b c d : ℕ) → (((a + b) % 2 ^ 32 + c) % 2 ^ 32 + d) % 2 ^ 32 ≡ (d + c + b + a) % 2 ^ 32
wrapped_sum4 a b c d = omega arith

wrapped_sum5 :
    (a b c d e : ℕ)
    → ((((a + b) % 2 ^ 32 + c) % 2 ^ 32 + d) % 2 ^ 32 + e) % 2 ^ 32 ≡ (a + b + c + d + e) % 2 ^ 32
wrapped_sum5 a b c d e = omega arith

round-standard :
    (constant word : ℕ) (s : State) → round constant word s ≡ standard_round constant word s
unfolding round
round-standard constant word s =
    let t1 = wrapped_sum5 s.h (big_sigma1 s.e) (choose s.e s.f s.g) constant word in
    let t2 : ℕ = (big_sigma0 s.a + majority s.a s.b s.c) % 2 ^ 32 in
    λ i. record {
      a = (t1 i + t2) % 2 ^ 32;
      b = s.a;
      c = s.b;
      d = s.c;
      e = (s.d + t1 i) % 2 ^ 32;
      f = s.e;
      g = s.f;
      h = s.g;
    }

run_rounds-standard : (ks ws : List ℕ) (s : State) → run_rounds ks ws s ≡ standard_rounds ks ws s
unfolding run_rounds standard_rounds
run_rounds-standard [] ws s = refl
run_rounds-standard (k ∷ ks) [] s = refl
run_rounds-standard (k ∷ ks) (w ∷ ws) s =
    run_rounds-standard ks ws (round k w s) ∙ ap (standard_rounds ks ws) (round-standard k w s)

get_or-left : (xs ys : List ℕ) (i : ℕ) → i < length xs → get_or (xs ++ ys) i 0 ≡ get_or xs i 0
get_or-left [] ys i lt = absurd (omega (arith, lt))
get_or-left (x ∷ xs) ys zero lt = refl
get_or-left (x ∷ xs) ys (suc i) lt = get_or-left xs ys i (omega (arith, lt))

set-next :
    (xs zs : List ℕ) (z v i : ℕ) → i ≡ length xs → set (xs ++ z ∷ zs) i v ≡ (xs ++ v ∷ []) ++ zs
set-next [] zs z v zero e = refl
set-next [] zs z v (suc i) e = absurd (omega (arith, e))
set-next (x ∷ xs) zs z v zero e = absurd (omega (arith, e))
set-next (x ∷ xs) zs z v (suc i) e = ap (◌∷◌ x) (set-next xs zs z v i (omega (arith, e)))

-- The code fills the places of the schedule that the standard appends.
extend-schedule :
    (n index : ℕ) (ws : List ℕ)
    → index ≡ length ws
    → 16 ≤ index
    → extend n index (ws ++ replicate n 0) ≡ schedule n ws
unfolding extend schedule
extend-schedule zero index ws e le = append-nil ws
extend-schedule (suc n) index ws e le =
    let zeros : List ℕ = replicate (suc n) 0 in
    let read : (k : ℕ)
        → 0 < k
        → k ≤ 16
        → get_or (ws ++ zeros) (index - k) 0 ≡ get_or ws (length ws - k) 0 =
      λ k low high.
        get_or-left ws zeros (index - k) (omega (arith, low, high, e, le))
        ∙ ap (λ (n : ℕ). get_or ws (n - k) 0) e in
    let word = next_word ws in
    let filled : (r2 r7 r15 r16 : ℕ)
        → r2 ≡ get_or ws (length ws - 2) 0
        → r7 ≡ get_or ws (length ws - 7) 0
        → r15 ≡ get_or ws (length ws - 15) 0
        → r16 ≡ get_or ws (length ws - 16) 0
        → (((r16 + small_sigma0 r15) % 2 ^ 32 + r7) % 2 ^ 32 + small_sigma1 r2) % 2 ^ 32 ≡ word =
      λ r2 r7 r15 r16 p q r t.
        (λ i. (((t i + small_sigma0 (r i)) % 2 ^ 32 + q i) % 2 ^ 32 + small_sigma1 (p i)) % 2 ^ 32)
        ∙ wrapped_sum4 (get_or ws (length ws - 16) 0) (small_sigma0 (get_or ws (length ws - 15) 0))
            (get_or ws (length ws - 7) 0) (small_sigma1 (get_or ws (length ws - 2) 0)) in
    ap (λ (w : ℕ). extend n (index + 1) (set (ws ++ zeros) index w))
      (filled _ _ _ _ (read 2 (omega arith) (omega arith)) (read 7 (omega arith) (omega arith))
        (read 15 (omega arith) (omega arith)) (read 16 (omega arith) (omega arith)))
    ∙ (ap (λ (xs : List ℕ). extend n (index + 1) xs) (set-next ws (replicate n 0) 0 word index e)
        ∙ extend-schedule n (index + 1) (ws ++ word ∷ [])
            (omega (arith, e, length-append ws (word ∷ []))) (omega (arith, le)))

length-message_words : (n : ℕ) (block : List ℕ) → length (message_words n block) ≡ n
unfolding message_words
length-message_words zero block = refl
length-message_words (suc n) block = ap suc (length-message_words n (drop 4 block))

compress-block : (s : State) (block : List ℕ) → compress s block ≡ block_hash s block
unfolding compress add_state block_hash
compress-block s block =
    let words : extend 48 16 (block_words 16 block ++ replicate 48 0)
        ≡ schedule 48 (message_words 16 block) =
      ap (λ (ws : List ℕ). extend 48 16 (ws ++ replicate 48 0)) (block_words-message 16 block)
      ∙ extend-schedule 48 16 (message_words 16 block) (sym (length-message_words 16 block))
          (omega arith) in
    ap (λ (ws : List ℕ). sum s (run_rounds rounds ws s)) words
    ∙ (ap (sum s) (run_rounds-standard rounds (schedule 48 (message_words 16 block)) s)
        ∙ ap (λ (ks : List ℕ). sum s (standard_rounds ks (schedule 48 (message_words 16 block)) s))
            rounds-roots)

compress_blocks-hash :
    (n : ℕ) (s : State) (message : List ℕ) → compress_blocks n s message ≡ blocks_hash n s message
unfolding compress_blocks blocks_hash
compress_blocks-hash zero s message = refl
compress_blocks-hash (suc n) s message =
    compress_blocks-hash n (compress s (take 64 message)) (drop 64 message)
    ∙ ap (λ (t : State). blocks_hash n t (drop 64 message)) (compress-block s (take 64 message))

-- The digest of whole blocks by the code's own compression is the standard's.
pub digest-standard : (m : List ℕ) → digest m ≡ standard_digest m
unfolding digest state_bytes standard_digest
digest-standard m =
    let n : ℕ = length (padded m) / 64 in
    ap hash_bytes (
      compress_blocks-hash n initial (padded m)
      ∙ ap (λ (s : State). blocks_hash n s (padded m)) initial-roots)
