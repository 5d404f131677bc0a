-- ===== src/Sha256/Standard.antt =====
-- SHA-256 as FIPS 180-4 defines it, apart from the code: the constants as the fractions of roots of
-- primes, the functions of sections 4.1.2 and 6.2.2, and the padding of section 5.1.1 (Sha256/Padding).
use telora.Common.{
  ℕ, zero, suc, ◌+◌, ◌-◌, ◌*◌, ◌/◌, ◌%◌, ◌^◌, bit_and, bit_or, bit_xor, List, [], ◌∷◌, ◌++◌, map,
  leb, if◌then◌else◌, length, get_or, take, drop, u32_max,
}
use telora.Common.Bytes.{from_be_bytes, to_be_bytes}
use telora.Sha256.{State}
use telora.Sha256.Padding.{padded}

-- The first 64 primes.
abbrev pub primes : List ℕ
primes =
    2 ∷ 3 ∷ 5 ∷ 7 ∷ 11 ∷ 13 ∷ 17 ∷ 19 ∷ 23 ∷ 29 ∷ 31 ∷ 37 ∷ 41 ∷ 43 ∷ 47 ∷ 53 ∷ 59 ∷ 61 ∷ 67 ∷ 71
    ∷ 73 ∷ 79 ∷ 83 ∷ 89 ∷ 97 ∷ 101 ∷ 103 ∷ 107 ∷ 109 ∷ 113 ∷ 127 ∷ 131 ∷ 137 ∷ 139 ∷ 149 ∷ 151 ∷ 157
    ∷ 163 ∷ 167 ∷ 173 ∷ 179 ∷ 181 ∷ 191 ∷ 193 ∷ 197 ∷ 199 ∷ 211 ∷ 223 ∷ 227 ∷ 229 ∷ 233 ∷ 239 ∷ 241
    ∷ 251 ∷ 257 ∷ 263 ∷ 269 ∷ 271 ∷ 277 ∷ 281 ∷ 283 ∷ 293 ∷ 307 ∷ 311 ∷ []

-- The largest number of so many bits, above `r`, whose power is at most `n`.
abbrev pub root : (bits power n r : ℕ) → ℕ
root zero power n r = r
root (suc bits) power n r =
    let above = root bits power n (r + 2 ^ bits) in
    let below = root bits power n r in if leb ((r + 2 ^ bits) ^ power) n then above else below

-- The first 32 bits of the fractional part of a root.
abbrev pub fraction : (power p : ℕ) → ℕ
fraction power p = root 40 power (p * 2 ^ (32 * power)) 0 % 2 ^ 32

abbrev pub round_constants : List ℕ
round_constants = map (fraction 3) primes

abbrev pub initial_hash : State
initial_hash = record {
  a = fraction 2 2;
  b = fraction 2 3;
  c = fraction 2 5;
  d = fraction 2 7;
  e = fraction 2 11;
  f = fraction 2 13;
  g = fraction 2 17;
  h = fraction 2 19;
}

abbrev pub rotr : ℕ → ℕ → ℕ
rotr n x = bit_or (x / 2 ^ n) (x * 2 ^ (32 - n) % 2 ^ 32)

abbrev pub shr : ℕ → ℕ → ℕ
shr n x = x / 2 ^ n

abbrev pub choose : ℕ → ℕ → ℕ → ℕ
choose x y z = bit_xor (bit_and x y) (bit_and (bit_xor x u32_max) z)

abbrev pub majority : ℕ → ℕ → ℕ → ℕ
majority x y z = bit_xor (bit_xor (bit_and x y) (bit_and x z)) (bit_and y z)

abbrev pub big_sigma0 : ℕ → ℕ
big_sigma0 x = bit_xor (bit_xor (rotr 2 x) (rotr 13 x)) (rotr 22 x)

abbrev pub big_sigma1 : ℕ → ℕ
big_sigma1 x = bit_xor (bit_xor (rotr 6 x) (rotr 11 x)) (rotr 25 x)

abbrev pub small_sigma0 : ℕ → ℕ
small_sigma0 x = bit_xor (bit_xor (rotr 7 x) (rotr 18 x)) (shr 3 x)

abbrev pub small_sigma1 : ℕ → ℕ
small_sigma1 x = bit_xor (bit_xor (rotr 17 x) (rotr 19 x)) (shr 10 x)

-- The first words of the schedule are those of the block, the highest byte first.
unfoldable pub message_words : ℕ → List ℕ → List ℕ
message_words zero block = []
message_words (suc n) block = from_be_bytes (take 4 block) ∷ message_words n (drop 4 block)

abbrev pub next_word : List ℕ → ℕ
next_word ws =
    (small_sigma1 (get_or ws (length ws - 2) 0)
      + get_or ws (length ws - 7) 0
      + small_sigma0 (get_or ws (length ws - 15) 0)
      + get_or ws (length ws - 16) 0)
    % 2 ^ 32

-- So many more words of the schedule.
unfoldable pub schedule : ℕ → List ℕ → List ℕ
schedule zero ws = ws
schedule (suc n) ws = schedule n (ws ++ next_word ws ∷ [])

abbrev pub standard_round : (constant word : ℕ) → State → State
standard_round constant word s =
    let t1 = (s.h + big_sigma1 s.e + choose s.e s.f s.g + constant + word) % 2 ^ 32 in
    let t2 = (big_sigma0 s.a + majority s.a s.b s.c) % 2 ^ 32 in
    record {
      a = (t1 + t2) % 2 ^ 32;
      b = s.a;
      c = s.b;
      d = s.c;
      e = (s.d + t1) % 2 ^ 32;
      f = s.e;
      g = s.f;
      h = s.g;
    }

unfoldable pub standard_rounds : List ℕ → List ℕ → State → State
standard_rounds (k ∷ ks) (w ∷ ws) s = standard_rounds ks ws (standard_round k w s)
standard_rounds ks ws s = s

abbrev pub sum : State → State → State
sum s t = record {
  a = (s.a + t.a) % 2 ^ 32;
  b = (s.b + t.b) % 2 ^ 32;
  c = (s.c + t.c) % 2 ^ 32;
  d = (s.d + t.d) % 2 ^ 32;
  e = (s.e + t.e) % 2 ^ 32;
  f = (s.f + t.f) % 2 ^ 32;
  g = (s.g + t.g) % 2 ^ 32;
  h = (s.h + t.h) % 2 ^ 32;
}

-- The hash value after a block.
unfoldable pub block_hash : State → List ℕ → State
block_hash s block =
    sum s (standard_rounds round_constants (schedule 48 (message_words 16 block)) s)

-- The hash value after so many blocks.
unfoldable pub blocks_hash : ℕ → State → List ℕ → State
blocks_hash zero s message = s
blocks_hash (suc n) s message = blocks_hash n (block_hash s (take 64 message)) (drop 64 message)

abbrev pub hash_bytes : State → List ℕ
hash_bytes s =
    to_be_bytes 4 s.a
    ++ (to_be_bytes 4 s.b
        ++ (to_be_bytes 4 s.c
            ++ (to_be_bytes 4 s.d
                ++ (to_be_bytes 4 s.e
                    ++ (to_be_bytes 4 s.f ++ (to_be_bytes 4 s.g ++ to_be_bytes 4 s.h))))))

unfoldable pub standard_digest : List ℕ → List ℕ
standard_digest m = hash_bytes (blocks_hash (length (padded m) / 64) initial_hash (padded m))
