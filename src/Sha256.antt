-- ===== src/Sha256.antt =====
-- crates/telora-sha256/src/lib.rs: SHA-256 over input that comes in pieces. A word is a number below
-- 2^32, and arrays are lists.
pub mod Padding
pub mod Standard
pub mod Conforms
pub mod Stream
pub mod Finish
mod Examples
use telora.Common.{
  ℕ, zero, suc, ◌+◌, ◌-◌, ◌*◌, ◌/◌, ◌%◌, ◌^◌, ◌≤◌, ◌<◌, min, max, bit_and, bit_or, bit_xor, ◌≡◌,
  refl, sym, ap, ◌∙◌, ◌≢◌, ◌↔◌, ◌⊎◌, inl, inr, Bool, true, false, not, ◌&&◌, ◌||◌, Option, none,
  some, List, [], ◌∷◌, ◌++◌, map, arith, ltb, leb, ◌==◌, if◌then◌else◌, ltb→lt, lt→ltb, leb→le,
  le→leb, not_leb→lt, ==→eq, ==-self, tests, Bool-cases, Option-cases, length, get_elem?, get_or,
  set, take, drop, splice, replicate, All, length-append, length-set, length-take, length-drop,
  length-replicate, take-append, drop-append, take-append-drop, get_elem?-set_self,
  get_elem?-set_ne, get_elem?-append_left, get_elem?-append_last, get_elem?-lt, get_elem?-ge,
  get_elem?-some, get_elem?-take, take-set, take-take, take-append_short, take-all, Result, u32_max,
  u64_max, usize_max, checked_add, checked_mul, ok_or, ok, err,
}
use telora.Common.Bytes.{from_be_bytes, to_be_bytes}

-- `[u32; 8]`.
pub record State : Type 0 where
  pub a : ℕ
  pub b : ℕ
  pub c : ℕ
  pub d : ℕ
  pub e : ℕ
  pub f : ℕ
  pub g : ℕ
  pub h : ℕ

abbrev pub initial : State
initial = record {
  a = 0x6a09e667;
  b = 0xbb67ae85;
  c = 0x3c6ef372;
  d = 0xa54ff53a;
  e = 0x510e527f;
  f = 0x9b05688c;
  g = 0x1f83d9ab;
  h = 0x5be0cd19;
}

abbrev pub rounds : List ℕ
rounds =
    0x428a2f98 ∷ 0x71374491 ∷ 0xb5c0fbcf ∷ 0xe9b5dba5 ∷ 0x3956c25b ∷ 0x59f111f1 ∷ 0x923f82a4
    ∷ 0xab1c5ed5 ∷ 0xd807aa98 ∷ 0x12835b01 ∷ 0x243185be ∷ 0x550c7dc3 ∷ 0x72be5d74 ∷ 0x80deb1fe
    ∷ 0x9bdc06a7 ∷ 0xc19bf174 ∷ 0xe49b69c1 ∷ 0xefbe4786 ∷ 0x0fc19dc6 ∷ 0x240ca1cc ∷ 0x2de92c6f
    ∷ 0x4a7484aa ∷ 0x5cb0a9dc ∷ 0x76f988da ∷ 0x983e5152 ∷ 0xa831c66d ∷ 0xb00327c8 ∷ 0xbf597fc7
    ∷ 0xc6e00bf3 ∷ 0xd5a79147 ∷ 0x06ca6351 ∷ 0x14292967 ∷ 0x27b70a85 ∷ 0x2e1b2138 ∷ 0x4d2c6dfc
    ∷ 0x53380d13 ∷ 0x650a7354 ∷ 0x766a0abb ∷ 0x81c2c92e ∷ 0x92722c85 ∷ 0xa2bfe8a1 ∷ 0xa81a664b
    ∷ 0xc24b8b70 ∷ 0xc76c51a3 ∷ 0xd192e819 ∷ 0xd6990624 ∷ 0xf40e3585 ∷ 0x106aa070 ∷ 0x19a4c116
    ∷ 0x1e376c08 ∷ 0x2748774c ∷ 0x34b0bcb5 ∷ 0x391c0cb3 ∷ 0x4ed8aa4a ∷ 0x5b9cca4f ∷ 0x682e6ff3
    ∷ 0x748f82ee ∷ 0x78a5636f ∷ 0x84c87814 ∷ 0x8cc70208 ∷ 0x90befffa ∷ 0xa4506ceb ∷ 0xbef9a3f7
    ∷ 0xc67178f2 ∷ []

abbrev pub wrapping_add : ℕ → ℕ → ℕ
wrapping_add x y = (x + y) % 2 ^ 32

abbrev pub rotate_right : ℕ → ℕ → ℕ
rotate_right x k = bit_or (x / 2 ^ k) (x * 2 ^ (32 - k) % 2 ^ 32)

-- The words of the block: `chunks_exact(4)`.
pub block_words : ℕ → List ℕ → List ℕ
block_words zero block = []
block_words (suc n) block = from_be_bytes (take 4 block) ∷ block_words n (drop 4 block)

-- `for index in 16..64`, with the rounds that are left.
pub extend : ℕ → ℕ → List ℕ → List ℕ
extend zero index words = words
extend (suc n) index words =
    let w15 = get_or words (index - 15) 0 in
    let w2 = get_or words (index - 2) 0 in
    let s0 = bit_xor (bit_xor (rotate_right w15 7) (rotate_right w15 18)) (w15 / 2 ^ 3) in
    let s1 = bit_xor (bit_xor (rotate_right w2 17) (rotate_right w2 19)) (w2 / 2 ^ 10) in
    extend n (index + 1) (
      set words index (
        wrapping_add
          (wrapping_add (wrapping_add (get_or words (index - 16) 0) s0)
            (get_or words (index - 7) 0))
          s1))

-- One round, with its constant and its word. `!e` is the complement in 32 bits.
pub round : ℕ → ℕ → State → State
round constant word s =
    let choice = bit_xor (bit_and s.e s.f) (bit_and (bit_xor s.e u32_max) s.g) in
    let majority = bit_xor (bit_xor (bit_and s.a s.b) (bit_and s.a s.c)) (bit_and s.b s.c) in
    let t1 =
      wrapping_add
        (wrapping_add
          (wrapping_add
            (wrapping_add s.h
              (bit_xor (bit_xor (rotate_right s.e 6) (rotate_right s.e 11)) (rotate_right s.e 25)))
            choice)
          constant)
        word in
    let t2 =
      wrapping_add
        (bit_xor (bit_xor (rotate_right s.a 2) (rotate_right s.a 13)) (rotate_right s.a 22))
        majority in
    record {
      a = wrapping_add t1 t2;
      b = s.a;
      c = s.b;
      d = s.c;
      e = wrapping_add s.d t1;
      f = s.e;
      g = s.f;
      h = s.g;
    }

-- The rounds over the constants and the words.
pub run_rounds : List ℕ → List ℕ → State → State
run_rounds (k ∷ ks) (w ∷ ws) s = run_rounds ks ws (round k w s)
run_rounds ks ws s = s

pub add_state : State → State → State
add_state s t = record {
  a = wrapping_add s.a t.a;
  b = wrapping_add s.b t.b;
  c = wrapping_add s.c t.c;
  d = wrapping_add s.d t.d;
  e = wrapping_add s.e t.e;
  f = wrapping_add s.f t.f;
  g = wrapping_add s.g t.g;
  h = wrapping_add s.h t.h;
}

pub compress : State → List ℕ → State
compress s block =
    let words = extend 48 16 (block_words 16 block ++ replicate 48 0) in
    add_state s (run_rounds rounds words s)

-- `for block in input.chunks_exact(64)`, with the number of whole blocks.
pub compress_blocks : ℕ → State → List ℕ → State
compress_blocks zero s input = s
compress_blocks (suc n) s input = compress_blocks n (compress s (take 64 input)) (drop 64 input)

pub record Context : Type 0 where
  pub state : State
  pub block : List ℕ
  pub block_len : ℕ
  pub byte_len : ℕ

pub default : Context
default = record { state = initial; block = replicate 64 0; block_len = 0; byte_len = 0 }

-- The first part of `update`: the started block takes what it can, and the rest of the input is left.
pub fill : List ℕ → Context → List ℕ × Context
fill input c =
    let count = min (64 - c.block_len) (length input) in
    let block = splice c.block_len (take count input) c.block in
    (
      drop count input,
      if c.block_len + count == 64
          then record c { state = compress c.state block; block = block; block_len = 0 }
          else record c { block = block; block_len = c.block_len + count },
    )

-- The second part: whole blocks from the input, and its remainder for the next block.
pub absorb : List ℕ → Context → Context
absorb input c =
    let state = compress_blocks (length input / 64) c.state input in
    let remainder = length input % 64 in
    if remainder == 0 then record c { state = state } else record c {
      state = state;
      block = splice 0 (drop (length input - remainder) input) c.block;
      block_len = remainder;
    }

pub update : List ℕ → Context → Context
update input c =
    let counted = record c { byte_len = (c.byte_len + length input) % 2 ^ 64 } in
    if counted.block_len == 0
    then absorb input counted
    else let (rest, filled) = fill input counted in absorb rest filled

-- The digest's bytes: `word.to_be_bytes()` of each word.
pub state_bytes : State → List ℕ
state_bytes s =
    to_be_bytes 4 s.a
    ++ (to_be_bytes 4 s.b
        ++ (to_be_bytes 4 s.c
            ++ (to_be_bytes 4 s.d
                ++ (to_be_bytes 4 s.e
                    ++ (to_be_bytes 4 s.f ++ (to_be_bytes 4 s.g ++ to_be_bytes 4 s.h))))))

-- The end of `finish`: the length goes into the last 8 bytes of the block.
pub seal : ℕ → State → List ℕ → List ℕ
seal bit_len s block = state_bytes (compress s (splice 56 (to_be_bytes 8 bit_len) block))

pub finish : Context → List ℕ
finish c =
    let bit_len = c.byte_len * 8 % 2 ^ 64 in
    let block = set c.block c.block_len 0x80 in
    let block_len = c.block_len + 1 in
    if ltb 56 block_len
    then seal bit_len (compress c.state (splice block_len (replicate (64 - block_len) 0) block))
        (replicate 64 0)
    else seal bit_len c.state (splice block_len (replicate (56 - block_len) 0) block)

-- `HEX[usize::from(digit)]`
abbrev pub hex_digit : ℕ → ℕ
hex_digit d = if ltb d 10 then 48 + d else 87 + d

pub hex_bytes : List ℕ → List ℕ
hex_bytes [] = []
hex_bytes (b ∷ bs) = hex_digit (b / 2 ^ 4) ∷ hex_digit (bit_and b 0x0f) ∷ hex_bytes bs

pub hex : List ℕ → List ℕ
hex input = hex_bytes (finish (update input default))
