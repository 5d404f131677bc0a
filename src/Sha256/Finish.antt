-- ===== src/Sha256/Finish.antt =====
-- `finish` pads the message that the context holds.
use telora.Common.{
  ℕ, zero, suc, ◌+◌, ◌-◌, ◌*◌, ◌/◌, ◌%◌, ◌^◌, ◌≤◌, ◌<◌, ◌≡◌, refl, sym, ap, ◌∙◌, true, false, List,
  [], ◌∷◌, ◌++◌, append_assoc, append-nil, arith, ltb, length, set, take, drop, splice, replicate,
  length-append, length-set, length-drop, length-replicate, take-all, length-splice,
}
use native.Mathlib.Decide.{dec_le}
use telora.Common.Bytes.{to_be_bytes, length-to_be_bytes}
use telora.Sha256.{
  State, initial, Context, default, compress, compress_blocks, state_bytes, update, finish, seal,
}
use telora.Sha256.Standard.{standard_digest}
use telora.Sha256.Conforms.{digest-standard}
use telora.Sha256.Padding.{padded, digest, compress_blocks-append}
use telora.Sha256.Stream.{Holds, one_block, spliced, default-Holds, update-Holds, update-byte_len}

take-set_next :
    (n v : ℕ) (xs : List ℕ) → n < length xs → take (n + 1) (set xs n v) ≡ take n xs ++ v ∷ []
take-set_next n v [] h = absurd (omega arith)
take-set_next zero v (x ∷ xs) h = refl
take-set_next (suc n) v (x ∷ xs) h =
    let next : suc n + 1 ≡ suc (n + 1) = omega arith in
    rw next (ap (λ (t : List ℕ). x ∷ t) (take-set_next n v xs (omega arith)))

replicate-add : (a b v : ℕ) → replicate (a + b) v ≡ replicate a v ++ replicate b v
replicate-add zero b v = ap (λ (n : ℕ). replicate n v) (omega arith)
replicate-add (suc a) b v =
    let next : suc a + b ≡ suc (a + b) = omega arith in
    rw next (ap (λ (t : List ℕ). v ∷ t) (replicate-add a b v))

-- The last 8 bytes of a block replaced.
sealed :
    (block len : List ℕ)
    → length block ≡ 64
    → length len ≡ 8
    → splice 56 len block ≡ take 56 block ++ len
sealed block len e f =
    let none_left : drop (56 + length len) block ≡ [] =
      empty (drop (56 + length len) block) (omega (arith, length-drop (56 + length len) block)) in
    ap (λ (t : List ℕ). take 56 block ++ (len ++ t)) none_left
    ∙ ap (λ (t : List ℕ). take 56 block ++ t) (append-nil len)
  where
    empty : (xs : List ℕ) → length xs ≡ 0 → xs ≡ []
    empty [] z = refl
    empty (x ∷ xs) z = absurd (omega arith)

module _ (m : List ℕ) (c : Context) (h : Holds m c) where
  -- The block with the bit 1 and `n` zeros.
  abbrev ending : ℕ → List ℕ
  ending n = splice (c.block_len + 1) (replicate n 0) (set c.block c.block_len 0x80)

  ending-room : (n : ℕ) → c.block_len + 1 + n ≤ 64 → length (ending n) ≡ 64
  ending-room n le =
      let size = length-replicate {A = ℕ} n 0 in
      let room = length-set c.block c.block_len 0x80 in
      length-splice (c.block_len + 1) (replicate n 0) (set c.block c.block_len 0x80)
        (omega (arith, h.room))
      ∙ room
      ∙ h.room

  ending-take :
      (n k : ℕ)
      → k ≡ c.block_len + 1 + n
      → k ≤ 64
      → take k (ending n) ≡ h.rest ++ 0x80 ∷ replicate n 0
  ending-take n k e le =
      let size = length-replicate {A = ℕ} n 0 in
      let room : length (set c.block c.block_len 0x80) ≡ 64 =
        length-set c.block c.block_len 0x80 ∙ h.room in
      let whole : k ≡ c.block_len + 1 + length (replicate {A = ℕ} n 0) = omega arith in
      ap (λ (t : ℕ). take t (ending n)) whole
      ∙ spliced (c.block_len + 1) (replicate n 0) (set c.block c.block_len 0x80) (omega arith)
      ∙ ap (λ (t : List ℕ). t ++ replicate n 0)
          (take-set_next c.block_len 0x80 c.block (omega (arith, h.room, h.partial))
            ∙ ap (λ (t : List ℕ). t ++ 0x80 ∷ []) h.kept)
      ∙ append_assoc h.rest (0x80 ∷ []) (replicate n 0)

  abbrev size_bytes : List ℕ
  size_bytes = to_be_bytes 8 (length m * 8 % 2 ^ 64)

  message_len : length m ≡ 64 * h.blocks + c.block_len
  message_len = omega (arith, ap length h.split, length-append h.whole h.rest, h.size, h.rest_len)

  padded-split :
      (n : ℕ)
      → n ≡ (119 - length m % 64) % 64
      → padded m ≡ h.whole ++ (h.rest ++ (0x80 ∷ (replicate n 0 ++ size_bytes)))
  unfolding padded
  padded-split n e =
      ap (λ (k : ℕ). m ++ (0x80 ∷ (replicate k 0 ++ size_bytes))) (sym e)
      ∙ ap (λ (t : List ℕ). t ++ (0x80 ∷ (replicate n 0 ++ size_bytes))) h.split
      ∙ append_assoc h.whole h.rest (0x80 ∷ (replicate n 0 ++ size_bytes))

  -- The digest from what follows the whole blocks.
  digest-tail :
      (n : ℕ) (tail : List ℕ)
      → padded m ≡ h.whole ++ tail
      → length tail ≡ 64 * n
      → digest m ≡ state_bytes (compress_blocks n c.state tail)
  unfolding digest
  digest-tail n tail e len =
      let blocks : length (padded m) / 64 ≡ h.blocks + n =
        omega (arith, ap length e, length-append h.whole tail, h.size) in
      ap state_bytes (
        ap (λ (k : ℕ). compress_blocks k initial (padded m)) blocks
        ∙ ap (compress_blocks (h.blocks + n) initial) e
        ∙ compress_blocks-append (h.blocks + n) h.blocks n initial h.whole tail refl h.size
        ∙ ap (λ (t : State). compress_blocks n t tail) (sym h.state))

  bit_length : c.byte_len ≡ length m % 2 ^ 64 → c.byte_len * 8 % 2 ^ 64 ≡ length m * 8 % 2 ^ 64
  bit_length counted = omega arith

  abbrev marked : ℕ → List ℕ
  marked n = h.rest ++ 0x80 ∷ replicate n 0

  length-marked : (n : ℕ) → length (marked n) ≡ c.block_len + 1 + n
  length-marked n =
      omega (
        arith,
        length-append h.rest (0x80 ∷ replicate n 0),
        length-replicate {A = ℕ} n 0,
        h.rest_len,
      )

  abbrev bit_size : ℕ
  bit_size = length m * 8 % 2 ^ 64

  -- The length fits behind the bit 1.
  short_finish :
      (n : ℕ) → c.block_len + 1 + n ≡ 56 → c.byte_len ≡ length m % 2 ^ 64 → finish c ≡ digest m
  unfolding finish seal
  short_finish n e counted =
      let fits : ltb 56 (c.block_len + 1) ≡ false = ground arith in
      let zeros : 56 - (c.block_len + 1) ≡ n = omega arith in
      let size = length-to_be_bytes 8 bit_size in
      let tail = h.rest ++ (0x80 ∷ (replicate n 0 ++ size_bytes)) in
      let last : splice 56 size_bytes (ending n) ≡ tail =
        sealed (ending n) size_bytes (ending-room n (omega arith)) size
        ∙ ap (λ (t : List ℕ). t ++ size_bytes) (ending-take n 56 (sym e) (omega arith))
        ∙ append_assoc h.rest (0x80 ∷ replicate n 0) size_bytes in
      let full : length tail ≡ 64 * 1 = omega (
        arith,
        length-append h.rest (0x80 ∷ (replicate n 0 ++ size_bytes)),
        length-append (replicate n 0) size_bytes,
        length-replicate {A = ℕ} n 0,
        size,
        h.rest_len,
      ) in
      rw (fits, finish, bit_length counted, zeros, last)
        (ap state_bytes (sym (one_block c.state tail (omega arith)))
          ∙ sym (digest-tail 1 tail (padded-split n (omega (arith, message_len, h.partial))) full))

  -- The length goes into a block of its own.
  long_finish :
      (n : ℕ)
      → c.block_len + 1 + n ≡ 64
      → n < 8
      → c.byte_len ≡ length m % 2 ^ 64
      → finish c ≡ digest m
  unfolding finish seal
  long_finish n e few counted =
      let over : ltb 56 (c.block_len + 1) ≡ true = ground arith in
      let zeros : 64 - (c.block_len + 1) ≡ n = omega arith in
      let size = length-to_be_bytes 8 bit_size in
      let first : List ℕ = h.rest ++ 0x80 ∷ replicate n 0 in
      let second : List ℕ = replicate 56 0 ++ size_bytes in
      let block : ending n ≡ first =
        sym (take-all 64 (ending n) (omega (arith, ending-room n (omega arith))))
        ∙ ending-take n 64 (sym e) (omega arith) in
      let first_len : length first ≡ 64 * 1 = omega (
        arith,
        length-append h.rest (0x80 ∷ replicate n 0),
        length-replicate {A = ℕ} n 0,
        h.rest_len,
      ) in
      let both : h.rest ++ (0x80 ∷ (replicate (n + 56) 0 ++ size_bytes)) ≡ first ++ second =
        ap (λ (t : List ℕ). h.rest ++ (0x80 ∷ (t ++ size_bytes))) (replicate-add n 56 0)
        ∙ ap (λ (t : List ℕ). h.rest ++ (0x80 ∷ t))
            (append_assoc (replicate n 0) (replicate 56 0) size_bytes)
        ∙ sym (append_assoc h.rest (0x80 ∷ replicate n 0) second) in
      let full : length (first ++ second) ≡ 64 * 2 = omega (
        arith,
        length-append first second,
        length-append (replicate 56 0) size_bytes,
        size,
        first_len,
      ) in
      let last : splice 56 size_bytes (replicate 64 0) ≡ second =
        sealed (replicate 64 0) size_bytes refl size in
      rw (over, finish, bit_length counted, zeros, block, last)
        (ap state_bytes (
            sym (one_block (compress c.state first) second (omega (arith, size)))
            ∙ ap (λ (t : State). compress_blocks 1 t second)
                (sym (one_block c.state first (omega (arith, first_len))))
            ∙ sym (compress_blocks-append 2 1 1 c.state first second (omega arith) first_len))
          ∙ sym (
              digest-tail 2 (first ++ second)
                (padded-split (n + 56) (omega (arith, message_len, h.partial))
                  ∙ ap (λ (t : List ℕ). h.whole ++ t) both)
                full))

  finish-digest : c.byte_len ≡ length m % 2 ^ 64 → finish c ≡ digest m
  finish-digest counted = elim (dec_le (c.block_len + 1) 56) [
    | yes short ↦ short_finish (56 - (c.block_len + 1)) (omega arith) counted
    | no long ↦
        long_finish (64 - (c.block_len + 1)) (omega (arith, h.partial)) (omega (arith, h.partial))
          counted
  ]

-- The pieces of the input, one `update` for each.
abbrev pub feed : List (List ℕ) → Context → Context
feed [] c = c
feed (part ∷ parts) c = feed parts (update part c)

abbrev pub joined : List (List ℕ) → List ℕ
joined [] = []
joined (part ∷ parts) = part ++ joined parts

feed-Holds :
    (parts : List (List ℕ)) (m : List ℕ) (c : Context)
    → Holds m c
    → c.byte_len ≡ length m % 2 ^ 64
    → Holds (m ++ joined parts) (feed parts c)
      × ((feed parts c).byte_len ≡ length (m ++ joined parts) % 2 ^ 64)
feed-Holds [] m c h n = rw (append-nil m) (h, n)
feed-Holds (part ∷ parts) m c h n = rw (← append_assoc m part (joined parts)) (
    feed-Holds parts (m ++ part) (update part c) (update-Holds m part c h)
      (omega (arith, update-byte_len part c, length-append m part)))

-- Whatever the pieces in which a message is fed to a fresh context, `finish` gives the digest that FIPS
-- 180-4 defines for the whole message: the padding, the message schedule, the rounds and the constants
-- are those of the standard, the constants being the fractions of the roots of the first primes. (The
-- standard stops at 2 ^ 64 bits; of a longer message the padding takes the length modulo 2 ^ 64.)
pub stream-digest :
    (parts : List (List ℕ)) → finish (feed parts default) ≡ standard_digest (joined parts)
stream-digest parts =
    let (h, n) = feed-Holds parts [] default default-Holds (unfold default in refl) in
    finish-digest (joined parts) (feed parts default) h n ∙ digest-standard (joined parts)
