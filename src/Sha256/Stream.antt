-- ===== src/Sha256/Stream.antt =====
-- Streaming: a context holds the message that was fed to it, and `finish` is its digest.
use mathlib.Core.Path.{subst}
use telora.Common.{
  append_assoc, append-nil, length-splice, splice, ℕ, ◌+◌, ◌-◌, ◌*◌, ◌/◌, ◌%◌, ◌^◌, ◌≤◌, ◌<◌, min,
  ◌≡◌, refl, sym, ap, ◌∙◌, ◌≢◌, ◌⊎◌, inl, inr, List, [], ◌∷◌, ◌++◌, arith, ◌==◌, ==→eq, Bool-cases,
  length, take, drop, splice, length-append, length-take, length-drop, take-append,
  take-append-drop, take-all,
}
use telora.Sha256.{
  State, initial, Context, default, compress, compress_blocks, fill, absorb, update,
}
use telora.Sha256.Padding.{compress_blocks-append, compress_blocks-take}

-- The context has compressed the whole blocks of the message and keeps the rest in its block.
pub record Holds (m : List ℕ) (c : Context) : Type 0 where
  pub blocks : ℕ
  pub whole : List ℕ
  pub rest : List ℕ
  pub split : m ≡ whole ++ rest
  pub size : length whole ≡ 64 * blocks
  pub rest_len : length rest ≡ c.block_len
  pub partial : c.block_len < 64
  pub room : length c.block ≡ 64
  pub kept : take c.block_len c.block ≡ rest
  pub state : c.state ≡ compress_blocks blocks initial whole

pub default-Holds : Holds [] default
unfolding default
default-Holds = record {
  blocks = 0;
  whole = [];
  rest = [];
  split = refl;
  size = omega arith;
  rest_len = refl;
  partial = omega arith;
  room = refl;
  kept = refl;
  state = unfold compress_blocks in refl;
}

nothing : (xs : List ℕ) → length xs ≡ 0 → xs ≡ []
nothing [] e = refl
nothing (x ∷ xs) e = absurd (omega arith)

-- More whole blocks, and another rest.
advanced :
    (m input : List ℕ) (n : ℕ) (c d : Context) (h : Holds m c)
    → c.block_len ≡ 0
    → 64 * n ≤ length input
    → length (drop (64 * n) input) ≡ d.block_len
    → d.block_len < 64
    → length d.block ≡ 64
    → take d.block_len d.block ≡ drop (64 * n) input
    → d.state ≡ compress_blocks n c.state input
    → Holds (m ++ input) d
advanced m input n c d h z le len part room kept state = record {
  blocks = h.blocks + n;
  whole = h.whole ++ take (64 * n) input;
  rest = drop (64 * n) input;
  split =
      let none_left : h.rest ≡ [] = nothing h.rest (h.rest_len ∙ z) in
      let short : m ≡ h.whole =
        h.split ∙ ap (λ (t : List ℕ). h.whole ++ t) none_left ∙ append-nil h.whole in
      ap (λ (t : List ℕ). t ++ input) short
      ∙ ap (λ (t : List ℕ). h.whole ++ t) (sym (take-append-drop (64 * n) input))
      ∙ sym (append_assoc h.whole (take (64 * n) input) (drop (64 * n) input));
  size =
      omega
        (arith, h.size, length-append h.whole (take (64 * n) input), length-take (64 * n) input);
  rest_len = len;
  partial = part;
  room = room;
  kept = kept;
  state =
      state
      ∙ ap (λ (t : State). compress_blocks n t input) h.state
      ∙ compress_blocks-take n (compress_blocks h.blocks initial h.whole) input le
      ∙ sym (
          compress_blocks-append (h.blocks + n) h.blocks n initial h.whole (take (64 * n) input)
            refl h.size);
}

absorb-Holds :
    (m input : List ℕ) (c : Context)
    → Holds m c
    → c.block_len ≡ 0
    → Holds (m ++ input) (absorb input c)
unfolding absorb
absorb-Holds m input c h z =
    let n = length input / 64 in
    let r = length input % 64 in
    let offset : length input - r ≡ 64 * n = omega arith in
    elim (Bool-cases (r == 0)) [
      | inl e ↦
          let none_left : r ≡ 0 = ==→eq r 0 e in
          rw (e, absorb)
            (advanced m input n c _ h z (omega arith) (omega (arith, length-drop (64 * n) input, z))
              (omega (arith, h.partial)) h.room
              (h.kept
                ∙ nothing h.rest (h.rest_len ∙ z)
                ∙ sym (nothing (drop (64 * n) input) (omega (arith, length-drop (64 * n) input))))
              refl)
      | inr e ↦
          rw (e, absorb, offset)
            (advanced m input n c _ h z (omega arith) (omega (arith, length-drop (64 * n) input))
              (omega arith)
              (length-splice 0 (drop (64 * n) input) c.block
                  (omega (arith, length-drop (64 * n) input, h.room))
                ∙ h.room)
              (take-append (drop (64 * n) input) _ r (omega (arith, length-drop (64 * n) input)))
              refl)
    ]

pub one_block : (s : State) (xs : List ℕ) → length xs ≡ 64 → compress_blocks 1 s xs ≡ compress s xs
unfolding compress_blocks
one_block s xs h = ap (compress s) (take-all 64 xs (omega arith))

-- The block after a part of the input was copied behind what it held.
pub spliced :
    (n : ℕ) (source block : List ℕ)
    → n + length source ≤ length block
    → take (n + length source) (splice n source block) ≡ take n block ++ source
spliced n source block le =
    ap (take (n + length source))
      (sym (append_assoc (take n block) source (drop (n + length source) block)))
    ∙ take-append (take n block ++ source) (drop (n + length source) block) (n + length source)
        (omega (arith, length-append (take n block) source, length-take n block))

module _ (m source : List ℕ) (c : Context) (h : Holds m c) where
  abbrev block : List ℕ
  block = splice c.block_len source c.block

  abbrev moved : List ℕ
  moved = h.rest ++ source

  moved-kept : c.block_len + length source ≤ 64 → take (c.block_len + length source) block ≡ moved
  moved-kept le =
      spliced c.block_len source c.block (omega (arith, h.room))
      ∙ ap (λ (t : List ℕ). t ++ source) h.kept

  moved_len : length moved ≡ c.block_len + length source
  moved_len = omega (arith, length-append h.rest source, h.rest_len)

  moved_split : m ++ source ≡ h.whole ++ moved
  moved_split = ap (λ (t : List ℕ). t ++ source) h.split ∙ append_assoc h.whole h.rest source

  block_room : c.block_len + length source ≤ 64 → length block ≡ 64
  block_room le = length-splice c.block_len source c.block (omega (arith, h.room)) ∙ h.room

  -- The block is still not full.
  started :
      (d : Context)
      → c.block_len + length source < 64
      → d.state ≡ c.state
      → d.block ≡ block
      → d.block_len ≡ c.block_len + length source
      → Holds (m ++ source) d
  started d lt st bl len = record {
    blocks = h.blocks;
    whole = h.whole;
    rest = moved;
    split = moved_split;
    size = h.size;
    rest_len = moved_len ∙ sym len;
    partial = omega arith;
    room = ap length bl ∙ block_room (omega arith);
    kept = rw (len, bl) (moved-kept (omega arith));
    state = st ∙ h.state;
  }

  -- The block is full, and compressed.
  completed :
      (d : Context)
      → c.block_len + length source ≡ 64
      → d.state ≡ compress c.state block
      → d.block ≡ block
      → d.block_len ≡ 0
      → Holds (m ++ source) d
  completed d full st bl len = record {
    blocks = h.blocks + 1;
    whole = h.whole ++ moved;
    rest = [];
    split = moved_split ∙ sym (append-nil (h.whole ++ moved));
    size = omega (arith, h.size, length-append h.whole moved, moved_len);
    rest_len = sym len;
    partial = omega arith;
    room = ap length bl ∙ block_room (omega arith);
    kept = rw len refl;
    state =
        let whole_block : block ≡ moved =
          sym (take-all 64 block (omega (arith, block_room (omega arith))))
          ∙ ap (λ (n : ℕ). take n block) (sym full)
          ∙ moved-kept (omega arith) in
        st
        ∙ ap (compress c.state) whole_block
        ∙ sym (one_block c.state moved (omega (arith, moved_len)))
        ∙ ap (λ (t : State). compress_blocks 1 t moved) h.state
        ∙ sym (compress_blocks-append (h.blocks + 1) h.blocks 1 initial h.whole moved refl h.size);
  }

-- Filling the started block either takes all of the input or leaves no started block.
fill-Holds :
    (m input : List ℕ) (c : Context)
    → Holds m c
    → let (rest, d) = fill input c in
      ((rest ≡ []) × Holds (m ++ input) d)
      ⊎ ((d.block_len ≡ 0)
          × (consumed : List ℕ) × (input ≡ consumed ++ rest)
          × Holds (m ++ consumed) d)
unfolding fill
fill-Holds m input c h =
    let count = min (64 - c.block_len) (length input) in
    let size : length (take count input) ≡ count = omega (arith, length-take count input) in
    elim (Bool-cases (c.block_len + count == 64)) [
      | inl e ↦
          let full : c.block_len + count ≡ 64 = ==→eq (c.block_len + count) 64 e in
          rw (e, fill)
            (inr (
              refl,
              take count input,
              sym (take-append-drop count input),
              completed m (take count input) c h _ (omega arith) refl refl refl,
            ))
      | inr e ↦
          let d : Context = record c {
            block = splice c.block_len (take count input) c.block;
            block_len = c.block_len + count;
          } in
          let open_block : c.block_len + count ≢ 64 = ground arith in
          let all : take count input ≡ input = take-all count input (omega (arith, h.partial)) in
          rw (e, fill)
            (inl (
              nothing (drop count input) (omega (arith, length-drop count input, h.partial)),
              subst (λ (t : List ℕ). Holds (m ++ t) d) all
                  (started m (take count input) c h d (omega (arith, h.partial)) refl refl
                    (omega arith)),
            ))
    ]

recounted : (m : List ℕ) (c : Context) (n : ℕ) → Holds m c → Holds m (record c { byte_len = n })
recounted m c n h = record {
  blocks = h.blocks;
  whole = h.whole;
  rest = h.rest;
  split = h.split;
  size = h.size;
  rest_len = h.rest_len;
  partial = h.partial;
  room = h.room;
  kept = h.kept;
  state = h.state;
}

filled :
    (m input : List ℕ) (c : Context)
    → Holds m c
    → Holds (m ++ input) (absorb (fill input c).0 (fill input c).1)
filled m input c h = elim (fill-Holds m input c h) [
  | inl (none_left, g) ↦ rw none_left (absorb_nothing (m ++ input) (fill input c).1 g)
  | inr (empty, consumed, same, g) ↦
      subst (λ (t : List ℕ). Holds t (absorb (fill input c).0 (fill input c).1))
        (append_assoc m consumed (fill input c).0 ∙ ap (λ (t : List ℕ). m ++ t) (sym same))
        (absorb-Holds (m ++ consumed) (fill input c).0 (fill input c).1 g empty)
]
  where
    absorb_nothing : (t : List ℕ) (d : Context) → Holds t d → Holds t (absorb [] d)
    absorb_nothing t d g = unfold absorb compress_blocks in g

pub update-Holds :
    (m input : List ℕ) (c : Context) → Holds m c → Holds (m ++ input) (update input c)
unfolding update
update-Holds m input c h =
    let counted : Context = record c { byte_len = (c.byte_len + length input) % 2 ^ 64 } in
    let g = recounted m c ((c.byte_len + length input) % 2 ^ 64) h in
    elim (Bool-cases (c.block_len == 0)) [
      | inl e ↦ rw (e, update) (absorb-Holds m input counted g (==→eq c.block_len 0 e))
      | inr e ↦ rw (e, update) (filled m input counted g)
    ]

pub update-byte_len :
    (input : List ℕ) (c : Context)
    → (update input c).byte_len ≡ (c.byte_len + length input) % 2 ^ 64
unfolding update absorb fill
update-byte_len input c = ground arith
