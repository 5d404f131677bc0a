-- ===== src/LineIndex/Interior.antt =====
-- The offsets of a text that the index cannot tell from the one before: those inside a CR LF.
use mathlib.Core.Path.{subst}
use telora.Common.{
  ℕ, zero, suc, ◌+◌, ◌≤◌, ◌<◌, ◌≡◌, refl, sym, ap, ◌∙◌, ◌⊎◌, inl, inr, some, List, [], ◌∷◌, ◌++◌,
  arith, length, get_elem?, length-append, ok,
}
use telora.LineIndex.{LineIndex, new, partition_point}
use telora.LineIndex.Breaks.{LineBreak, Lines, new-Lines}

get_elem?-append_right :
    (xs ys : List ℕ) (k i : ℕ) → k ≡ length xs + i → get_elem? (xs ++ ys) k ≡ get_elem? ys i
get_elem?-append_right [] ys k i e =
    let same : k ≡ i = omega (arith, e) in ap (λ (n : ℕ). get_elem? ys n) same
get_elem?-append_right (x ∷ xs) ys zero i e = absurd (omega (arith, e))
get_elem?-append_right (x ∷ xs) ys (suc k) i e = get_elem?-append_right xs ys k i (omega (arith, e))

-- The offset `c` is the offset `b`, or `b` lies between the CR at `c` and an LF.
abbrev pub Same : List ℕ → (c b : ℕ) → Type 0
Same text c b =
    (c ≡ b) ⊎ ((c + 1 ≡ b) × (get_elem? text c ≡ some 13) × (get_elem? text b ≡ some 10))

-- In a text from `at` on, an offset past the end of its line.
abbrev Between : ℕ → List ℕ → (end b : ℕ) → Type 0
Between at text end b =
    (k : ℕ) × (end ≡ at + k)
    × (b ≡ at + k + 1)
    × (get_elem? text k ≡ some 13)
    × (get_elem? text (k + 1) ≡ some 10)

first_break :
    (at s e b : ℕ) (content brk rest : List ℕ)
    → LineBreak brk rest
    → e ≡ at + length content
    → s ≡ e + length brk
    → e < b
    → b < s
    → Between at (content ++ (brk ++ rest)) e b
first_break at s e b content brk rest (inl pair) ending starting past before =
    let two = ap length pair in
    let feed = ap (λ (xs : List ℕ). get_elem? (content ++ (xs ++ rest)) (length content)) pair in
    let return =
      ap (λ (xs : List ℕ). get_elem? (content ++ (xs ++ rest)) (length content + 1)) pair in
    (
      length content,
      ending,
      omega (arith, two, ending, starting, past, before),
      feed ∙ get_elem?-append_right content (13 ∷ 10 ∷ rest) (length content) 0 (omega arith),
      return ∙ get_elem?-append_right content (13 ∷ 10 ∷ rest) (length content + 1) 1 refl,
    )
first_break at s e b content brk rest (inr (inl feed)) ending starting past before =
    absurd (omega (arith, ap length feed, ending, starting, past, before))
first_break at s e b content brk rest (inr (inr (return, alone))) ending starting past before =
    absurd (omega (arith, ap length return, ending, starting, past, before))

past_end-Between :
    (at : ℕ) (text ss es : List ℕ) (line end b : ℕ)
    → Lines at text ss es
    → get_elem? es line ≡ some end
    → partition_point b (at ∷ ss) ≡ suc line
    → end < b
    → b ≤ at + length text
    → Between at text end b
unfolding partition_point
past_end-Between at text ss [] line end b l found point past inside = absurd l
past_end-Between at text [] (e ∷ es) zero end b l found point past inside =
    let here : e ≡ end = cc found in absurd (omega (arith, l.1, here, past, inside))
past_end-Between at text [] (e ∷ es) (suc line) end b l found point past inside =
    absurd (ground (arith, point))
past_end-Between at text (s ∷ ss) (e ∷ es) zero end b
      (content, brk, rest, same, inside, broken, ending, starting, later) found point past within =
    let here : e ≡ end = cc found in
    subst (λ t. Between at t end b) (sym same)
      (subst (λ n. Between at (content ++ (brk ++ rest)) n b) here
        (first_break at s e b content brk rest broken ending starting (omega (arith, here, past))
          (ground (arith, point))))
past_end-Between at text (s ∷ ss) (e ∷ es) (suc line) end b
      (content, brk, rest, same, inside, broken, ending, starting, later) found point past within =
    let whole = ap length same in
    let (k, at_end, at_next, return, feed) =
      past_end-Between s rest ss es line end b later found (ground (arith, point)) past (
        omega (
          arith,
          whole,
          within,
          ending,
          starting,
          length-append content (brk ++ rest),
          length-append brk rest,
        )) in
    let shift : (i : ℕ) → get_elem? text (length content + length brk + i) ≡ get_elem? rest i = λ i.
      ap (λ (t : List ℕ). get_elem? t (length content + length brk + i)) same
      ∙ (get_elem?-append_right content (brk ++ rest) (length content + length brk + i)
            (length brk + i) (omega arith)
          ∙ get_elem?-append_right brk rest (length brk + i) i refl) in
    (
      length content + length brk + k,
      omega (arith, at_end, ending, starting),
      omega (arith, at_next, ending, starting),
      shift k ∙ return,
      ap (λ (n : ℕ). get_elem? text n) (omega arith) ∙ (shift (k + 1) ∙ feed),
    )

-- The same for an index of a text.
pub past_end-Same :
    (text : List ℕ) (index : LineIndex) (line end b : ℕ)
    → new text ≡ ok index
    → get_elem? index.ends line ≡ some end
    → partition_point b index.starts ≡ suc line
    → end < b
    → b ≤ length text
    → Same text end b
past_end-Same text index line end b e found point past within =
    let (ss, starts, lines) = new-Lines text index e in
    let (k, at_end, at_next, return, feed) =
      past_end-Between 0 text ss index.ends line end b lines found
        (subst (λ xs. partition_point b xs ≡ suc line) starts point) past (omega (arith, within)) in
    let here : k ≡ end = omega (arith, at_end) in
    let next : k + 1 ≡ b = omega (arith, at_next) in
    inr (
      omega (arith, here, next),
      subst (λ n. get_elem? text n ≡ some 13) here return,
      subst (λ n. get_elem? text n ≡ some 10) next feed,
    )
