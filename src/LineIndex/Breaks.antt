-- ===== src/LineIndex/Breaks.antt =====
-- The lines of a text by its line breaks, and the index that finds them.
use mathlib.Core.Path.{subst}
use telora.Common.{
  ℕ, ◌+◌, ◌≤◌, ◌<◌, ◌≡◌, refl, sym, ap, ◌≢◌, ◌⊎◌, inl, inr, true, false, ◌&&◌, ◌||◌, some, List, [],
  ◌∷◌, ◌++◌, arith, ◌==◌, ==→eq, Bool-cases, length, get_elem?, get_or, All, u32_max, ok,
}
use telora.LineIndex.{LineIndex, new, scan, break_at}
use telora.LineIndex.Scan.{scan_pair, scan_break, scan_on, break_at-fits}

abbrev pub InLine : ℕ → Type 0
InLine b = (b ≢ 13) × (b ≢ 10)

-- CR LF, LF, or a CR that no LF follows.
abbrev pub LineBreak : (brk rest : List ℕ) → Type 0
LineBreak brk rest =
    (brk ≡ 13 ∷ 10 ∷ []) ⊎ ((brk ≡ 10 ∷ []) ⊎ ((brk ≡ 13 ∷ []) × (get_elem? rest 0 ≢ some 10)))

-- The text from `at` on is cut at its line breaks: the starts of the later lines, and the ends.
abbrev pub Lines : ℕ → List ℕ → (starts ends : List ℕ) → Type 0
Lines at text starts [] = ⊥
Lines at text [] (e ∷ es) = All InLine text × (e ≡ at + length text) × (es ≡ [])
Lines at text (s ∷ ss) (e ∷ es) =
    (content : List ℕ) × (brk : List ℕ) × (rest : List ℕ) × (text ≡ content ++ (brk ++ rest))
    × All InLine content
    × LineBreak brk rest
    × (e ≡ at + length content)
    × (s ≡ e + length brk)
    × Lines s rest ss es

-- One more byte in the first line.
longer :
    (at b : ℕ) (text ss es : List ℕ)
    → InLine b
    → Lines (at + 1) text ss es
    → Lines at (b ∷ text) ss es
longer at b text ss [] i l = absurd l
longer at b text [] (e ∷ es) i l = ((i, l.0), omega arith, l.2)
longer at b text (s ∷ ss) (e ∷ es) i
      (content, brk, rest, same, inside, broken, ending, starting, later) =
    (
      b ∷ content,
      brk,
      rest,
      ap (λ (t : List ℕ). b ∷ t) same,
      (i, inside),
      broken,
      omega arith,
      starting,
      later,
    )

-- A line that ends at once.
empty_line :
    (at t : ℕ) (brk rest : List ℕ) (index : LineIndex)
    → LineBreak brk rest
    → t ≡ at + length brk
    → at < t
    → t ≤ u32_max
    → Lines t rest index.starts index.ends
    → Lines at (brk ++ rest) (break_at at t index).starts (break_at at t index).ends
empty_line at t brk rest index broken e lt fits l =
    rw (break_at-fits at t index lt fits) (([], brk, rest, refl, tt, broken, omega arith, e, l))

pair_line :
    (at b c : ℕ) (bytes : List ℕ)
    → b ≡ 13
    → c ≡ 10
    → at + 2 ≤ u32_max
    → Lines (at + 2) bytes (scan (at + 2) bytes).starts (scan (at + 2) bytes).ends
    → let index = break_at at (at + 2) (scan (at + 2) bytes) in
      Lines at (b ∷ c ∷ bytes) index.starts index.ends
pair_line at b c bytes e f fits l =
    empty_line at (at + 2) (b ∷ c ∷ []) bytes (scan (at + 2) bytes) (inl (rw (e, f) refl))
      (omega arith) (omega arith) fits l

break_of :
    (b : ℕ) (rest : List ℕ)
    → (b == 13 || b == 10) ≡ true
    → (b == 13 && get_or rest 0 0 == 10) ≡ false
    → LineBreak (b ∷ []) rest
break_of b rest e n = elim (Bool-cases (b == 13)) [
  | inl cr ↦ inr (inr (ap (λ (x : ℕ). x ∷ []) (==→eq b 13 cr), no_feed rest (ground arith)))
  | inr other ↦ inr (inl (ap (λ (x : ℕ). x ∷ []) (ground arith)))
]
  where
    no_feed : (r : List ℕ) → (get_or r 0 0 == 10) ≡ false → get_elem? r 0 ≢ some 10
    no_feed [] f q = cc q
    no_feed (c ∷ r) f q = ground (arith, f, q)

scan_end :
    (at b : ℕ)
    → (b == 13 || b == 10) ≡ true
    → scan at (b ∷ []) ≡ break_at at (at + 1) (scan (at + 1) [])
unfolding scan
scan_end at b e = rw (e, scan)

scan_end_on : (at b : ℕ) → (b == 13 || b == 10) ≡ false → scan at (b ∷ []) ≡ scan (at + 1) []
unfolding scan
scan_end_on at b e = rw (e, scan)

scan-nothing : (at : ℕ) → at ≤ u32_max → Lines at [] (scan at []).starts (scan at []).ends
unfolding scan
scan-nothing at h = (tt, omega arith, refl)

scan-Lines :
    (at : ℕ) (bytes : List ℕ)
    → at + length bytes ≤ u32_max
    → Lines at bytes (scan at bytes).starts (scan at bytes).ends
scan-Lines at [] h = scan-nothing at (omega arith)
scan-Lines at (b ∷ []) h =
    let nothing = scan-nothing (at + 1) (omega arith) in
    elim (Bool-cases (b == 13 || b == 10)) [
      | inl e ↦ rw (scan_end at b e) (
          empty_line at (at + 1) (b ∷ []) [] (scan (at + 1) []) (break_of b [] e (ground arith))
            (omega arith) (omega arith) (omega arith) nothing)
      | inr e ↦
          rw (scan_end_on at b e) (
            longer at b [] (scan (at + 1) []).starts (scan (at + 1) []).ends (ground arith) nothing)
    ]
scan-Lines at (b ∷ c ∷ bytes) h =
    let pair = scan-Lines (at + 2) bytes (omega arith) in
    let single = scan-Lines (at + 1) (c ∷ bytes) (omega arith) in
    elim (Bool-cases (b == 13 && c == 10)) [
      | inl two ↦
          rw (scan_pair at b c bytes two)
            (pair_line at b c bytes (ground arith) (ground arith) (omega arith) pair)
      | inr no_pair ↦ elim (Bool-cases (b == 13 || b == 10)) [
        | inl one ↦ rw (scan_break at b c bytes no_pair one) (
            empty_line at (at + 1) (b ∷ []) (c ∷ bytes) (scan (at + 1) (c ∷ bytes))
              (break_of b (c ∷ bytes) one no_pair) (omega arith) (omega arith) (omega arith) single)
        | inr none_here ↦ rw (scan_on at b c bytes no_pair none_here) (
            longer at b (c ∷ bytes) (scan (at + 1) (c ∷ bytes)).starts
              (scan (at + 1) (c ∷ bytes)).ends (ground arith) single)
      ]
    ]

-- The index of a text cuts it into the lines between its line breaks: the first line starts at 0,
-- no line holds a CR or an LF, each line ends where a CR LF, an LF or a lone CR begins, the next one
-- starts right after that break, and the last one ends with the text.
pub new-Lines :
    (text : List ℕ) (index : LineIndex)
    → new text ≡ ok index
    → (ss : List ℕ) × (index.starts ≡ 0 ∷ ss) × Lines 0 text ss index.ends
unfolding new
new-Lines text index e =
    let small : length text ≤ u32_max = ground arith in
    let lines = scan-Lines 0 text (omega arith) in
    let starts : index.starts ≡ 0 ∷ (scan 0 text).starts = ground arith in
    let ends : index.ends ≡ (scan 0 text).ends = ground arith in
    ((scan 0 text).starts, starts, subst (Lines 0 text (scan 0 text).starts) (sym ends) lines)
