-- ===== src/LineIndex/Scan.antt =====
-- The lines that the scan of coordinates.rs finds tile the text.
use mathlib.Core.Path.{subst}
use telora.Common.{
  ℕ, ◌+◌, ◌%◌, ◌^◌, ◌≤◌, ◌<◌, ◌≡◌, refl, inl, inr, true, false, ◌&&◌, ◌||◌, List, [], ◌∷◌, arith,
  ◌==◌, Bool-cases, length, u32_max, ok,
}
use telora.LineIndex.{LineIndex, u32, scan, break_at, new}

-- Each line ends before the next begins, with a break of one or two bytes between them, and the
-- last line ends at `top`.
abbrev pub Tiled : List ℕ → List ℕ → ℕ → Type 0
Tiled [] es top = ⊥
Tiled (s ∷ ss) [] top = ⊥
Tiled (s ∷ []) (e ∷ es) top = (s ≤ e) × (e ≡ top) × (es ≡ [])
Tiled (s ∷ t ∷ ss) (e ∷ es) top = (s ≤ e) × (e < t) × (t ≤ e + 2) × Tiled (t ∷ ss) es top

first_lower :
    (s r : ℕ) (ss es : List ℕ) (top : ℕ) → r ≤ s → Tiled (s ∷ ss) es top → Tiled (r ∷ ss) es top
first_lower s r ss [] top h t = absurd t
first_lower s r [] (e ∷ es) top h t = (omega arith, t.1, t.2)
first_lower s r (u ∷ ss) (e ∷ es) top h t = (omega arith, t.1, t.2, t.3)

-- Within the range of u32 the casts change nothing.
pub break_at-fits :
    (at t : ℕ) (rest : LineIndex)
    → at < t
    → t ≤ u32_max
    → break_at at t rest ≡ record { starts = t ∷ rest.starts; ends = at ∷ rest.ends }
unfolding break_at
break_at-fits at t rest lt fits =
    let at_fits : at % 2 ^ 32 ≡ at = omega arith in
    let t_fits : t % 2 ^ 32 ≡ t = omega arith in
    λ i. record { starts = t_fits i ∷ rest.starts; ends = at_fits i ∷ rest.ends }

broken :
    (at t top : ℕ) (rest : LineIndex)
    → at < t
    → t ≤ at + 2
    → t ≤ u32_max
    → Tiled (t ∷ rest.starts) rest.ends top
    → Tiled (at ∷ (break_at at t rest).starts) (break_at at t rest).ends top
broken at t top rest lt le fits h =
    rw (break_at-fits at t rest lt fits) (omega arith, omega arith, omega arith, h)

abbrev Scanned : ℕ → ℕ → LineIndex → Type 0
Scanned at top index = Tiled (at ∷ index.starts) index.ends top

pub scan_pair :
    (at b c : ℕ) (bytes : List ℕ)
    → (b == 13 && c == 10) ≡ true
    → scan at (b ∷ c ∷ bytes) ≡ break_at at (at + 2) (scan (at + 2) bytes)
unfolding scan
scan_pair at b c bytes e = rw (e, scan)

pub scan_break :
    (at b c : ℕ) (bytes : List ℕ)
    → (b == 13 && c == 10) ≡ false
    → (b == 13 || b == 10) ≡ true
    → scan at (b ∷ c ∷ bytes) ≡ break_at at (at + 1) (scan (at + 1) (c ∷ bytes))
unfolding scan
scan_break at b c bytes e f = rw (e, f, scan)

pub scan_on :
    (at b c : ℕ) (bytes : List ℕ)
    → (b == 13 && c == 10) ≡ false
    → (b == 13 || b == 10) ≡ false
    → scan at (b ∷ c ∷ bytes) ≡ scan (at + 1) (c ∷ bytes)
unfolding scan
scan_on at b c bytes e f = rw (e, f, scan)

scan_one : (at b : ℕ) → at + 1 ≤ u32_max → Scanned at (at + 1) (scan at (b ∷ []))
unfolding scan
scan_one at b h =
    let rest : LineIndex = record { starts = []; ends = u32 (at + 1) ∷ [] } in
    let last : Scanned (at + 1) (at + 1) rest = (omega arith, omega arith, refl) in
    elim (Bool-cases (b == 13 || b == 10)) [
      | inl e ↦ rw (e, scan) (broken at (at + 1) (at + 1) rest (omega arith) (omega arith) h last)
      | inr e ↦ rw (e, scan) (omega arith, omega arith, refl)
    ]

-- From `at` on, the first line starts at `at` and the last one ends with the text.
scan-Tiled :
    (at : ℕ) (bytes : List ℕ) (top : ℕ)
    → at + length bytes ≡ top
    → top ≤ u32_max
    → Scanned at top (scan at bytes)
scan-Tiled at [] top e h = unfold scan in (omega arith, omega arith, refl)
scan-Tiled at (b ∷ []) top e h =
    let whole : at + 1 ≡ top = omega arith in
    subst (λ (n : ℕ). Scanned at n (scan at (b ∷ []))) whole (scan_one at b (omega arith))
scan-Tiled at (b ∷ c ∷ bytes) top e h =
    let pair = scan-Tiled (at + 2) bytes top (omega arith) h in
    let single = scan-Tiled (at + 1) (c ∷ bytes) top (omega arith) h in
    elim (Bool-cases (b == 13 && c == 10)) [
      | inl two ↦ rw (scan_pair at b c bytes two) (
          broken at (at + 2) top (scan (at + 2) bytes) (omega arith) (omega arith) (omega arith)
            pair)
      | inr no_pair ↦ elim (Bool-cases (b == 13 || b == 10)) [
        | inl one ↦ rw (scan_break at b c bytes no_pair one) (
            broken at (at + 1) top (scan (at + 1) (c ∷ bytes)) (omega arith) (omega arith)
              (omega arith) single)
        | inr none_here ↦ rw (scan_on at b c bytes no_pair none_here) (
            first_lower (at + 1) at (scan (at + 1) (c ∷ bytes)).starts
              (scan (at + 1) (c ∷ bytes)).ends top (omega arith) single)
      ]
    ]

-- The index of a text, taken apart.
pub new_lines :
    (text : List ℕ) (index : LineIndex)
    → new text ≡ ok index
    → (ss : List ℕ) × (es : List ℕ) × (index ≡ record { starts = 0 ∷ ss; ends = es })
      × Tiled (0 ∷ ss) es (length text)
      × (length text ≤ u32_max)
unfolding new
new_lines text index e =
    let small : length text ≤ u32_max = ground arith in
    (
      (scan 0 text).starts,
      (scan 0 text).ends,
      ground arith,
      scan-Tiled 0 text (length text) (omega arith) small,
      small,
    )
