-- ===== src/LineIndex/Examples.antt =====
-- Runs of the line index at concrete texts.
use telora.Common.{ℕ, ◌+◌, ◌*◌, ◌^◌, ◌≤◌, ◌≡◌, refl, none, some, List, [], ◌∷◌, arith, length, ok}
use telora.LineIndex.{LineIndex, new, break_at, scan, point, position, byte, byte_at}
use telora.LineIndex.Breaks.{Lines, new-Lines}
use telora.LineIndex.Points.{point-byte}

-- "ab", CR LF, "c", LF, "d"
abbrev text : List ℕ
text = 97 ∷ 98 ∷ 13 ∷ 10 ∷ 99 ∷ 10 ∷ 100 ∷ []

abbrev lines : LineIndex
lines = record { starts = 0 ∷ 4 ∷ 6 ∷ []; ends = 2 ∷ 5 ∷ 7 ∷ [] }

lines_of_text : new text ≡ ok lines
unfolding new scan break_at
lines_of_text = refl

-- The second byte of the third line is past its end.
past_the_end : byte lines (2 * 2 ^ 32 + 2) ≡ none
unfolding byte byte_at position
past_the_end = refl

second_line : byte lines (2 ^ 32 + 1) ≡ some 5
unfolding byte byte_at position
second_line = refl

point-byte_example : (point lines 5 ≡ 2 ^ 32 + 1) × (5 ≤ length text)
point-byte_example = point-byte text lines (2 ^ 32 + 1) 5 lines_of_text (omega arith) second_line

new-Lines_example : (ss : List ℕ) × (lines.starts ≡ 0 ∷ ss) × Lines 0 text ss lines.ends
new-Lines_example = new-Lines text lines lines_of_text
