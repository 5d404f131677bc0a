-- ===== src/JsonText/Examples.antt =====
-- Runs of json_text.rs at concrete texts.
use telora.Common.{ℕ, ◌≤◌, ◌≡◌, refl, true, false, some, List, [], ◌∷◌, ◌++◌, arith, All}
use telora.JsonText.{quoted, write_escaped, escape_of}
use telora.JsonText.Escaping.{plain, read, read-quoted}
use telora.JsonText.Documents.{
  Entries, end, leaf, nest, text, writer, line, left_bracket, right_bracket, write_document,
  write_document-text,
}

-- A quote, a line feed, byte 1 and the letter a.
abbrev mixed : List ℕ
mixed = 34 ∷ 10 ∷ 1 ∷ 97 ∷ []

mixed_text : quoted [] mixed ≡ 34 ∷ 92 ∷ 34 ∷ 92 ∷ 110 ∷ 92 ∷ 117 ∷ 48 ∷ 48 ∷ 48 ∷ 49 ∷ 97 ∷ 34 ∷ []
unfolding quoted write_escaped escape_of
mixed_text = refl

read-quoted_example :
    (literal : List ℕ) × (quoted (91 ∷ []) mixed ≡ (91 ∷ []) ++ 34 ∷ literal)
    × All (λ c. 32 ≤ c) literal
    × (read plain (literal ++ 44 ∷ []) ≡ some (mixed, 44 ∷ []))
read-quoted_example = read-quoted (91 ∷ []) mixed (44 ∷ [])

-- An object with a string and an array of one string.
abbrev entries : Entries
entries = leaf (97 ∷ []) mixed (nest (98 ∷ []) false (leaf [] (99 ∷ []) end) end)

write_document-text_example :
    write_document (some 2) true entries
    ≡ some (
        writer (some 2) 0 (
          left_bracket true
          ++ (text (some 2) 1 true 0 entries ++ (line (some 2) 0 ++ right_bracket true))))
write_document-text_example = write_document-text (some 2) true entries (omega arith) (omega arith)
