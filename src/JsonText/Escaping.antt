-- ===== src/JsonText/Escaping.antt =====
-- The quoted form of json_text.rs, read back by the rules of JSON.
use mathlib.Core.Path.{subst}
use telora.Common.{
  append_assoc, append-nil, ℕ, zero, suc, ◌+◌, ◌-◌, ◌*◌, ◌/◌, ◌%◌, ◌≤◌, ◌<◌, ◌≡◌, refl, sym, ap,
  ◌∙◌, ◌≢◌, ◌⊎◌, inl, inr, true, ◌&&◌, ◌||◌, Option, none, some, List, [], ◌∷◌, ◌++◌, arith, ltb,
  leb, ◌==◌, if◌then◌else◌, leb→le, ==→eq, Bool-cases, Option-cases, All,
}
use telora.JsonText.{hex_digit, escape_of, write_escaped, quoted}

-- A reader of JSON string literals, one byte at a time: in the text, after a backslash, or with some
-- more digits to read after the next one and the value so far.
pub data Mode : Type 0 where
  plain escaped : Mode
  hex : (left value : ℕ) → Mode

abbrev pub hex_value : ℕ → Option ℕ
hex_value c =
    if leb 48 c && leb c 57
    then some (c - 48)
    else if leb 97 c && leb c 102
    then some (c - 87)
    else none

-- The byte that a one-letter escape stands for.
abbrev pub unescaped : ℕ → Option ℕ
unescaped c =
    if c == 34 || c == 92 || c == 47
    then some c
    else if c == 98
    then some 8
    else if c == 102
    then some 12
    else if c == 110
    then some 10
    else if c == 114
    then some 13
    else if c == 116
    then some 9
    else none

-- A byte before what is read of the rest.
abbrev pub prefix : ℕ → Option (List ℕ × List ℕ) → Option (List ℕ × List ℕ)
prefix b none = none
prefix b (some (s, rest)) = some (b ∷ s, rest)

-- The content up to the closing quote, and what follows it.
pub read : Mode → List ℕ → Option (List ℕ × List ℕ)
read mode [] = none
read plain (b ∷ bs) =
    let next = read plain bs in
    let after = read escaped bs in
    if b == 34
    then some ([], bs)
    else if b == 92
    then after
    else if ltb b 32
    then none
    else prefix b next
read escaped (b ∷ bs) =
    let next = read plain bs in
    let digits = read (hex 3 0) bs in
    if b == 117 then digits else elim (unescaped b) [ none ↦ none | some c ↦ prefix c next ]
read (hex zero value) (b ∷ bs) =
    let next = read plain bs in
    elim (hex_value b) [
      | none ↦ none
      | some d ↦ if ltb (value * 16 + d) 128 then prefix (value * 16 + d) next else none
    ]
read (hex (suc left) value) (b ∷ bs) = elim (hex_value b) [
  | none ↦ none
  | some d ↦ read (hex left (value * 16 + d)) bs
]

-- The escaped form of one byte and of a list of bytes.
abbrev pub escaped_byte : ℕ → List ℕ
escaped_byte b = elim (escape_of b) [ none ↦ b ∷ [] | some escape ↦ escape ]

abbrev pub escaped_bytes : List ℕ → List ℕ
escaped_bytes [] = []
escaped_bytes (b ∷ bs) = escaped_byte b ++ escaped_bytes bs

-- The runs of the loop add up to the bytes' own escapes.
write_escaped-bytes :
    (output run bytes : List ℕ)
    → write_escaped output run bytes ≡ output ++ (run ++ escaped_bytes bytes)
unfolding write_escaped
write_escaped-bytes output run [] = sym (ap (λ (t : List ℕ). output ++ t) (append-nil run))
write_escaped-bytes output run (b ∷ bytes) = elim (Option-cases (escape_of b)) [
  | inl e ↦
      let single : escaped_byte b ≡ b ∷ [] = rw (e, escaped_byte) refl in
      rw (e, write_escaped, single, write_escaped-bytes output (run ++ b ∷ []) bytes)
        (ap (λ (t : List ℕ). output ++ t) (append_assoc run (b ∷ []) (escaped_bytes bytes)))
  | inr (escape, e) ↦
      let whole : escaped_byte b ≡ escape = rw (e, escaped_byte) refl in
      rw (e, write_escaped, whole, write_escaped-bytes ((output ++ run) ++ escape) [] bytes)
        (append_assoc (output ++ run) escape (escaped_bytes bytes)
          ∙ append_assoc output run (escape ++ escaped_bytes bytes))
]

hex_value-hex_digit : (d : ℕ) → d < 16 → hex_value (hex_digit d) ≡ some d
hex_value-hex_digit d h = ground arith

abbrev Recovered : ℕ → List ℕ → Type 0
Recovered b rest = read plain (escaped_byte b ++ rest) ≡ prefix b (read plain rest)

-- Two hexadecimal digits after two zeros.
read-hex :
    (b : ℕ) (rest : List ℕ)
    → b < 32
    → read plain (92 ∷ 117 ∷ 48 ∷ 48 ∷ hex_digit (b / 16) ∷ hex_digit (b % 16) ∷ rest)
      ≡ prefix b (read plain rest)
unfolding read
read-hex b rest h =
    let high = hex_value-hex_digit (b / 16) (omega arith) in
    let low = hex_value-hex_digit (b % 16) (omega arith) in
    let sum : (0 + b / 16) * 16 + b % 16 ≡ b = omega arith in
    let small : ltb b 128 ≡ true = ground arith in rw (high, read, low, sum, small) refl

-- The bytes with an escape of one letter.
abbrev letters : List ℕ
letters = 34 ∷ 92 ∷ 10 ∷ 13 ∷ 9 ∷ 8 ∷ 12 ∷ []

read-letters : (rest : List ℕ) → All (λ c. Recovered c rest) letters
unfolding read escape_of
read-letters rest = (refl, (refl, (refl, (refl, (refl, (refl, (refl, tt)))))))

found_or_absent :
    (b : ℕ) (rest cs : List ℕ)
    → All (λ c. Recovered c rest) cs
    → Recovered b rest ⊎ All (λ c. b ≢ c) cs
found_or_absent b rest [] h = inr tt
found_or_absent b rest (c ∷ cs) h = elim (Bool-cases (b == c)) [
  | inl e ↦ inl (subst (λ k. Recovered k rest) (sym (==→eq b c e)) h.0)
  | inr e ↦ elim (found_or_absent b rest cs h.1) [
    | inl done ↦ inl done
    | inr absent ↦ inr (ground arith, absent)
  ]
]

escape_of-rest :
    (b : ℕ)
    → All (λ c. b ≢ c) letters
    → escape_of b ≡ (
        if leb b 31
        then some (92 ∷ 117 ∷ 48 ∷ 48 ∷ hex_digit (b / 16) ∷ hex_digit (b % 16) ∷ [])
        else none)
unfolding escape_of
escape_of-rest b a =
    let (a1, (a2, (a3, (a4, (a5, (a6, (a7, _))))))) = a in
    ground (arith, a1, a2, a3, a4, a5, a6, a7)

read-escaped_byte : (b : ℕ) (rest : List ℕ) → Recovered b rest
unfolding read
read-escaped_byte b rest = elim (found_or_absent b rest letters (read-letters rest)) [
  | inl done ↦ done
  | inr a ↦ elim (Bool-cases (leb b 31)) [
    | inl e ↦
        rw (escape_of-rest b a, e, escaped_byte) (read-hex b rest (omega (arith, leb→le b 31 e)))
    | inr e ↦
        let single : escaped_byte b ≡ b ∷ [] = rw (escape_of-rest b a, e, escaped_byte) refl in
        let (quote, (backslash, _)) = a in rw single (ground (arith, e, quote, backslash))
  ]
]

read-escaped_bytes :
    (bs rest : List ℕ) → read plain (escaped_bytes bs ++ 34 ∷ rest) ≡ some (bs, rest)
unfolding read
read-escaped_bytes [] rest = refl
read-escaped_bytes (b ∷ bs) rest =
    rw
      (
        append_assoc (escaped_byte b) (escaped_bytes bs) (34 ∷ rest),
        read-escaped_byte b (escaped_bytes bs ++ 34 ∷ rest),
        read-escaped_bytes bs rest,
      )
      refl

no_control-escaped : (b : ℕ) → All (λ c. 32 ≤ c) (escaped_byte b)
unfolding escape_of
no_control-escaped b = ground arith

All-append :
    (xs ys : List ℕ) → All (λ c. 32 ≤ c) xs → All (λ c. 32 ≤ c) ys → All (λ c. 32 ≤ c) (xs ++ ys)
All-append [] ys h k = k
All-append (x ∷ xs) ys h k = (h.0, All-append xs ys h.1 k)

no_control-bytes : (bs : List ℕ) → All (λ c. 32 ≤ c) (escaped_bytes bs)
no_control-bytes [] = tt
no_control-bytes (b ∷ bs) =
    All-append (escaped_byte b) (escaped_bytes bs) (no_control-escaped b) (no_control-bytes bs)

pub quoted-bytes :
    (output input : List ℕ) → quoted output input ≡ output ++ 34 ∷ (escaped_bytes input ++ 34 ∷ [])
unfolding quoted
quoted-bytes output input = rw (write_escaped-bytes (output ++ 34 ∷ []) [] input) (
    append_assoc (output ++ 34 ∷ []) (escaped_bytes input) (34 ∷ [])
    ∙ append_assoc output (34 ∷ []) (escaped_bytes input ++ 34 ∷ []))

-- Quoting appends a quote and then a literal without control bytes, which a JSON reader ends at its
-- closing quote, whatever follows, with exactly the bytes of the input.
pub read-quoted :
    (output input rest : List ℕ)
    → (literal : List ℕ) × (quoted output input ≡ output ++ 34 ∷ literal)
      × All (λ c. 32 ≤ c) literal
      × (read plain (literal ++ rest) ≡ some (input, rest))
read-quoted output input rest = (
  escaped_bytes input ++ 34 ∷ [],
  quoted-bytes output input,
  All-append (escaped_bytes input) (34 ∷ []) (no_control-bytes input) (omega arith, tt),
  rw (append_assoc (escaped_bytes input) (34 ∷ []) rest) (read-escaped_bytes input rest),
)
