-- ===== src/LineIndex.antt =====
-- crates/telora-data/src/source/coordinates.rs: the line index of a source text and the packed
-- line and column coordinates. A text is the list of its bytes.
pub mod Scan
pub mod Breaks
pub mod Interior
pub mod Points
pub mod Locations
mod Examples
use telora.Common.{
  ℕ, zero, suc, ◌+◌, ◌-◌, ◌*◌, ◌/◌, ◌%◌, ◌^◌, ◌≤◌, ◌<◌, min, max, bit_and, bit_or, bit_xor, ◌≡◌,
  refl, sym, ap, ◌∙◌, ◌≢◌, ◌↔◌, ◌⊎◌, inl, inr, Bool, true, false, not, ◌&&◌, ◌||◌, Option, none,
  some, List, [], ◌∷◌, ◌++◌, map, arith, ltb, leb, ◌==◌, if◌then◌else◌, ltb→lt, lt→ltb, leb→le,
  le→leb, not_leb→lt, ==→eq, ==-self, tests, Bool-cases, Option-cases, length, get_elem?, get_or,
  set, take, drop, replicate, All, length-append, length-set, length-take, length-drop,
  length-replicate, take-append, drop-append, take-append-drop, get_elem?-set_self,
  get_elem?-set_ne, get_elem?-append_left, get_elem?-append_last, get_elem?-lt, get_elem?-ge,
  get_elem?-some, get_elem?-take, take-set, take-take, take-append_short, take-all, Result, u32_max,
  u64_max, usize_max, checked_add, checked_mul, ok_or, ok, err,
}

pub data LocationError : Type 0 where
  coordinate_capacity source_too_large : LocationError

pub record LineIndex : Type 0 where
  pub starts : List ℕ
  pub ends : List ℕ

-- `as u32`
abbrev pub u32 : ℕ → ℕ
u32 n = n % 2 ^ 32

abbrev cr : ℕ
cr = 13

abbrev lf : ℕ
lf = 10

-- One line more: its end, and the start of the next.
pub break_at : (end start : ℕ) → LineIndex → LineIndex
break_at end start rest = record { starts = u32 start ∷ rest.starts; ends = u32 end ∷ rest.ends }

-- The loop over the bytes from `at` on: the starts after the first, and all ends.
pub scan : ℕ → List ℕ → LineIndex
unfolding break_at
scan at [] = record { starts = []; ends = u32 at ∷ [] }
scan at (b ∷ []) =
    let rest = scan (at + 1) [] in if b == cr || b == lf then break_at at (at + 1) rest else rest
scan at (b ∷ c ∷ bytes) =
    let pair = scan (at + 2) bytes in
    let single = scan (at + 1) (c ∷ bytes) in
    if b == cr && c == lf
    then break_at at (at + 2) pair
    else if b == cr || b == lf
    then break_at at (at + 1) single
    else single

pub new : List ℕ → Result LineIndex LocationError
unfolding scan
new text =
    if ltb u32_max (length text)
    then err source_too_large
    else let rest = scan 0 text in ok (record { starts = 0 ∷ rest.starts; ends = rest.ends })

-- `starts.partition_point(|&start| start <= byte)`
pub partition_point : ℕ → List ℕ → ℕ
partition_point byte [] = 0
partition_point byte (s ∷ ss) = if leb s byte then suc (partition_point byte ss) else 0

-- Packed as the line in the high and the column in the low 32 bits.
pub point : LineIndex → ℕ → ℕ
point index byte =
    let line = partition_point byte index.starts - 1 in
    bit_or (line * 2 ^ 32 % 2 ^ 64)
      (min byte (get_or index.ends line 0) - get_or index.starts line 0)

pub position : ℕ → ℕ × ℕ
position p = (p / 2 ^ 32 % 2 ^ 32, p % 2 ^ 32)

pub byte_at : LineIndex → ℕ × ℕ → Option ℕ
byte_at index (line, column) = elim (get_elem? index.starts line) [
  | none ↦ none
  | some start ↦ elim (get_elem? index.ends line) [
    | none ↦ none
    | some end ↦ if leb column (end - start) then some (start + column) else none
  ]
]

pub byte : LineIndex → ℕ → Option ℕ
unfolding byte_at
byte index p = byte_at index (position p)

-- Five u32 words: the source, and the two halves of each point.
pub record SourceCoordinates : Type 0 where
  pub word0 : ℕ
  pub word1 : ℕ
  pub word2 : ℕ
  pub word3 : ℕ
  pub word4 : ℕ

pub coordinates : ℕ → ℕ → ℕ → Result SourceCoordinates LocationError
coordinates source start end =
    if source == 0 || ltb end start
    then err coordinate_capacity
    else ok (record {
      word0 = source;
      word1 = u32 (start / 2 ^ 32);
      word2 = u32 start;
      word3 = u32 (end / 2 ^ 32);
      word4 = u32 end;
    })

pub start_point : SourceCoordinates → ℕ
start_point c = bit_or (c.word1 * 2 ^ 32) c.word2

pub end_point : SourceCoordinates → ℕ
end_point c = bit_or (c.word3 * 2 ^ 32) c.word4

-- A location packed: `SourceCoordinates::new(source, self.point(start), self.point(end))`.
pub pack : LineIndex → ℕ → ℕ → ℕ → Result SourceCoordinates LocationError
pack index source start end = coordinates source (point index start) (point index end)

-- `SourceFile::byte_location` of source.rs, for the file with the given source id.
pub byte_location : ℕ → LineIndex → SourceCoordinates → Option (ℕ × ℕ)
byte_location id index c =
    if not (c.word0 == id) || ltb (end_point c) (start_point c)
    then none
    else elim (byte index (start_point c)) [
      | none ↦ none
      | some start ↦ elim (byte index (end_point c)) [ none ↦ none | some end ↦ some (start, end) ]
    ]
