-- ===== src/SourceRange.antt =====
-- crates/telora-wasm-shared/src/source_range.rs: a source byte range packed into one u64, with
-- 14 bits of source id and two offsets of 25 bits.
pub mod Packing
mod Examples
use telora.Common.{
  ℕ, ◌+◌, ◌-◌, ◌*◌, ◌/◌, ◌%◌, ◌^◌, ◌≤◌, ◌<◌, ◌≡◌, Bool, ◌||◌, Option, none, some, List, [], ◌∷◌,
  bit_or, bit_and, leb, ltb, if◌then◌else◌, length, take,
}
use telora.Common.Bytes.{to_le_bytes, from_le_bytes}

abbrev pub source_bits : ℕ
source_bits = 14

abbrev pub offset_bits : ℕ
offset_bits = 25

abbrev pub source_limit : ℕ
source_limit = 2 ^ source_bits

abbrev pub offset_limit : ℕ
offset_limit = 2 ^ offset_bits

-- The bytes of a packed range.
abbrev pub range_bytes : ℕ
range_bytes = 8

pub record SourceRange : Type 0 where
  pub source : ℕ
  pub start : ℕ
  pub end : ℕ

pub checked : ℕ → ℕ → ℕ → ℕ → Option SourceRange
checked source start end source_len =
    if leb source_limit source
      || leb offset_limit start
      || leb offset_limit end
      || ltb end start
      || ltb source_len end
    then none
    else some (record { source = source; start = start; end = end })

-- `<<` on a u64 drops the bits past the word.
abbrev shl64 : ℕ → ℕ → ℕ
shl64 x k = x * 2 ^ k % 2 ^ 64

pub packed : SourceRange → ℕ
packed r = bit_or (bit_or (shl64 r.source (offset_bits * 2)) (shl64 r.start offset_bits)) r.end

pub encode : SourceRange → List ℕ
encode r = to_le_bytes range_bytes (packed r)

-- `as u32` keeps the low 32 bits.
pub unpack : ℕ → Option SourceRange
unpack word =
    let r : SourceRange = record {
      source = word / 2 ^ (offset_bits * 2) % 2 ^ 32;
      start = bit_and (word / 2 ^ offset_bits) (offset_limit - 1) % 2 ^ 32;
      end = bit_and word (offset_limit - 1) % 2 ^ 32;
    } in
    if leb r.start r.end then some r else none

pub decode : List ℕ → ℕ → Option SourceRange
decode bytes source_len =
    if ltb (length bytes) range_bytes
    then none
    else elim (unpack (from_le_bytes (take range_bytes bytes))) [
      | none ↦ none
      | some r ↦ checked r.source r.start r.end source_len
    ]
