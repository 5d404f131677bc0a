-- ===== src/LayoutImage/Examples.antt =====
-- Decoding a small image.
use telora.Common.{ℕ, ◌≡◌, refl, none, some, List, [], ◌∷◌, arith, take}
use telora.LayoutImage.{
  array, Entry, word_at, check_entry, decode_kind, decode_entry, decode_detail,
}
use telora.LayoutImage.Closed.{Gives, Closed, decode_entry-Closed}

-- An array with one detail of its own type, boxed.
abbrev small : List ℕ
small =
    4 ∷ 0 ∷ 0 ∷ 0 ∷ 16 ∷ 0 ∷ 0 ∷ 0 ∷ 8 ∷ 0 ∷ 0 ∷ 0 ∷ 8 ∷ 0 ∷ 0 ∷ 0 ∷ 255 ∷ 255 ∷ 255 ∷ 255 ∷ 32 ∷ 0
    ∷ 0 ∷ 0 ∷ 1 ∷ 0 ∷ 0 ∷ 0 ∷ 0 ∷ 0 ∷ 0 ∷ 0 ∷ 0 ∷ 0 ∷ 0 ∷ 0 ∷ 5 ∷ 0 ∷ 0 ∷ 0 ∷ 1 ∷ 0 ∷ 0 ∷ 0 ∷ []

abbrev small_entry : Entry
small_entry = record {
  kind = array;
  value_bytes = 16;
  data_bytes = 8;
  alignment = 8;
  resource_table = none;
  detail_offset = 32;
  detail_count = 1;
  flags = 0;
}

entry_read : decode_entry small 0 ≡ some small_entry
unfolding decode_entry word_at check_entry decode_kind
entry_read = refl

detail_read :
    decode_detail small small_entry 0 ≡ some (record { ty = some 0; offset_or_tag = 5; flags = 1 })
unfolding decode_detail word_at
detail_read = refl

-- The image ends within the details.
cut_short : decode_entry (take 43 small) 0 ≡ none
unfolding decode_entry word_at check_entry decode_kind
cut_short = refl

decode_entry-Closed_example : Gives (Closed small 0) (decode_entry small 0)
decode_entry-Closed_example = decode_entry-Closed small 0 (omega arith)
