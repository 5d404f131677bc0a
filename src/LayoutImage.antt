-- ===== src/LayoutImage.antt =====
-- crates/telora-wasm-shared/src/layout_image.rs: the table of physical layouts, as code generation writes
-- it and the tracing and sealing code reads it. An image is a list of bytes.
pub mod Closed
mod Examples
use telora.Common.{
  ℕ, zero, suc, ◌+◌, ◌-◌, ◌*◌, ◌/◌, ◌%◌, ◌^◌, ◌≤◌, ◌<◌, min, max, bit_and, bit_or, bit_xor, ◌≡◌,
  refl, sym, ap, ◌∙◌, ◌≢◌, ◌↔◌, ◌⊎◌, inl, inr, Bool, true, false, not, ◌&&◌, ◌||◌, Option, none,
  some, List, [], ◌∷◌, ◌++◌, map, append_assoc, append-nil, arith, ltb, leb, ◌==◌, if◌then◌else◌,
  ltb→lt, lt→ltb, leb→le, le→leb, not_leb→lt, ==→eq, ==-self, tests, Bool-cases, Option-cases,
  length, get_elem?, get_or, set, take, drop, splice, replicate, All, length-append, length-set,
  length-take, length-drop, length-replicate, take-append, drop-append, take-append-drop,
  get_elem?-set_self, get_elem?-set_ne, get_elem?-append_left, get_elem?-append_last, get_elem?-lt,
  get_elem?-ge, get_elem?-some, get_elem?-take, take-set, take-take, take-append_short, take-all,
  length-splice, read-splice, Result, u32_max, u64_max, usize_max, checked_add, checked_mul, ok_or,
  ◌>>=◌, Yields, Yields-bind, ok, err,
}
use telora.Common.Bytes.{from_le_bytes}

abbrev pub entry_bytes : ℕ
entry_bytes = 32

abbrev pub detail_bytes : ℕ
detail_bytes = 12

-- `NO_TYPE` and `NO_RESOURCE`.
abbrev pub no_id : ℕ
no_id = 2 ^ 32 - 1

pub data Kind : Type 0 where
  scalar string bytes record_kind array dict enum_kind dyn function resource newtype compile_time :
      Kind
  inline_record inline_newtype : Kind

-- `Option::and_then`, the `?` on options.
abbrev pub and_then {ℓ κ} : {A : Type ℓ} {B : Type κ} → Option A → (A → Option B) → Option B
and_then none f = none
and_then (some a) f = f a

abbrev pub kinds : List Kind
kinds =
    scalar ∷ string ∷ bytes ∷ record_kind ∷ array ∷ dict ∷ enum_kind ∷ dyn ∷ function ∷ resource
    ∷ newtype ∷ compile_time ∷ inline_record ∷ inline_newtype ∷ []

pub decode_kind : ℕ → Option Kind
decode_kind value = get_elem? kinds value

abbrev pub is_compile_time : Kind → Bool
is_compile_time compile_time = true
is_compile_time _ = false

-- `!=` on Booleans.
abbrev pub differ : Bool → Bool → Bool
differ true b = not b
differ false b = b

-- `is_power_of_two`, with the exponents that are left.
abbrev pub is_power_below : ℕ → ℕ → Bool
is_power_below zero w = false
is_power_below (suc k) w = w == 2 ^ k || is_power_below k w

abbrev pub is_power_of_two : ℕ → Bool
is_power_of_two w = is_power_below 32 w

pub record Entry : Type 0 where
  pub kind : Kind
  pub value_bytes : ℕ
  pub data_bytes : ℕ
  pub alignment : ℕ
  pub resource_table : Option ℕ
  pub detail_offset : ℕ
  pub detail_count : ℕ
  pub flags : ℕ

-- The closure `word` of both decoders.
pub word_at : List ℕ → (base offset : ℕ) → Option ℕ
word_at image base offset = and_then (checked_add usize_max base offset) λ at.
    if leb (at + 4) (length image) then some (from_le_bytes (take 4 (drop at image))) else none

-- `(id != NO_TYPE).then_some(id)`
abbrev pub present_id : ℕ → Option ℕ
present_id id = if id == no_id then none else some id

-- The end of the details, where it is in the image and the entry is consistent.
pub check_entry : List ℕ → Entry → Option Entry
check_entry image e = and_then (checked_mul u32_max e.detail_count detail_bytes) λ size.
    and_then (checked_add u32_max e.detail_offset size) λ details.
      if differ (e.value_bytes == 0) (is_compile_time e.kind)
        || not (is_power_of_two e.alignment)
        || ltb (length image) details
      then none
      else some e

pub decode_entry : List ℕ → ℕ → Option Entry
decode_entry image type_id = and_then (checked_mul u32_max type_id entry_bytes) λ base.
    and_then (word_at image base 0) λ tag. and_then (decode_kind tag) λ kind.
      and_then (word_at image base 16) λ resource_id. and_then (word_at image base 4) λ value_bytes.
        and_then (word_at image base 8) λ data_bytes. and_then (word_at image base 12) λ alignment.
          and_then (word_at image base 20) λ detail_offset.
            and_then (word_at image base 24) λ detail_count.
              and_then (word_at image base 28) λ flags. check_entry image (record {
                kind = kind;
                value_bytes = value_bytes;
                data_bytes = data_bytes;
                alignment = alignment;
                resource_table = present_id resource_id;
                detail_offset = detail_offset;
                detail_count = detail_count;
                flags = flags;
              })

pub record Detail : Type 0 where
  pub ty : Option ℕ
  pub offset_or_tag : ℕ
  pub flags : ℕ

pub decode_detail : List ℕ → Entry → ℕ → Option Detail
decode_detail image entry index =
    if leb entry.detail_count index
    then none
    else and_then (checked_mul u32_max index detail_bytes) λ step.
      and_then (checked_add u32_max entry.detail_offset step) λ base.
        and_then (word_at image base 0) λ ty. and_then (word_at image base 4) λ offset_or_tag.
          and_then (word_at image base 8) λ flags.
            some (record { ty = present_id ty; offset_or_tag = offset_or_tag; flags = flags })
