-- ===== src/Content.antt =====
-- crates/telora-wasm-shared/src/arena/content.rs: the 16-byte view of a string or byte value, which
-- holds up to 15 bytes inline or refers to a slice of raw storage.
pub mod RoundTrip
mod Examples
use telora.Common.{
  ℕ, zero, suc, ◌+◌, ◌-◌, ◌*◌, ◌/◌, ◌%◌, ◌^◌, ◌≤◌, ◌<◌, min, max, bit_and, bit_or, bit_xor, ◌≡◌,
  refl, sym, ap, ◌∙◌, ◌≢◌, ◌↔◌, ◌⊎◌, inl, inr, Bool, true, false, not, ◌&&◌, ◌||◌, Option, none,
  some, List, [], ◌∷◌, ◌++◌, map, arith, ltb, leb, ◌==◌, if◌then◌else◌, ltb→lt, lt→ltb, leb→le,
  le→leb, not_leb→lt, ==→eq, ==-self, tests, Bool-cases, Option-cases, length, get_elem?, get_or,
  set, take, drop, replicate, All, length-append, length-set, length-take, length-drop,
  length-replicate, take-append, drop-append, take-append-drop, get_elem?-set_self,
  get_elem?-set_ne, get_elem?-append_left, get_elem?-append_last, get_elem?-lt, get_elem?-ge,
  get_elem?-some, get_elem?-take, take-set, take-take, take-append_short, take-all, Result, u32_max,
  u64_max, usize_max, checked_add, checked_mul, ok_or, ok, err,
}
use telora.Common.Bytes.{to_le_bytes, from_le_bytes}

-- `arena::Error`.
pub data Error : Type 0 where
  overflow bounds phase : Error

pub record Slice : Type 0 where
  pub start : ℕ
  pub end : ℕ
  pub raw : ℕ

pub data Bytes : Type 0 where
  inline : (data15 : List ℕ) (len : ℕ) → Bytes
  slice : Slice → Bytes

-- A slice without storage, reversed, or short enough to be held inline.
pub is_bad : Slice → Bool
is_bad s = s.raw == 0 || ltb s.end s.start || ltb (s.end - s.start) 16

pub encode : Bytes → Result (List ℕ) Error
unfolding is_bad
encode (inline data15 len) =
    if leb 16 len then err bounds else ok ((take len data15 ++ replicate (15 - len) 0) ++ len ∷ [])
encode (slice s) =
    if is_bad s
    then err bounds
    else ok (
        to_le_bytes 4 s.raw
        ++ (to_le_bytes 4 s.start ++ (to_le_bytes 4 s.end ++ (0 ∷ 0 ∷ 0 ∷ 16 ∷ []))))

-- `u32::from_le_bytes(bytes[at..at + 4])`
pub word : ℕ → List ℕ → ℕ
word at bytes = from_le_bytes (take 4 (drop at bytes))

-- The slice case: the three spare bytes are zero, and the slice is a good one.
pub decode_slice : List ℕ → Result Bytes Error
unfolding is_bad word
decode_slice bytes =
    let s : Slice = record { raw = word 0 bytes; start = word 4 bytes; end = word 8 bytes } in
    if not (get_or bytes 12 0 == 0 && get_or bytes 13 0 == 0 && get_or bytes 14 0 == 0)
    then err bounds
    else if is_bad s
    then err bounds
    else ok (slice s)

-- `bytes` has 16 entries.
pub decode : List ℕ → Result Bytes Error
unfolding decode_slice
decode bytes =
    let tag = get_or bytes 15 0 in
    if leb tag 15
    then ok (inline (take 15 bytes) tag)
    else if tag == 16
    then decode_slice bytes
    else err bounds
