-- ===== src/SnapshotArtifact.antt =====
-- crates/telora-wasm-shared/src/snapshot_artifact.rs: the custom section that carries a snapshot. Bytes
-- and names are lists of bytes; the signed values of globals are their bit patterns, as the artifact has
-- them. `core::str::from_utf8` is a parameter, and `usize::MAX` of the target.
pub mod Layout
pub mod Reading
mod Examples
use telora.Common.{
  ℕ, zero, suc, ◌+◌, ◌-◌, ◌*◌, ◌/◌, ◌%◌, ◌^◌, ◌≤◌, ◌<◌, min, max, bit_and, bit_or, bit_xor, ◌≡◌,
  refl, sym, ap, ◌∙◌, ◌≢◌, ◌↔◌, ◌⊎◌, inl, inr, Bool, true, false, not, ◌&&◌, ◌||◌, Option, none,
  some, List, [], ◌∷◌, ◌++◌, map, append_assoc, append-nil, arith, ltb, leb, ◌==◌, if◌then◌else◌,
  ltb→lt, lt→ltb, leb→le, le→leb, not_leb→lt, ==→eq, ==-self, tests, Bool-cases, Option-cases,
  length, get_elem?, get_or, set, take, drop, splice, replicate, All, length-append, length-set,
  length-take, length-drop, length-replicate, take-append, drop-append, take-append-drop,
  get_elem?-set_self, get_elem?-set_ne, get_elem?-append_left, get_elem?-append_last, get_elem?-lt,
  get_elem?-ge, get_elem?-some, get_elem?-take, take-set, take-take, take-append_short, take-all,
  length-splice, read-splice, Result, u32_max, u64_max, usize_max, checked_add, checked_mul, ok_or,
  ◌>>=◌, ok, err,
}
use telora.Common.Bytes.{to_le_bytes, from_le_bytes}

abbrev pub magic : List ℕ
magic = 84 ∷ 76 ∷ 83 ∷ 65 ∷ 82 ∷ 84 ∷ 48 ∷ 49 ∷ []

abbrev pub version : ℕ
version = 1

pub data GlobalValue : Type 0 where
  i32 i64 f32 f64 : (pattern_bits : ℕ) → GlobalValue

pub record Snapshot : Type 0 where
  pub guest : List ℕ
  pub globals : List (List ℕ × GlobalValue)

-- The texts of the errors.
pub data Error : Type 0 where
  field_exceeds too_many_globals : Error
  offset_overflow truncated : Error
  invalid_magic unsupported_version invalid_count not_utf8 invalid_type trailing_bytes : Error

-- An early return where a condition fails.
abbrev pub require : Bool → Error → Result (Unit {0}) Error
require true e = ok tt
require false e = err e

pub word : List ℕ → ℕ → List ℕ
word out value = out ++ to_le_bytes 4 value

pub bytes : List ℕ → List ℕ → Result (List ℕ) Error
bytes out value = require (leb (length value) u32_max) field_exceeds >>= λ _.
    ok (word out (length value) ++ value)

pub push_value : List ℕ → GlobalValue → List ℕ
push_value out (i32 value) = out ++ 0 ∷ to_le_bytes 4 value
push_value out (i64 value) = out ++ 1 ∷ to_le_bytes 8 value
push_value out (f32 value) = out ++ 2 ∷ to_le_bytes 4 value
push_value out (f64 value) = out ++ 3 ∷ to_le_bytes 8 value

-- The loop over the globals.
pub push_globals : List ℕ → List (List ℕ × GlobalValue) → Result (List ℕ) Error
push_globals out [] = ok out
push_globals out ((name, value) ∷ globals) =
    bytes out name >>= λ out'. push_globals (push_value out' value) globals

pub encode : Snapshot → Result (List ℕ) Error
encode snapshot = bytes (word magic version) snapshot.guest >>= λ out.
    require (leb (length snapshot.globals) u32_max) too_many_globals >>= λ _.
    push_globals (word out (length snapshot.globals)) snapshot.globals

abbrev pub same_bytes : List ℕ → List ℕ → Bool
same_bytes [] [] = true
same_bytes (x ∷ xs) (y ∷ ys) = x == y && same_bytes xs ys
same_bytes _ _ = false

pub record Reader : Type 0 where
  pub input : List ℕ
  pub at : ℕ

module _ (usize_top : ℕ) where
  pub take_bytes : ℕ → Reader → Result (List ℕ × Reader) Error
  take_bytes len r = elim (checked_add usize_top r.at len) [
    | none ↦ err offset_overflow
    | some end_byte ↦
        if ltb (length r.input) end_byte
        then err truncated
        else ok (take len (drop r.at r.input), record r { at = end_byte })
  ]

  pub read_word : Reader → Result (ℕ × Reader) Error
  read_word r = take_bytes 4 r >>= λ (value, r'). ok (from_le_bytes value, r')

  pub read_bytes : Reader → Result (List ℕ × Reader) Error
  read_bytes r = read_word r >>= λ (len, r'). take_bytes len r'

  -- A value of some bytes.
  pub read_pattern : ℕ → (ℕ → GlobalValue) → Reader → Result (GlobalValue × Reader) Error
  read_pattern len make r = take_bytes len r >>= λ (value, r'). ok (make (from_le_bytes value), r')

  -- The value behind its tag.
  pub read_value : ℕ → Reader → Result (GlobalValue × Reader) Error
  read_value tag r =
      if tag == 0
      then read_pattern 4 i32 r
      else if tag == 1
      then read_pattern 8 i64 r
      else if tag == 2
      then read_pattern 4 f32 r
      else if tag == 3
      then read_pattern 8 f64 r
      else err invalid_type

  pub read_tagged : Reader → Result (GlobalValue × Reader) Error
  read_tagged r = take_bytes 1 r >>= λ (tag, r'). read_value (get_or tag 0 0) r'

  module _ (is_utf8 : List ℕ → Bool) where
    pub read_global : Reader → Result ((List ℕ × GlobalValue) × Reader) Error
    read_global r = read_bytes r >>= λ (name, r'). require (is_utf8 name) not_utf8 >>= λ _.
        read_tagged r' >>= λ (value, last). ok ((name, value), last)

    -- The loop over the globals, with the number that is left.
    pub read_globals : ℕ → Reader → Result (List (List ℕ × GlobalValue) × Reader) Error
    read_globals zero r = ok ([], r)
    read_globals (suc n) r = read_global r >>= λ (global, r').
        read_globals n r' >>= λ (globals, last). ok (global ∷ globals, last)

    pub decode : List ℕ → Result Snapshot Error
    decode input = take_bytes (length magic) (record { input = input; at = 0 }) >>= λ (start, r).
        require (same_bytes start magic) invalid_magic >>= λ _. read_word r >>= λ (found, r').
        require (found == version) unsupported_version >>= λ _. read_bytes r' >>= λ (guest, r'').
        read_word r'' >>= λ (count, r3).
        require (leb count ((length input - r3.at) / 9)) invalid_count >>= λ _.
        read_globals count r3 >>= λ (globals, last).
        require (last.at == length input) trailing_bytes >>= λ _.
        ok (record { guest = guest; globals = globals })
