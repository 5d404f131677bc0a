-- ===== src/JsonText.antt =====
-- crates/telora-wasm-shared/src/json_text.rs: the escaping of JSON strings and the state of a JSON
-- writer. A string is the list of its bytes; writing to a `String` does not fail.
pub mod Escaping
pub mod Documents
mod Examples
use telora.Common.{
  ℕ, zero, suc, ◌+◌, ◌-◌, ◌*◌, ◌/◌, ◌%◌, ◌^◌, ◌≤◌, ◌<◌, min, max, bit_and, bit_or, bit_xor, ◌≡◌,
  refl, sym, ap, ◌∙◌, ◌≢◌, ◌↔◌, ◌⊎◌, inl, inr, Bool, true, false, not, ◌&&◌, ◌||◌, Option, none,
  some, List, [], ◌∷◌, ◌++◌, map, arith, ltb, leb, ◌==◌, if◌then◌else◌, ltb→lt, lt→ltb, leb→le,
  le→leb, not_leb→lt, ==→eq, ==-self, tests, Bool-cases, Option-cases, length, get_elem?, get_or,
  set, take, drop, replicate, All, length-append, length-set, length-take, length-drop,
  length-replicate, take-append, drop-append, take-append-drop, get_elem?-set_self,
  get_elem?-set_ne, get_elem?-append_left, get_elem?-append_last, get_elem?-lt, get_elem?-ge,
  get_elem?-some, get_elem?-take, take-set, take-take, take-append_short, take-all, Result, u32_max,
  u64_max, usize_max, checked_add, checked_mul, ok_or, ok, err,
}

-- `{byte:x}` of one digit.
abbrev pub hex_digit : ℕ → ℕ
hex_digit d = if ltb d 10 then 48 + d else 87 + d

-- The escape of a byte, or none where the loop continues.
pub escape_of : ℕ → Option (List ℕ)
escape_of byte =
    if byte == 34
    then some (92 ∷ 34 ∷ [])
    else if byte == 92
    then some (92 ∷ 92 ∷ [])
    else if byte == 10
    then some (92 ∷ 110 ∷ [])
    else if byte == 13
    then some (92 ∷ 114 ∷ [])
    else if byte == 9
    then some (92 ∷ 116 ∷ [])
    else if byte == 8
    then some (92 ∷ 98 ∷ [])
    else if byte == 12
    then some (92 ∷ 102 ∷ [])
    else if leb byte 31
    then some (92 ∷ 117 ∷ 48 ∷ 48 ∷ hex_digit (byte / 16) ∷ hex_digit (byte % 16) ∷ [])
    else none

-- The loop over the bytes; `run` is `input[start..index]`, the bytes not yet written.
pub write_escaped : (output run : List ℕ) → List ℕ → List ℕ
write_escaped output run [] = output ++ run
write_escaped output run (byte ∷ bytes) = elim (escape_of byte) [
  | none ↦ write_escaped output (run ++ byte ∷ []) bytes
  | some escape ↦ write_escaped ((output ++ run) ++ escape) [] bytes
]

pub quoted : (output input : List ℕ) → List ℕ
unfolding write_escaped
quoted output input = write_escaped (output ++ 34 ∷ []) [] input ++ 34 ∷ []

-- The writer.
pub record Writer : Type 0 where
  pub output : List ℕ
  pub indent : Option ℕ
  pub depth : ℕ

-- A failed assertion or `unwrap` is `none`.
pub new : Option ℕ → Option Writer
new none = some (record { output = []; indent = none; depth = 0 })
new (some width) =
    if leb width 16 then some (record { output = []; indent = some width; depth = 0 }) else none

pub push : List ℕ → Writer → Writer
push bytes w = record w { output = w.output ++ bytes }

pub newline : Writer → Option Writer
newline w = elim w.indent [
  | none ↦ some w
  | some width ↦ elim (checked_mul u32_max w.depth width) [
    | none ↦ none
    | some spaces ↦ some (push (10 ∷ replicate spaces 32) w)
  ]
]

pub open_collection : Bool → Writer → Option Writer
open_collection object w = elim (checked_add u32_max w.depth 1) [
  | none ↦ none
  | some deeper ↦ some (record (push (if object then 123 ∷ [] else 91 ∷ []) w) { depth = deeper })
]

pub item : ℕ → Writer → Option Writer
item index w = if index == 0 then newline w else newline (push (44 ∷ []) w)

pub colon : Writer → Writer
colon w = elim w.indent [ none ↦ push (58 ∷ []) w | some width ↦ push (58 ∷ 32 ∷ []) w ]

abbrev close_bracket : Bool → List ℕ
close_bracket object = if object then 125 ∷ [] else 93 ∷ []

pub close_collection : (object nonempty : Bool) → Writer → Option Writer
close_collection object nonempty w =
    if w.depth == 0
    then none
    else let outer = record w { depth = w.depth - 1 } in
      if nonempty
      then elim (newline outer) [ none ↦ none | some v ↦ some (push (close_bracket object) v) ]
      else some (push (close_bracket object) outer)

pub string : List ℕ → Writer → Writer
string input w = record w { output = quoted w.output input }
