-- ===== src/JsonParse/Machine.antt =====
-- The machine of parse.rs: values, separators and closing brackets, one token at a time.
pub mod Conditions
pub mod Rules
pub mod Carried
pub mod Attach
pub mod Slots
pub mod Values
pub mod Steps
pub mod Rounds
pub mod Turns
pub mod Sound
mod Examples
use telora.Common.{
  ℕ, zero, suc, ◌+◌, ◌-◌, ◌*◌, ◌/◌, ◌%◌, ◌^◌, ◌≤◌, ◌<◌, min, max, bit_and, bit_or, bit_xor, ◌≡◌,
  refl, sym, ap, ◌∙◌, ◌≢◌, ◌↔◌, ◌⊎◌, inl, inr, Bool, true, false, not, ◌&&◌, ◌||◌, Option, none,
  some, List, [], ◌∷◌, ◌++◌, map, append_assoc, append-nil, arith, ltb, leb, ◌==◌, if◌then◌else◌,
  ltb→lt, lt→ltb, leb→le, le→leb, not_leb→lt, ==→eq, ==-self, tests, Bool-cases, Option-cases,
  length, get_elem?, get_or, set, take, drop, splice, replicate, All, length-append, length-set,
  length-take, length-drop, length-replicate, take-append, drop-append, take-append-drop,
  get_elem?-set_self, get_elem?-set_ne, get_elem?-append_left, get_elem?-append_last, get_elem?-lt,
  get_elem?-ge, get_elem?-some, get_elem?-take, take-set, take-take, take-append_short, take-all,
  length-splice, read-splice, Result, u32_max, u64_max, usize_max, checked_add, checked_mul, ok_or,
  ◌>>=◌, Yields, Yields-bind, ok, err,
}
use telora.JsonParse.{
  Kind, l_brace, r_brace, l_bracket, r_bracket, comma, colon, q_start, q_end, text, esc_char,
  esc_utf16, true_word, false_word, null_word, eof, Span, Token, Scanner, Location, StringSpan,
  file_size, expected_end, key_not_string, expected_colon, expected_separator, expected_value,
  extra_comma, trailing, Failure, panic, out_of_fuel, RawKind, string, null, bool, RawPlan,
  DataLimits, Expect, value_or_end, key_or_end, separator, Container, Frame, Parser, new, Outcome,
  ◌>>=◌, location, error, fail, next, check_limit, container_slot, reserve_value, attach, emit,
}
use telora.JsonParse.Strings.{read_string}

abbrev pub is_array : Container → Bool
is_array (Container.array items) = true
is_array (Container.object fields pending) = false

-- A comma where a value or a key is expected: it takes a slot of the structural budget.
pub skip_comma : Span → Parser → Outcome Parser
skip_comma span p = reserve_value p span >>= λ p'. elim p'.frames [
  | [] ↦ err panic
  | f ∷ fs ↦ error p' span extra_comma >>= λ d. ok (record p' {
    frames = record f { skipped = f.skipped + 1 } ∷ fs;
    plan = record p'.plan { diagnostics = p'.plan.diagnostics ++ d ∷ [] };
  })
]

pub trailing_comma : Parser → Outcome Parser
trailing_comma p = elim p.frames [
  | [] ↦ err panic
  | f ∷ fs ↦ elim f.separator [
    | none ↦ err panic
    | some span ↦ error p span trailing >>= λ d.
        ok (record p { plan = record p.plan { diagnostics = p.plan.diagnostics ++ d ∷ [] } })
  ]
]

pub open_frame : ℕ → Expect → Container → Parser → Parser
open_frame start expect container p = record p {
  frames =
      record {
        start = start;
        expect = expect;
        container = container;
        separator = none;
        skipped = 0;
      }
      ∷ p.frames;
}

pub scalar : RawKind → Span → Parser → Outcome Parser
scalar kind span p = reserve_value p span >>= λ p'. location p' span >>= λ loc. emit kind loc p'

-- `Parser::value`.
pub value : Token → Parser → Outcome Parser
value token p = elim token.kind [
  | l_bracket ↦ reserve_value p token.span >>= λ p'.
      ok (open_frame token.span.start value_or_end (Container.array []) p')
  | l_brace ↦ reserve_value p token.span >>= λ p'.
      ok (open_frame token.span.start key_or_end (Container.object [] none) p')
  | q_start ↦ reserve_value p token.span >>= λ p'.
      read_string token.span.start p' >>= λ ((content, loc), p''). emit (string content) loc p''
  | null_word ↦ scalar null token.span p
  | true_word ↦ scalar (bool true) token.span p
  | false_word ↦ scalar (bool false) token.span p
  | Kind.number float ↦ scalar (RawKind.number token.span float) token.span p
  | _ ↦ fail p token.span expected_value
]

abbrev pub container_kind : Container → RawKind
container_kind (Container.array items) = RawKind.array items
container_kind (Container.object fields pending) = RawKind.object fields

pub close : Span → Parser → Outcome Parser
close span p = elim p.frames [
  | [] ↦ err panic
  | f ∷ fs ↦ location p (record { start = f.start; end = span.end }) >>= λ loc.
      emit (container_kind f.container) loc (record p { frames = fs })
]

-- A trailing comma is reported where a value or key had to follow.
pub close_after : Bool → Span → Parser → Outcome Parser
close_after after_comma span p =
    (if after_comma then trailing_comma p else ok p) >>= λ p'. close span p'

pub set_expect : Expect → Parser → Outcome Parser
set_expect expect p = elim p.frames [
  | [] ↦ err panic
  | f ∷ fs ↦ ok (record p { frames = record f { expect = expect } ∷ fs })
]

abbrev pub is_comma : Kind → Bool
is_comma comma = true
is_comma _ = false

abbrev pub is_r_bracket : Kind → Bool
is_r_bracket r_bracket = true
is_r_bracket _ = false

abbrev pub is_r_brace : Kind → Bool
is_r_brace r_brace = true
is_r_brace _ = false

abbrev pub in_array : Parser → Bool
in_array p = elim p.frames [ [] ↦ false | f ∷ fs ↦ is_array f.container ]

-- `Expect::Value` and `Expect::ValueOrEnd`, the latter without a comma before.
pub at_value : (after_comma : Bool) → Token → Parser → Outcome Parser
at_value after_comma token p = elim token.kind [
  | comma ↦ elim p.frames [ [] ↦ value token p | f ∷ fs ↦ skip_comma token.span p ]
  | r_bracket ↦ if in_array p then close_after after_comma token.span p else value token p
  | _ ↦ value token p
]

-- A key read, then its colon.
pub set_key : StringSpan × Location → Parser → Outcome Parser
set_key found p = elim p.frames [
  | [] ↦ err panic
  | f ∷ fs ↦ elim f.container [
    | Container.array items ↦ err panic
    | Container.object fields pending ↦ ok (record p {
      frames =
          record f { container = Container.object fields (some found); expect = Expect.colon } ∷ fs;
    })
  ]
]

pub at_key : (after_comma : Bool) → Token → Parser → Outcome Parser
at_key after_comma token p = elim token.kind [
  | comma ↦ skip_comma token.span p
  | r_brace ↦ close_after after_comma token.span p
  | q_start ↦ container_slot p token.span >>= λ _.
      read_string token.span.start p >>= λ (found, p'). set_key found p'
  | _ ↦ fail p token.span key_not_string
]

pub at_colon : Token → Parser → Outcome Parser
at_colon token p = elim token.kind [
  | colon ↦ set_expect Expect.value p
  | _ ↦ fail p token.span expected_colon
]

abbrev pub closes : Container → Kind → Bool
closes container kind = if is_array container then is_r_bracket kind else is_r_brace kind

pub at_separator : Token → Parser → Outcome Parser
at_separator token p = elim p.frames [
  | [] ↦ err panic
  | f ∷ fs ↦
      if is_comma token.kind
      then ok (record p {
        frames =
            record f {
              separator = some token.span;
              expect = if is_array f.container then Expect.value else Expect.key;
            }
            ∷ fs;
      })
      else if closes f.container token.kind
      then close token.span p
      else fail p token.span expected_separator
]

-- One round of the loop of `parse`, after the test for the end of the input.
pub step : Token → Parser → Outcome Parser
step token p = elim p.frames [
  | [] ↦ at_value true token p
  | f ∷ fs ↦ elim f.expect [
    | Expect.value ↦ at_value true token p
    | value_or_end ↦ at_value false token p
    | Expect.key ↦ at_key true token p
    | key_or_end ↦ at_key false token p
    | Expect.colon ↦ at_colon token p
    | separator ↦ at_separator token p
  ]
]

abbrev pub is_eof : Kind → Bool
is_eof eof = true
is_eof _ = false

-- `self.frames.is_empty() && self.root.is_some()`
abbrev pub is_complete : Parser → Bool
is_complete p = elim p.frames [
  | [] ↦ elim p.root [ none ↦ false | some id ↦ true ]
  | f ∷ fs ↦ false
]

pub finish : Token → Parser → Outcome RawPlan
finish token p =
    if is_eof token.kind
    then ok (record p.plan { root = p.root })
    else fail p token.span expected_end

-- The loop, on fuel.
pub parse_loop : ℕ → Parser → Outcome RawPlan
parse_loop zero p = err out_of_fuel
parse_loop (suc fuel) p = next p >>= λ (token, p'). elim (is_complete p') [
  | true ↦ finish token p'
  | false ↦ step token p' >>= λ p''. parse_loop fuel p''
]

-- Each round takes an answer of the scanner, and the end of the input stops the loop.
pub parse : ℕ → Parser → Outcome RawPlan
parse bytes p =
    check_limit p (record { start = 0; end = bytes }) file_size bytes p.limits.file_size >>= λ _.
    parse_loop (length p.scanner.answers + 1) p
