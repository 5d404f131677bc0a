-- ===== src/JsonParse.antt =====
-- crates/telora-data/src/json/parse.rs: the nonrecursive JSON machine, with the token kinds of
-- crates/telora-data/src/json/lexer.rs and the raw plan of crates/telora-data/src/json/structure.rs.
-- The answers of the scanner are a list; past its end the scanner answers with the end of the input.
-- The head of `frames` is the innermost one.
pub mod Strings
pub mod Machine
pub use telora.Common.{◌>>=◌}
use telora.Common.{
  ℕ, zero, suc, ◌+◌, ◌-◌, ◌*◌, ◌/◌, ◌%◌, ◌^◌, ◌≤◌, ◌<◌, min, max, bit_and, bit_or, bit_xor, ◌≡◌,
  refl, sym, ap, ◌∙◌, ◌≢◌, ◌↔◌, ◌⊎◌, inl, inr, Bool, true, false, not, ◌&&◌, ◌||◌, Option, none,
  some, List, [], ◌∷◌, ◌++◌, map, append_assoc, append-nil, arith, ltb, leb, ◌==◌, if◌then◌else◌,
  ltb→lt, lt→ltb, leb→le, le→leb, not_leb→lt, ==→eq, ==-self, tests, Bool-cases, Option-cases,
  length, get_elem?, get_or, set, take, drop, splice, replicate, All, length-append, length-set,
  length-take, length-drop, length-replicate, take-append, drop-append, take-append-drop,
  get_elem?-set_self, get_elem?-set_ne, get_elem?-append_left, get_elem?-append_last, get_elem?-lt,
  get_elem?-ge, get_elem?-some, get_elem?-take, take-set, take-take, take-append_short, take-all,
  length-splice, read-splice, Result, u32_max, u64_max, usize_max, checked_add, checked_mul, ok_or,
  ◌>>=◌, Yields, Yields-bind, ok, err,
}

pub data Kind : Type 0 where
  l_brace r_brace l_bracket r_bracket comma colon q_start q_end : Kind
  text : (bytes : List ℕ) → Kind
  esc_char : (ch : ℕ) → Kind
  esc_utf16 : (unit : ℕ) → Kind
  true_word false_word null_word : Kind
  number : (float : Bool) → Kind
  eof : Kind

-- `Range<usize>`.
pub record Span : Type 0 where
  pub start : ℕ
  pub end : ℕ

pub record Token : Type 0 where
  pub kind : Kind
  pub span : Span

-- `lexer::Error`; its message is a text, here a number.
pub record ScanError : Type 0 where
  pub message : ℕ
  pub span : Span

pub record Scanner : Type 0 where
  pub answers : List (Result Token ScanError)
  pub offset : ℕ

pub record Location : Type 0 where
  pub source : ℕ
  pub span : Span

pub data Quota : Type 0 where
  file_size nodes depth container_size string_len payloads_bytes : Quota

-- The texts of the diagnostics.
pub data Message : Type 0 where
  scanning : ℕ → Message
  exceeds : (quota : Quota) (value limit : ℕ) → Message
  expected_end key_not_string expected_colon expected_separator expected_value : Message
  extra_comma trailing : Message
  lone_high lone_low unclosed_string length_overflow payload_overflow : Message

pub record Diagnostic : Type 0 where
  pub message : Message
  pub location : Location

-- A diagnostic, an `unwrap` or `unreachable!` that fails, and the end of the model's fuel.
pub data Failure : Type 0 where
  diagnostic : Diagnostic → Failure
  panic out_of_fuel : Failure

pub record StringSpan : Type 0 where
  pub range : Span
  pub escaped : Bool

-- `target` is the field `value` of the source.
pub record DataField : Type 0 where
  pub key_location : Location
  pub target : ℕ

pub data RawKind : Type 0 where
  string : StringSpan → RawKind
  number : (range : Span) (float : Bool) → RawKind
  null : RawKind
  bool : Bool → RawKind
  array : List ℕ → RawKind
  object : List (StringSpan × DataField) → RawKind

pub record RawNode : Type 0 where
  pub kind : RawKind
  pub location : Location

pub record RawPlan : Type 0 where
  pub nodes : List RawNode
  pub root : Option ℕ
  pub diagnostics : List Diagnostic

pub record DataLimits : Type 0 where
  pub file_size : ℕ
  pub nodes : ℕ
  pub depth : ℕ
  pub container_size : ℕ
  pub bytes_len : ℕ
  pub string_len : ℕ
  pub payloads_bytes : ℕ

pub data Expect : Type 0 where
  value value_or_end key key_or_end colon separator : Expect

pub data Container : Type 0 where
  array : List ℕ → Container
  object :
      (fields : List (StringSpan × DataField)) (key : Option (StringSpan × Location)) → Container

pub record Frame : Type 0 where
  pub start : ℕ
  pub expect : Expect
  pub container : Container
  pub separator : Option Span
  pub skipped : ℕ

pub record Parser : Type 0 where
  pub source : ℕ
  pub scanner : Scanner
  pub frames : List Frame
  pub plan : RawPlan
  pub root : Option ℕ
  pub limits : DataLimits
  pub nodes : ℕ
  pub payload : ℕ

pub new : ℕ → Scanner → DataLimits → Parser
new source scanner limits = record {
  source = source;
  scanner = scanner;
  frames = [];
  plan = record { nodes = []; root = none; diagnostics = [] };
  root = none;
  limits = limits;
  nodes = 0;
  payload = 0;
}

-- The results of the machine.
abbrev pub Outcome {ℓ} : Type ℓ → Type ℓ
Outcome A = Result A Failure

-- The tests of `TextRange::from_usize` in crates/telora-data/src/source.rs.
abbrev pub is_range : Span → Bool
is_range span = leb span.start u32_max && leb span.end u32_max && leb span.start span.end

-- `Location::from_usize(...).expect(...)`
pub location : Parser → Span → Outcome Location
location p span = elim (is_range span) [
  | true ↦ ok (record { source = p.source; span = span })
  | false ↦ err panic
]

pub error : Parser → Span → Message → Outcome Diagnostic
error p span message = location p span >>= λ loc. ok (record { message = message; location = loc })

pub fail {ℓ} : {A : Type ℓ} → Parser → Span → Message → Outcome A
fail p span message = error p span message >>= λ d. err (diagnostic d)

-- `Scanner::next`, with the parser's view of its error.
pub next : Parser → Outcome (Token × Parser)
next p = elim p.scanner.answers [
  | [] ↦
      ok (
        record { kind = eof; span = record { start = p.scanner.offset; end = p.scanner.offset } },
        p,
      )
  | answer ∷ answers ↦ elim answer [
    | err e ↦ fail p e.span (scanning e.message)
    | ok token ↦
        ok (token, record p { scanner = record { answers = answers; offset = p.scanner.offset } })
  ]
]

pub check_limit : Parser → Span → Quota → (amount top : ℕ) → Outcome (Unit {0})
check_limit p span quota amount top =
    if ltb top amount then fail p span (exceeds quota amount top) else ok tt

abbrev pub container_len : Container → ℕ
container_len (array items) = length items
container_len (object fields pending) = length fields

pub container_slot : Parser → Span → Outcome (Unit {0})
container_slot p span = elim p.frames [
  | [] ↦ ok tt
  | f ∷ fs ↦
      check_limit p span container_size (container_len f.container + f.skipped + 1)
        p.limits.container_size
]

pub reserve_value : Parser → Span → Outcome Parser
reserve_value p span = container_slot p span >>= λ _.
    check_limit p span depth (length p.frames + 1) p.limits.depth >>= λ _.
    check_limit p span nodes (p.nodes + 1) p.limits.nodes >>= λ _.
    ok (record p { nodes = p.nodes + 1 })

-- `RawPlan::push`, with the id of the new node.
pub push_node : RawKind → Location → RawPlan → ℕ × RawPlan
push_node kind location plan = (
  length plan.nodes,
  record plan { nodes = plan.nodes ++ record { kind = kind; location = location } ∷ [] },
)

-- A complete node goes to the innermost frame, which then expects a separator, or is the root.
pub attach : ℕ → Parser → Outcome Parser
attach id p = elim p.frames [
  | [] ↦ ok (record p { root = some id })
  | f ∷ fs ↦ elim f.container [
    | array items ↦ ok (record p {
      frames = record f { container = array (items ++ id ∷ []); expect = separator } ∷ fs;
    })
    | object fields pending ↦ elim pending [
      | none ↦ err panic
      | some (name, key_location) ↦ ok (record p {
        frames =
            record f {
              container =
                  object
                    (fields ++ (name, record { key_location = key_location; target = id }) ∷ [])
                    none;
              expect = separator;
            }
            ∷ fs;
      })
    ]
  ]
]

-- A node pushed and attached.
pub emit : RawKind → Location → Parser → Outcome Parser
unfolding push_node
emit kind loc p = let (id, plan) = push_node kind loc p.plan in attach id (record p { plan = plan })
