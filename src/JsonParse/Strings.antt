-- ===== src/JsonParse/Strings.antt =====
-- `Parser::append` and `Parser::string` of parse.rs: strings are measured, not decoded.
pub mod Measure
use telora.Common.{
  ℕ, zero, suc, ◌+◌, ◌-◌, ◌*◌, ◌/◌, ◌%◌, ◌^◌, ◌≤◌, ◌<◌, min, max, bit_and, bit_or, bit_xor, ◌≡◌,
  refl, sym, ap, ◌∙◌, ◌≢◌, ◌↔◌, ◌⊎◌, inl, inr, Bool, true, false, not, ◌&&◌, ◌||◌, Option, none,
  some, List, [], ◌∷◌, ◌++◌, map, append_assoc, append-nil, arith, ltb, leb, ◌==◌, if◌then◌else◌,
  ltb→lt, lt→ltb, leb→le, le→leb, not_leb→lt, ==→eq, ==-self, tests, Bool-cases, Option-cases,
  length, get_elem?, get_or, set, take, drop, splice, replicate, All, length-append, length-set,
  length-take, length-drop, length-replicate, take-append, drop-append, take-append-drop,
  get_elem?-set_self, get_elem?-set_ne, get_elem?-append_left, get_elem?-append_last, get_elem?-lt,
  get_elem?-ge, get_elem?-some, get_elem?-take, take-set, take-take, take-append_short, take-all,
  length-splice, read-splice, Result, u32_max, u64_max, usize_max, checked_add, checked_mul, ok_or,
  ◌>>=◌, Yields, Yields-bind, ok, err,
}
use telora.JsonParse.{
  Kind, q_end, text, esc_char, esc_utf16, eof, Span, Token, ScanError, Scanner, Location, Quota,
  string_len, payloads_bytes, Message, scanning, lone_high, lone_low, unclosed_string,
  length_overflow, payload_overflow, Failure, diagnostic, panic, out_of_fuel, StringSpan, Parser,
  Outcome, ◌>>=◌, location, error, fail, check_limit,
}

-- The bytes of `encode_utf8`.
unfoldable pub utf8_len : ℕ → ℕ
utf8_len ch = if ltb ch 0x80 then 1 else if ltb ch 0x800 then 2 else if ltb ch 0x10000 then 3 else 4

-- The length of the string so far, after more text.
unfoldable pub append : (output len : ℕ) → Span → Parser → Outcome (ℕ × Parser)
append output len span p = elim (checked_add usize_max output len) [
  | none ↦ fail p span length_overflow
  | some total ↦ elim (checked_add usize_max p.payload len) [
    | none ↦ fail p span payload_overflow
    | some payload ↦ check_limit p span string_len total p.limits.string_len >>= λ _.
        check_limit p span payloads_bytes payload p.limits.payloads_bytes >>= λ _.
        ok (total, record p { payload = payload })
  ]
]

-- The variables of the loop of `string`.
pub record Reading : Type 0 where
  pub output : ℕ
  pub escaped : Bool
  pub high : Option (ℕ × Span)

-- What a token does to the loop.
pub data Progress : Type 0 where
  finished : StringSpan → Location → Progress
  reading : Reading → Progress

abbrev pub is_escape : Kind → Bool
is_escape (esc_char ch) = true
is_escape (esc_utf16 unit) = true
is_escape _ = false

abbrev pub is_high : ℕ → Bool
is_high unit = leb 0xd800 unit && leb unit 0xdbff

abbrev pub is_low : ℕ → Bool
is_low unit = leb 0xdc00 unit && leb unit 0xdfff

-- `append` of a character or text, and on with the loop.
unfoldable pub appended : Reading → ℕ → Span → Parser → Outcome (Progress × Parser)
appended r len span p =
    append r.output len span p >>= λ (output, p'). ok (reading (record r { output = output }), p')

-- A token after a high surrogate.
pub second_half : ℕ → Span → Reading → Token → Parser → Outcome (Progress × Parser)
second_half first origin r token p = elim token.kind [
  | esc_utf16 unit ↦
      if is_low unit
      then appended r (utf8_len (0x10000 + (first - 0xd800) * 2 ^ 10 + unit - 0xdc00))
          (record { start = origin.start; end = token.span.end }) p
      else fail p origin lone_high
  | _ ↦ fail p origin lone_high
]

unfoldable pub string_token : ℕ → Reading → Token → Parser → Outcome (Progress × Parser)
string_token start r token p = elim token.kind [
  | q_end ↦ location p (record { start = start; end = token.span.end }) >>= λ loc. ok (
    finished
        (record {
          range = record { start = start + 1; end = token.span.start };
          escaped = r.escaped;
        })
        loc,
    p,
  )
  | text bytes ↦ appended r (length bytes) token.span p
  | esc_char ch ↦ appended r (utf8_len ch) token.span p
  | esc_utf16 unit ↦
      if is_high unit
      then ok (reading (record r { high = some (unit, token.span) }), p)
      else if is_low unit
      then fail p token.span lone_low
      else appended r (utf8_len unit) token.span p
  | eof ↦ fail p (record { start = start; end = token.span.end }) unclosed_string
  | _ ↦ err panic
]

-- One round of the loop.
unfoldable pub string_step : ℕ → Reading → Token → Parser → Outcome (Progress × Parser)
string_step start r token p =
    let r' = record r { escaped = r.escaped || is_escape token.kind; high = none } in
    elim r.high [
      | some (first, origin) ↦ second_half first origin r' token p
      | none ↦ string_token start r' token p
    ]

-- The loop, over the answers of the scanner that are left.
unfoldable pub string_loop :
    ℕ
    → Reading
    → List (Result Token ScanError)
    → Parser
    → Outcome ((StringSpan × Location) × Parser)
string_loop start r [] p =
    let at : Span = record { start = p.scanner.offset; end = p.scanner.offset } in
    string_step start r (record { kind = eof; span = at }) p >>= λ (progress, p'). elim progress [
      | finished span loc ↦ ok ((span, loc), p')
      | reading r' ↦ err out_of_fuel
    ]
string_loop start r (err e ∷ answers) p = fail p e.span (scanning e.message)
string_loop start r (ok token ∷ answers) p =
    string_step start r token
      (record p { scanner = record { answers = answers; offset = p.scanner.offset } })
    >>= λ (progress, p'). elim progress [
      | finished span loc ↦ ok ((span, loc), p')
      | reading r' ↦ string_loop start r' answers p'
    ]

unfoldable pub read_string : ℕ → Parser → Outcome ((StringSpan × Location) × Parser)
read_string start p =
    string_loop start (record { output = 0; escaped = false; high = none }) p.scanner.answers p
