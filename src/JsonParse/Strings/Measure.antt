-- ===== src/JsonParse/Strings/Measure.antt =====
-- Reading a string keeps what the machine keeps, and leaves the scanner behind the closing quote.
use mathlib.Core.Path.{subst}
use telora.Common.{
  ℕ, ◌≤◌, ◌≡◌, refl, sym, ap, inl, inr, true, false, ◌||◌, Option, none, some, List, [], ◌∷◌, arith,
  Bool-cases, Option-cases, length, Result, u32_max, usize_max, checked_add, ok, err,
}
use telora.JsonParse.{
  DataLimits, location, lone_high, lone_low, unclosed_string, length_overflow, payload_overflow,
  scanning, Location, Kind, q_end, text, esc_char, esc_utf16, eof, Span, Token, ScanError, Scanner,
  StringSpan, string_len, payloads_bytes, diagnostic, panic, out_of_fuel, Parser, Outcome,
  check_limit,
}
use telora.JsonParse.Strings.{
  is_escape, append, Reading, Progress, finished, reading, is_high, is_low, utf8_len, appended,
  second_half, string_token, string_step, string_loop, read_string,
}
use telora.JsonParse.Machine.Conditions.{Bounds, InRange, Spanned, Allowed, Lexed}
use telora.JsonParse.Machine.Rules.{location-Ensures, fail-Ensures, Ensures, Ensures-bind}
use telora.JsonParse.Machine.Carried.{Paid, rescanned}
use telora.JsonParse.Machine.Slots.{check_limit-Ensures}

-- A high surrogate that was read before the offset.
abbrev pub Origin : ℕ → Option (ℕ × Span) → Type 0
Origin low none = Unit {0}
Origin low (some (unit, span)) = InRange span × (span.end ≤ low)

module _ (limits : Bounds) (o : Parser) where
  abbrev Kept : Parser → Parser → Type 0
  Kept p q = Paid limits o q × (q.scanner ≡ p.scanner)

  append-Paid :
      (output len : ℕ) (span : Span) (p : Parser)
      → InRange span
      → Paid limits o p
      → Ensures (λ ((total, q) : ℕ × Parser). Kept p q) (append output len span p)
  unfolding append
  append-Paid output len span p range r = elim (Option-cases (checked_add usize_max output len)) [
    | inl e ↦ rw (e, append) (fail-Ensures _ p span length_overflow range)
    | inr (total, e) ↦ elim (Option-cases (checked_add usize_max p.payload len)) [
      | inl f ↦ rw (e, append, f) (fail-Ensures _ p span payload_overflow range)
      | inr (payload, f) ↦
          rw (e, append, f)
            (Ensures-bind (λ _. total ≤ p.limits.string_len) _
              (check_limit p span string_len total p.limits.string_len) _
              (check_limit-Ensures p span string_len total p.limits.string_len range)
              λ _ _.
                Ensures-bind (λ _. payload ≤ p.limits.payloads_bytes) _
                  (check_limit p span payloads_bytes payload p.limits.payloads_bytes) _
                  (check_limit-Ensures p span payloads_bytes payload p.limits.payloads_bytes range)
                  λ _ few. (
                    record {
                      same_limits = r.same_limits;
                      same_frames = r.same_frames;
                      same_plan = r.same_plan;
                      same_root = r.same_root;
                      same_nodes = r.same_nodes;
                      payload_limit =
                          omega
                            (arith, few, ap (λ (l : DataLimits). l.payloads_bytes) r.same_limits);
                    },
                    refl,
                  ))
    ]
  ]

  -- What a token's progress says of it, and of the offset behind it.
  abbrev Follows : Kind → ℕ → Progress → Type 0
  Follows q_end low (finished span loc) = Unit {0}
  Follows (text bytes) low (reading r) = Origin low r.high
  Follows (esc_char ch) low (reading r) = Origin low r.high
  Follows (esc_utf16 unit) low (reading r) = Origin low r.high
  Follows kind low progress = ⊥

  abbrev Moved : Kind → ℕ → Parser → Progress × Parser → Type 0
  Moved kind low p (progress, q) = Kept p q × Follows kind low progress

  appended-Moved :
      (kind : Kind) (low : ℕ) (r : Reading) (len : ℕ) (span : Span) (p : Parser)
      → ((output : ℕ) → Follows kind low (reading (record r { output = output })))
      → InRange span
      → Paid limits o p
      → Ensures (Moved kind low p) (appended r len span p)
  unfolding appended
  appended-Moved kind low r len span p follows range ready =
      Ensures-bind (λ ((total, q) : ℕ × Parser). Kept p q) (Moved kind low p)
        (append r.output len span p) _ (append-Paid r.output len span p range ready)
        λ (output, q) kept. (kept, follows output)

  second_half-Moved :
      (first : ℕ) (origin : Span) (r : Reading) (kind : Kind) (span : Span) (p : Parser)
      → InRange origin
      → origin.end ≤ span.start
      → InRange span
      → Origin span.end r.high
      → Paid limits o p
      → Ensures
          (Moved kind span.end p)
          (second_half first origin r (record { kind = kind; span = span }) p)
  unfolding second_half
  second_half-Moved first origin r (esc_utf16 unit) span p before near range clear ready =
      elim (Bool-cases (is_low unit)) [
        | inl e ↦
            rw (e, second_half)
              (appended-Moved (esc_utf16 unit) span.end r _
                (record { start = origin.start; end = span.end }) p (λ _. clear)
                (omega (arith, before.0, near, range.0), range.1) ready)
        | inr e ↦
            rw (e, second_half)
              (fail-Ensures (Moved (esc_utf16 unit) span.end p) p origin lone_high before)
      ]
  second_half-Moved first origin r kind span p before near range clear ready =
      fail-Ensures (Moved kind span.end p) p origin lone_high before

  string_token-Moved :
      (start : ℕ) (r : Reading) (kind : Kind) (span : Span) (p : Parser) (outside inside : Type 0)
      → Allowed true kind outside inside
      → start ≤ span.start
      → InRange span
      → Origin span.end r.high
      → Paid limits o p
      → Ensures
          (Moved kind span.end p)
          (string_token start r (record { kind = kind; span = span }) p)
  unfolding string_token
  string_token-Moved start r q_end span p outside inside allowed after range clear ready =
      let whole : Span = record { start = start; end = span.end } in
      Ensures-bind (λ (l : Location). l.span ≡ whole) (Moved q_end span.end p) (location p whole) _
        (location-Ensures p whole (omega (arith, after, range.0), range.1))
        λ loc _. ((ready, refl), tt)
  string_token-Moved start r (text bytes) span p outside inside allowed after range clear ready =
      appended-Moved (text bytes) span.end r (length bytes) span p (λ _. clear) range ready
  string_token-Moved start r (esc_char ch) span p outside inside allowed after range clear ready =
      appended-Moved (esc_char ch) span.end r (utf8_len ch) span p (λ _. clear) range ready
  string_token-Moved start r (esc_utf16 unit) span p outside inside allowed after range clear
        ready =
      elim (Bool-cases (is_high unit)) [
        | inl e ↦ rw (e, string_token) ((ready, refl), (range, omega arith))
        | inr e ↦ elim (Bool-cases (is_low unit)) [
          | inl f ↦
              rw (e, string_token, f)
                (fail-Ensures (Moved (esc_utf16 unit) span.end p) p span lone_low range)
          | inr f ↦
              rw (e, string_token, f)
                (appended-Moved (esc_utf16 unit) span.end r (utf8_len unit) span p (λ _. clear)
                  range ready)
        ]
      ]
  string_token-Moved start r eof span p outside inside allowed after range clear ready =
      fail-Ensures (Moved eof span.end p) p (record { start = start; end = span.end })
        unclosed_string (omega (arith, after, range.0), range.1)
  string_token-Moved start r _ span p outside inside allowed after range clear ready =
      absurd allowed

  -- One round of the loop, at a token of the string mode.
  string_step-Moved :
      (start low : ℕ) (r : Reading) (token : Token) (p : Parser) (outside inside : Type 0)
      → Allowed true token.kind outside inside
      → start ≤ low
      → low ≤ token.span.start
      → InRange token.span
      → Origin low r.high
      → Paid limits o p
      → Ensures (Moved token.kind token.span.end p) (string_step start r token p)
  unfolding string_step
  string_step-Moved start low r token p outside inside allowed after next range before ready =
      go r.high before
    where
      r' : Reading
      r' = record r { escaped = r.escaped || is_escape token.kind; high = none }

      go :
          (high : Option (ℕ × Span))
          → Origin low high
          → Ensures (Moved token.kind token.span.end p) (elim high [
            | some (first, origin) ↦ second_half first origin r' token p
            | none ↦ string_token start r' token p
          ])
      go none before =
          string_token-Moved start r' token.kind token.span p outside inside allowed
            (omega (arith, after, next)) range tt ready
      go (some (first, origin)) (near_range, near) =
          second_half-Moved first origin r' token.kind token.span p near_range
            (omega (arith, near, next)) range tt ready

  -- The loop ends behind the closing quote.
  abbrev pub Read : List (Result Token ScanError) → (StringSpan × Location) × Parser → Type 0
  Read answers (found, q) =
      Paid limits o q
      × Lexed false q.scanner.answers
      × (length q.scanner.answers ≤ length answers)
      × (low : ℕ) × (limits.low ≤ low)
      × (low ≤ u32_max)
      × Spanned low q.scanner.offset q.scanner.answers

  after_end :
      (kind : Kind) (low : ℕ) (span : StringSpan) (loc : Location) (outside inside : Type 0)
      → Follows kind low (finished span loc)
      → Allowed true kind outside inside
      → outside
  after_end q_end low span loc outside inside follows allowed = allowed
  after_end (text bytes) low span loc outside inside follows allowed = absurd follows
  after_end _ low span loc outside inside follows allowed = absurd follows

  after_more :
      (kind : Kind) (low : ℕ) (r : Reading) (outside inside : Type 0)
      → Follows kind low (reading r)
      → Allowed true kind outside inside
      → inside
  after_more (text bytes) low r outside inside follows allowed = allowed
  after_more (esc_char ch) low r outside inside follows allowed = allowed
  after_more (esc_utf16 unit) low r outside inside follows allowed = allowed
  after_more _ low r outside inside follows allowed = absurd follows

  still : (kind : Kind) (low : ℕ) (r : Reading) → Follows kind low (reading r) → Origin low r.high
  still (text bytes) low r follows = follows
  still (esc_char ch) low r follows = follows
  still (esc_utf16 unit) low r follows = follows
  still _ low r follows = absurd follows

  string_loop-Read :
      (start low : ℕ) (r : Reading) (answers : List (Result Token ScanError)) (p : Parser)
      → Lexed true answers
      → Spanned low p.scanner.offset answers
      → start ≤ limits.low
      → limits.low ≤ low
      → Origin low r.high
      → Paid limits o p
      → Ensures (Read answers) (string_loop start r answers p)
  unfolding string_loop
  string_loop-Read start low r [] p lexed spanned after on before ready =
      let at : Span = record { start = p.scanner.offset; end = p.scanner.offset } in
      Ensures-bind (Moved eof p.scanner.offset p) (Read [])
        (string_step start r (record { kind = eof; span = at }) p) _
        (string_step-Moved start low r (record { kind = eof; span = at }) p (Unit {0}) (Unit {0}) tt
          (omega (arith, after, on)) spanned.0 (omega arith, spanned.1) before ready)
        λ (progress, q) (kept, follows). absurd follows
  string_loop-Read start low r (err e ∷ answers) p lexed spanned after on before ready =
      fail-Ensures (Read (err e ∷ answers)) p e.span (scanning e.message) spanned
  string_loop-Read start low r (ok token ∷ answers) p lexed (next, range, later) after on before
        ready =
      let moved : Scanner = record { answers = answers; offset = p.scanner.offset } in
      let p' : Parser = record p { scanner = moved } in
      let low' : ℕ = token.span.end in
      let onward : limits.low ≤ low' = omega (arith, on, next, range.0) in
      Ensures-bind (Moved token.kind low' p') (Read (ok token ∷ answers))
        (string_step start r token p') _
        (string_step-Moved start low r token p' (Lexed false answers) (Lexed true answers) lexed
          (omega (arith, after, on)) next range before (rescanned limits o p moved ready))
        λ (progress, q) m.
          elim progress
              as (λ progress.
                Moved token.kind low' p' (progress, q)
                → Ensures (Read (ok token ∷ answers)) (elim progress [
                  | finished span loc ↦ ok ((span, loc), q)
                  | reading r' ↦ string_loop start r' answers q
                ])) [
                  | finished span loc ↦ λ ((ready', same), follows). (
                    ready',
                    subst (λ (s : Scanner). Lexed false s.answers) (sym same)
                        (after_end token.kind low' span loc (Lexed false answers)
                          (Lexed true answers) follows lexed),
                    omega (arith, ap (λ (s : Scanner). length s.answers) same),
                    low',
                    onward,
                    range.1,
                    subst (λ (s : Scanner). Spanned low' s.offset s.answers) (sym same) later,
                  )
                  | reading r' ↦ λ ((ready', same), follows). shorter start r' q (
                      string_loop-Read start low' r' answers q
                        (after_more token.kind low' r' (Lexed false answers) (Lexed true answers)
                          follows lexed)
                        (subst (λ (s : Scanner). Spanned low' s.offset answers) (sym same) later)
                        after onward (still token.kind low' r' follows) ready')
                ]
            m
    where
      shorter :
          (start : ℕ) (r' : Reading) (q : Parser)
          → Ensures (Read answers) (string_loop start r' answers q)
          → Ensures (Read (ok token ∷ answers)) (string_loop start r' answers q)
      shorter start r' q h = longer (string_loop start r' answers q) h
        where
          longer :
              (x : Outcome ((StringSpan × Location) × Parser))
              → Ensures (Read answers) x
              → Ensures (Read (ok token ∷ answers)) x
          longer (ok (found, q)) (a, b, le, low, on, small, later) =
              (a, b, omega (arith, le), low, on, small, later)
          longer (err (diagnostic d)) h = tt
          longer (err panic) h = h
          longer (err out_of_fuel) h = h

  pub read_string-Read :
      (start : ℕ) (p : Parser)
      → Lexed true p.scanner.answers
      → Spanned limits.low p.scanner.offset p.scanner.answers
      → start ≤ limits.low
      → Paid limits o p
      → Ensures (Read p.scanner.answers) (read_string start p)
  unfolding read_string
  read_string-Read start p lexed spanned after ready =
      string_loop-Read start limits.low _ p.scanner.answers p lexed spanned after (omega arith) tt
        ready
