-- ===== src/JsonParse/Machine/Sound.antt =====
-- The whole parse, and the plan that it returns.
use mathlib.Core.Path.{subst}
use telora.Common.{
  ℕ, zero, suc, ◌+◌, ◌≤◌, ◌<◌, ◌≡◌, refl, ap, inl, inr, Bool, true, false, Option, none, some, List,
  [], ◌∷◌, arith, ◌==◌, if◌then◌else◌, Bool-cases, length, Result, u32_max, ◌>>=◌, ok, err,
}
use telora.JsonParse.{
  eof, Span, Token, ScanError, Scanner, scanning, expected_end, RawPlan, file_size, new, next,
  DataLimits, Frame, Parser, Outcome, ◌>>=◌, check_limit, fail,
}
use telora.JsonParse.Machine.{step, is_eof, is_complete, finish, parse_loop, parse}
use telora.JsonParse.Machine.Conditions.{
  Bounds, InRange, Spanned, Owned, times, referred, held, exists_below, Lexed, Rooted, Postordered,
  Good, Fine,
}
use telora.JsonParse.Machine.Rules.{fail-Ensures, Ensures, Ensures-bind}
use telora.JsonParse.Machine.Carried.{Good-mono, Paid-self, Paid-Good, rescanned}
use telora.JsonParse.Machine.Slots.{check_limit-Ensures}
use telora.JsonParse.Machine.Turns.{step-Fine, step_eof}

-- The last node is the root, each node refers to nodes before it, and each node but the root is
-- referred to once: a tree in postorder. Its nodes and its diagnostics are within the limit.
pub record Sound (limits : DataLimits) (plan : RawPlan) : Type 0 where
  pub last_root : (id : ℕ) × (plan.root ≡ some id) × (id + 1 ≡ length plan.nodes)
  pub ordered : Postordered 0 plan.nodes
  pub once : (id : ℕ) → id + 1 < length plan.nodes → times id (referred plan.nodes) ≡ 1
  pub node_limit : length plan.nodes ≤ limits.nodes
  pub diagnostic_limit : length plan.diagnostics ≤ limits.nodes

finish-Sound :
    (limits : Bounds) (p : Parser) (token : Token)
    → Good limits p
    → InRange token.span
    → is_complete p ≡ true
    → Ensures (Sound limits.top) (finish token p)
unfolding finish
finish-Sound limits p token g range complete = elim (Bool-cases (is_eof token.kind)) [
  | inl k ↦ rw (k, finish) (by_frames p.frames p.root refl refl complete)
  | inr k ↦ rw (k, finish) (fail-Ensures (Sound limits.top) p token.span expected_end range)
]
  where
    counted_once :
        (id n nodes_times held_times root : ℕ)
        → root + 1 ≡ n
        → id + 1 < n
        → held_times ≡ 0
        → nodes_times + held_times + 0 + (if id == root then 1 else 0) ≡ exists_below id n
        → nodes_times ≡ 1
    counted_once id n nodes_times held_times root at_end before none_held all = ground arith

    by_frames :
        (fs : List Frame) (root : Option ℕ)
        → p.frames ≡ fs
        → p.root ≡ root
        → (elim fs [ [] ↦ elim root [ none ↦ false | some id ↦ true ] | f ∷ fs ↦ false ]) ≡ true
        → Sound limits.top (record p.plan { root = p.root })
    by_frames (f ∷ fs) root e r t = absurd (cc t)
    by_frames [] none e r t = absurd (cc t)
    by_frames [] (some root) e r t =
        let rooted = subst (λ root. Rooted (length p.plan.nodes) root p.frames) r g.rooted in
        let owned = subst (Owned (length p.plan.nodes) p.plan.nodes p.frames []) r g.owned in
        record {
          last_root = (root, r, rooted.0);
          ordered = g.ordered;
          once = λ id before.
              counted_once id (length p.plan.nodes) (times id (referred p.plan.nodes))
                (times id (held p.frames)) root rooted.0 before
                (ap (λ (fs : List Frame). times id (held fs)) e) (owned id);
          node_limit = omega (arith, g.admitted, g.node_limit);
          diagnostic_limit = omega (arith, g.reported, g.node_limit);
        }

-- One turn of the loop, where the turns after it are right.
module _ (limits : DataLimits) (fuel : ℕ)
    (rec : (q : Parser) (low : ℕ)
      → Good (record { top = limits; low = low }) q
      → Lexed false q.scanner.answers
      → Spanned low q.scanner.offset q.scanner.answers
      → length q.scanner.answers < fuel
      → Ensures (Sound limits) (parse_loop fuel q)) where
  abbrev turn : Token × Parser → Outcome RawPlan
  turn (token, q) = elim (is_complete q) [
    | true ↦ finish token q
    | false ↦ step token q >>= λ p''. parse_loop fuel p''
  ]

  turn-Sound :
      (token : Token) (q : Parser) (low : ℕ)
      → Good (record { top = limits; low = low }) q
      → InRange token.span
      → (is_complete q ≡ false
          → Ensures (Sound limits) (step token q >>= λ p''. parse_loop fuel p''))
      → Ensures (Sound limits) (turn (token, q))
  turn-Sound token q low good range more = by_complete (is_complete q) refl
    where
      by_complete :
          (complete : Bool)
          → is_complete q ≡ complete
          → Ensures (Sound limits) (elim complete [
            | true ↦ finish token q
            | false ↦ step token q >>= λ p''. parse_loop fuel p''
          ])
      by_complete true c = finish-Sound (record { top = limits; low = low }) q token good range c
      by_complete false c = more c

  module _ (p : Parser) (low : ℕ) (g : Good (record { top = limits; low = low }) p)
      (lexed : Lexed false p.scanner.answers)
      (spanned : Spanned low p.scanner.offset p.scanner.answers)
      (enough : length p.scanner.answers < suc fuel) where
    -- After the last answer.
    at_end :
        p.scanner.answers ≡ []
        → Ensures (Sound limits) (
            turn (
              record {
                kind = eof;
                span = record { start = p.scanner.offset; end = p.scanner.offset };
              },
              p,
            ))
    at_end e =
        let at : Span = record { start = p.scanner.offset; end = p.scanner.offset } in
        let range : InRange at =
          (omega arith, (subst (Spanned low p.scanner.offset) e spanned).1) in
        turn-Sound (record { kind = eof; span = at }) p low g range
          λ _.
            Ensures-bind (λ _. ⊥) (Sound limits) (step (record { kind = eof; span = at }) p) _
              (step_eof (record { top = limits; low = low }) p g at range)
              λ q stopped. absurd stopped

    at_token :
        (token : Token) (answers : List (Result Token ScanError))
        → p.scanner.answers ≡ ok token ∷ answers
        → Ensures (Sound limits) (
            turn (
              token,
              record p { scanner = record { answers = answers; offset = p.scanner.offset } },
            ))
    at_token token answers e =
        let scanner : Scanner = record { answers = answers; offset = p.scanner.offset } in
        let q : Parser = record p { scanner = scanner } in
        let (after, range, later) = subst (Spanned low p.scanner.offset) e spanned in
        let before : Bounds = record { top = limits; low = low } in
        let behind : Bounds = record { top = limits; low = token.span.end } in
        let good : Good behind q =
          Good-mono before token.span.end q (omega (arith, after, range.0)) range.1 (
            Paid-Good before p q
              (rescanned before p p scanner (Paid-self before p g.same_limits g.payload_limit))
              g) in
        turn-Sound token q token.span.end good range λ unfinished.
          Ensures-bind (Fine behind (length answers)) (Sound limits) (step token q) _
            (step-Fine behind q good token.kind token.span (subst (Lexed false) e lexed) later
              (range, refl) unfinished)
            λ r (low', good', lexed', spanned', le).
              rec r low' good' lexed' spanned' (omega (arith, le, enough, ap length e))

    turn_answers :
        (answers : List (Result Token ScanError))
        → p.scanner.answers ≡ answers
        → Ensures (Sound limits) (
            (elim answers [
              | [] ↦ ok (
                record {
                  kind = eof;
                  span = record { start = p.scanner.offset; end = p.scanner.offset };
                },
                p,
              )
              | answer ∷ answers ↦ elim answer [
                | err e ↦ fail p e.span (scanning e.message)
                | ok token ↦ ok (
                  token,
                  record p { scanner = record { answers = answers; offset = p.scanner.offset } },
                )
              ]
            ])
            >>= turn)
    turn_answers [] e = at_end e
    turn_answers (err x ∷ answers) e =
        Ensures-bind (λ _. ⊥) (Sound limits) (fail p x.span (scanning x.message)) turn
          (fail-Ensures (λ _. ⊥) p x.span (scanning x.message)
            (subst (Spanned low p.scanner.offset) e spanned))
          λ _ stopped. absurd stopped
    turn_answers (ok token ∷ answers) e = at_token token answers e

-- The fuel is enough where it is more than the answers that are left.
parse_loop-Sound :
    (limits : DataLimits) (fuel : ℕ) (p : Parser) (low : ℕ)
    → Good (record { top = limits; low = low }) p
    → Lexed false p.scanner.answers
    → Spanned low p.scanner.offset p.scanner.answers
    → length p.scanner.answers < fuel
    → Ensures (Sound limits) (parse_loop fuel p)
unfolding parse_loop next
parse_loop-Sound limits zero p low g lexed spanned enough = absurd (omega (arith, enough))
parse_loop-Sound limits (suc fuel) p low g lexed spanned enough =
    turn_answers limits fuel (parse_loop-Sound limits fuel) p low g lexed spanned enough
      p.scanner.answers refl

-- A parse from the parser's initial state, of less than 4 GiB and of tokens whose string tokens stand between
-- quotes and whose spans follow one another up to the offset of the input's end, also below 2 ^ 32: it neither
-- panics, the conversion of spans to locations included, nor runs out of the model's fuel. A plan that it returns
-- has its last node as the root, each node after the nodes it contains, each node but the root contained exactly
-- once, and no more nodes and no more diagnostics than the limit on nodes.
pub parse-Sound :
    (bytes source : ℕ) (scanner : Scanner) (limits : DataLimits)
    → bytes ≤ u32_max
    → Lexed false scanner.answers
    → Spanned 0 scanner.offset scanner.answers
    → Ensures (Sound limits) (parse bytes (new source scanner limits))
unfolding parse new
parse-Sound bytes source scanner limits small lexed spanned =
    let p : Parser = new source scanner limits in
    let whole : Span = record { start = 0; end = bytes } in
    Ensures-bind (λ _. bytes ≤ limits.file_size) (Sound limits)
      (check_limit p whole file_size bytes limits.file_size) _
      (check_limit-Ensures p whole file_size bytes limits.file_size (omega arith, small))
      λ _ _.
        parse_loop-Sound limits (length scanner.answers + 1) p 0 start lexed spanned (omega arith)
  where
    start : Good (record { top = limits; low = 0 }) (new source scanner limits)
    start = record {
      same_limits = refl;
      rooted = tt;
      ordered = tt;
      stack = tt;
      owned = λ id. ground arith;
      placed = tt;
      in_source = omega arith;
      reported = omega arith;
      admitted = omega arith;
      node_limit = omega arith;
      depth_limit = omega arith;
      payload_limit = omega arith;
    }
