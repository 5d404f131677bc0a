-- ===== src/JsonParse/Machine/Steps.antt =====
-- Each round of the loop keeps what the machine keeps.
use mathlib.Core.Path.{subst}
use telora.Common.{
  ℕ, ◌≤◌, ◌≡◌, refl, sym, ap, ◌∙◌, true, false, none, [], arith, length, All, ◌>>=◌, ok,
}
use telora.JsonParse.{
  Kind, l_brace, l_bracket, q_start, true_word, false_word, null_word, Span, Token, Scanner, string,
  StringSpan, expected_value, null, bool, Location, location, RawKind, Expect, value_or_end,
  key_or_end, Container, Parser, ◌>>=◌, reserve_value, emit,
}
use telora.JsonParse.Strings.{read_string}
use telora.JsonParse.Strings.Measure.{read_string-Read, Read}
use telora.JsonParse.Machine.{open_frame, scalar, value}
use telora.JsonParse.Machine.Attach.{emit-Good}
use telora.JsonParse.Machine.Conditions.{
  Bounds, InRange, Spanned, Last, Owned, Allowed, Lexed, Waiting, prepared, contained, children,
  Good, Ready, Kept, Fine,
}
use telora.JsonParse.Machine.Rules.{
  location-Ensures, fail-Ensures, Ensures, Ensures-bind, Ensures-map,
}
use telora.JsonParse.Machine.Carried.{Ready-mono, Kept-Fine, Paid-self, Paid-Ready}
use telora.JsonParse.Machine.Slots.{Reserved, reserve_value-Reserved, Reserved-Ready}

-- The modes after the next token.
abbrev pub Next : Kind → Parser → Type 0
Next kind p = Allowed false kind (Lexed false p.scanner.answers) (Lexed true p.scanner.answers)

-- A new innermost frame in the reserved slot.
opened-Good :
    (limits : Bounds) (start : ℕ) (expect : Expect) (container : Container) (p q : Parser)
    → Good limits p
    → Ready limits q
    → Reserved p q
    → start ≤ limits.low
    → prepared expect container none ≡ true
    → contained container ≡ []
    → Good limits (open_frame start expect container q)
unfolding open_frame
opened-Good limits start expect container p q g r (same, few, deep) before fits empty = record {
  same_limits = r.same_limits;
  rooted = rw r.unrooted tt;
  ordered = r.ordered;
  stack = (fits, rw empty tt, r.waiting);
  owned = λ id. rw empty (
      subst (λ (q : Parser). Owned (length q.plan.nodes) q.plan.nodes q.frames [] q.root) (sym same)
        g.owned id);
  placed = ((before, tt), r.placed);
  in_source = r.in_source;
  reported = omega (
    arith,
    g.reported,
    ap (λ (q : Parser). length q.plan.diagnostics) same,
    ap (λ (q : Parser). length q.frames) same,
    ap (λ (q : Parser). q.nodes) same,
  );
  admitted = omega (arith, r.admitted);
  node_limit = r.node_limit;
  depth_limit = omega (arith, r.depth_limit);
  payload_limit = r.payload_limit;
}

module _ (limits : Bounds) (p : Parser) (g : Good limits p) where
  -- A value where one may stand.
  module _ (unrooted : p.root ≡ none) (waiting : All (Waiting (length p.plan.nodes)) p.frames) where
    slot-Ready : (q : Parser) → Reserved p q → Ready limits q
    slot-Ready q r = Reserved-Ready limits p q g unrooted waiting r

    same_scanner : (q : Parser) → Reserved p q → q.scanner ≡ p.scanner
    same_scanner q r = ap (λ (q : Parser). q.scanner) r.0

    -- A leaf has no children, and nothing else is loose.
    leaf-Owned :
        (kind : RawKind) (q : Parser)
        → Reserved p q
        → children kind ≡ []
        → Owned (length q.plan.nodes) q.plan.nodes q.frames (children kind) none
    leaf-Owned kind q r leaf = rw leaf (
        subst (λ (q : Parser). Owned (length q.plan.nodes) q.plan.nodes q.frames [] none) (sym r.0)
          (subst (Owned (length p.plan.nodes) p.plan.nodes p.frames []) unrooted g.owned))

    scalar-Kept :
        (kind : RawKind) (span : Span)
        → children kind ≡ []
        → InRange span
        → Ensures (Kept limits p) (scalar kind span p)
    unfolding scalar
    scalar-Kept kind span leaf range =
        Ensures-bind (Reserved p) (Kept limits p) (reserve_value p span) _
          (reserve_value-Reserved p span range)
          λ q r.
            Ensures-bind (λ (l : Location). l.span ≡ span) (Kept limits p) (location q span) _
              (location-Ensures q span range)
              λ loc _.
                Ensures-map (Kept limits q) (Kept limits p) (emit kind loc q)
                  (λ s (good, same). (good, same ∙ same_scanner q r))
                  (emit-Good limits kind loc q (slot-Ready q r) (rw leaf tt)
                    (leaf-Owned kind q r leaf))

    opening-Kept :
        (span : Span) (start : ℕ) (expect : Expect) (container : Container)
        → InRange span
        → start ≤ limits.low
        → prepared expect container none ≡ true
        → contained container ≡ []
        → Ensures
            (Kept limits p)
            (reserve_value p span >>= λ q. ok (open_frame start expect container q))
    unfolding open_frame
    opening-Kept span start expect container range before fits empty =
        Ensures-bind (Reserved p) (Kept limits p) (reserve_value p span) _
          (reserve_value-Reserved p span range)
          λ q r. (
            opened-Good limits start expect container p q g (slot-Ready q r) r before fits empty,
            same_scanner q r,
          )

    -- The node of a string, where the scanner stands behind it.
    named-Fine :
        (q s : Parser) (content : StringSpan) (loc : Location)
        → Reserved p q
        → Read limits q q.scanner.answers ((content, loc), s)
        → Ensures (Fine limits (length p.scanner.answers)) (emit (string content) loc s)
    named-Fine q s content loc r (paid, outside, le, low, on, small, later) =
        let behind : Bounds = record { top = limits.top; low = low } in
        let ready : Ready behind s =
          Ready-mono limits low s on small (Paid-Ready limits q s paid (slot-Ready q r)) in
        let loose : Owned (length s.plan.nodes) s.plan.nodes s.frames [] none =
          rw (paid.same_plan, paid.same_frames) (leaf-Owned (string content) q r refl) in
        Ensures-map (Kept behind s) (Fine limits (length p.scanner.answers))
          (emit (string content) loc s)
          (λ t kept.
            let (m, good, fine, spanned, few) = Kept-Fine behind s t outside later kept in
            (
              m,
              good,
              fine,
              spanned,
              omega (arith, few, le, ap (λ (s : Scanner). length s.answers) (same_scanner q r)),
            ))
          (emit-Good behind (string content) loc s ready tt loose)

    string-Fine :
        (token : Token)
        → token.kind ≡ q_start
        → Lexed true p.scanner.answers
        → Spanned limits.low p.scanner.offset p.scanner.answers
        → Last limits token.span
        → Ensures (Fine limits (length p.scanner.answers)) (value token p)
    unfolding value
    string-Fine token e lexed spanned (range, at_low) =
        rw (e, value)
          (Ensures-bind (Reserved p) (Fine limits (length p.scanner.answers))
            (reserve_value p token.span) _ (reserve_value-Reserved p token.span range)
            λ q r.
              let ready = slot-Ready q r in
              Ensures-bind (Read limits q q.scanner.answers)
                (Fine limits (length p.scanner.answers)) (read_string token.span.start q) _
                (read_string-Read limits q token.span.start q
                  (subst (λ (s : Scanner). Lexed true s.answers) (sym (same_scanner q r)) lexed)
                  (subst (λ (s : Scanner). Spanned limits.low s.offset s.answers)
                    (sym (same_scanner q r)) spanned)
                  (omega (arith, range.0, at_low))
                  (Paid-self limits q ready.same_limits ready.payload_limit))
                λ ((content, loc), s) read. named-Fine q s content loc r read)

    pub value-Fine :
        (kind : Kind) (span : Span)
        → Next kind p
        → Spanned limits.low p.scanner.offset p.scanner.answers
        → Last limits span
        → Ensures
            (Fine limits (length p.scanner.answers))
            (value (record { kind = kind; span = span }) p)
    unfolding value
    value-Fine q_start span allowed spanned last =
        string-Fine (record { kind = q_start; span = span }) refl allowed spanned last
    value-Fine l_bracket span allowed spanned last =
        Ensures-map (Kept limits p) _ (value (record { kind = l_bracket; span = span }) p)
          (λ q. Kept-Fine limits p q allowed spanned)
          (opening-Kept span span.start value_or_end (Container.array []) last.0
            (omega (arith, last.0.0, last.1)) refl refl)
    value-Fine l_brace span allowed spanned last =
        Ensures-map (Kept limits p) _ (value (record { kind = l_brace; span = span }) p)
          (λ q. Kept-Fine limits p q allowed spanned)
          (opening-Kept span span.start key_or_end (Container.object [] none) last.0
            (omega (arith, last.0.0, last.1)) refl refl)
    value-Fine null_word span allowed spanned last =
        Ensures-map (Kept limits p) _ (scalar null span p)
          (λ q. Kept-Fine limits p q allowed spanned) (scalar-Kept null span refl last.0)
    value-Fine true_word span allowed spanned last =
        Ensures-map (Kept limits p) _ (scalar (bool true) span p)
          (λ q. Kept-Fine limits p q allowed spanned) (scalar-Kept (bool true) span refl last.0)
    value-Fine false_word span allowed spanned last =
        Ensures-map (Kept limits p) _ (scalar (bool false) span p)
          (λ q. Kept-Fine limits p q allowed spanned) (scalar-Kept (bool false) span refl last.0)
    value-Fine (Kind.number float) span allowed spanned last =
        Ensures-map (Kept limits p) _ (scalar (RawKind.number span float) span p)
          (λ q. Kept-Fine limits p q allowed spanned)
          (scalar-Kept (RawKind.number span float) span refl last.0)
    value-Fine _ span allowed spanned last =
        fail-Ensures (Fine limits (length p.scanner.answers)) p span expected_value last.0
