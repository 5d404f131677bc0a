-- ===== src/JsonParse/Machine/Rounds.antt =====
-- What each expectation of the innermost frame makes of a token keeps what the machine keeps.
use mathlib.Core.Path.{subst}
use telora.Common.{
  ℕ, ◌≡◌, refl, sym, ◌∙◌, inl, inr, Bool, true, false, Option, none, some, List, [], ◌∷◌, arith,
  if◌then◌else◌, Bool-cases, length,
}
use telora.JsonParse.{
  Kind, r_brace, r_bracket, comma, colon, q_start, Span, Location, StringSpan, expected_colon,
  expected_separator, key_not_string, Expect, Container, Frame, Parser, container_slot,
}
use telora.JsonParse.Strings.{read_string}
use telora.JsonParse.Strings.Measure.{read_string-Read, Read}
use telora.JsonParse.Machine.{
  skip_comma, value, close, close_after, set_expect, is_comma, is_r_bracket, is_r_brace, is_array,
  in_array, at_value, set_key, at_key, at_colon, closes, at_separator, is_complete,
}
use telora.JsonParse.Machine.Conditions.{
  Bounds, Last, Spanned, Lexed, is_some, accepts, prepared, Good, Kept, Fine,
}
use telora.JsonParse.Machine.Rules.{fail-Ensures, Ensures, Ensures-bind, Ensures-map}
use telora.JsonParse.Machine.Carried.{Good-mono, Kept-Fine, Paid-self, Paid-Good}
use telora.JsonParse.Machine.Slots.{container_slot-Ensures}
use telora.JsonParse.Machine.Values.{
  framed-unrooted, framed-Waiting, reframed-Good, skip_comma-Kept, close-Kept, close_after-Kept,
}
use telora.JsonParse.Machine.Steps.{Next, value-Fine}

module _ (limits : Bounds) (p : Parser) (g : Good limits p)
    (spanned : Spanned limits.low p.scanner.offset p.scanner.answers) where
  -- A value where the state has no root and no frame.
  pub bare-Fine :
      (kind : Kind) (span : Span)
      → p.frames ≡ []
      → is_complete p ≡ false
      → Next kind p
      → Last limits span
      → Ensures
          (Fine limits (length p.scanner.answers))
          (value (record { kind = kind; span = span }) p)
  bare-Fine kind span e unfinished allowed last =
      value-Fine limits p g (no_root p.root refl) (rw e tt) kind span allowed spanned last
    where
      no_root : (root : Option ℕ) → p.root ≡ root → p.root ≡ none
      no_root none k = k
      no_root (some id) k =
          let t : is_complete p ≡ true = rw (e, k) refl in absurd (cc (t, unfinished))

  module _ (f : Frame) (fs : List Frame) (e : p.frames ≡ f ∷ fs) where
    framed_value-Fine :
        (kind : Kind) (span : Span)
        → accepts f.container ≡ true
        → Next kind p
        → Last limits span
        → Ensures
            (Fine limits (length p.scanner.answers))
            (value (record { kind = kind; span = span }) p)
    framed_value-Fine kind span ready allowed last =
        value-Fine limits p g (framed-unrooted limits p g f fs e)
          (framed-Waiting limits p g f fs e ready) kind span allowed spanned last

    pub at_value-Fine :
        (after_comma : Bool) (kind : Kind) (span : Span)
        → accepts f.container ≡ true
        → (after_comma ≡ true → is_array f.container ≡ true → is_some f.separator ≡ true)
        → Next kind p
        → Last limits span
        → Ensures
            (Fine limits (length p.scanner.answers))
            (at_value after_comma (record { kind = kind; span = span }) p)
    unfolding at_value
    at_value-Fine after_comma comma span ready separated allowed last =
        rw (e, at_value)
          (Ensures-map (Kept limits p) _ (skip_comma span p)
            (λ q. Kept-Fine limits p q allowed spanned)
            (skip_comma-Kept limits p g span f fs e last.0))
    at_value-Fine after_comma r_bracket span ready separated allowed last =
        subst
          (λ b. Ensures (Fine limits (length p.scanner.answers)) (
            if b
            then close_after after_comma span p
            else value (record { kind = r_bracket; span = span }) p))
          (sym framed_array) (by_container (is_array f.container) refl)
      where
        framed_array : in_array p ≡ is_array f.container
        framed_array = rw e refl

        by_container :
            (b : Bool)
            → is_array f.container ≡ b
            → Ensures (Fine limits (length p.scanner.answers)) (
                if b
                then close_after after_comma span p
                else value (record { kind = r_bracket; span = span }) p)
        by_container true a =
            Ensures-map (Kept limits p) _ (close_after after_comma span p)
              (λ q. Kept-Fine limits p q allowed spanned)
              (close_after-Kept limits p g after_comma span f fs e last (λ c. separated c a))
        by_container false a = framed_value-Fine r_bracket span ready allowed last
    at_value-Fine after_comma kind span ready separated allowed last =
        framed_value-Fine kind span ready allowed last

    pub at_key-Fine :
        (after_comma : Bool) (kind : Kind) (span : Span)
        → is_array f.container ≡ false
        → (after_comma ≡ true → is_some f.separator ≡ true)
        → Next kind p
        → Last limits span
        → Ensures
            (Fine limits (length p.scanner.answers))
            (at_key after_comma (record { kind = kind; span = span }) p)
    unfolding at_key set_key
    at_key-Fine after_comma comma span keyed separated allowed last =
        Ensures-map (Kept limits p) _ (skip_comma span p)
          (λ q. Kept-Fine limits p q allowed spanned)
          (skip_comma-Kept limits p g span f fs e last.0)
    at_key-Fine after_comma r_brace span keyed separated allowed last =
        Ensures-map (Kept limits p) _ (close_after after_comma span p)
          (λ q. Kept-Fine limits p q allowed spanned)
          (close_after-Kept limits p g after_comma span f fs e last separated)
    at_key-Fine after_comma q_start span keyed separated allowed last =
        Ensures-bind (λ _. Unit {0}) _ (container_slot p span) _
          (container_slot-Ensures p span last.0)
          λ _ _.
            Ensures-bind (Read limits p p.scanner.answers) (Fine limits (length p.scanner.answers))
              (read_string span.start p) _
              (read_string-Read limits p span.start p allowed spanned
                (omega (arith, last.0.0, last.1))
                (Paid-self limits p g.same_limits g.payload_limit))
              λ (found, q) read. keyed-Fine found q read f.container refl
      where
        keyed-Fine :
            (found : StringSpan × Location) (q : Parser)
            → Read limits p p.scanner.answers (found, q)
            → (c : Container) → f.container ≡ c
            → Ensures (Fine limits (length p.scanner.answers)) (set_key found q)
        keyed-Fine found q read (Container.array items) k =
            absurd (cc (subst (λ c. is_array c ≡ false) k keyed))
        keyed-Fine found q (paid, outside, le, low, on, small, later)
              (Container.object fields pending) k =
            rw (paid.same_frames, e, k, set_key)
              (
                low,
                reframed-Good (record { top = limits.top; low = low }) q
                    (Good-mono limits low q on small (Paid-Good limits p q paid g)) f
                    (record f {
                      container = Container.object fields (some found);
                      expect = Expect.colon;
                    })
                    fs (paid.same_frames ∙ e) refl (rw k refl) (λ h. h),
                outside,
                later,
                le,
              )
    at_key-Fine after_comma _ span keyed separated allowed last =
        fail-Ensures (Fine limits (length p.scanner.answers)) p span key_not_string last.0

    pub at_colon-Fine :
        (kind : Kind) (span : Span)
        → prepared Expect.value f.container f.separator ≡ true
        → Next kind p
        → Last limits span
        → Ensures
            (Fine limits (length p.scanner.answers))
            (at_colon (record { kind = kind; span = span }) p)
    unfolding at_colon set_expect
    at_colon-Fine colon span fits allowed last =
        rw (e, at_colon, set_expect)
          (
            limits.low,
            reframed-Good limits p g f (record f { expect = Expect.value }) fs e fits refl (λ h. h),
            allowed,
            spanned,
            omega arith,
          )
    at_colon-Fine _ span fits allowed last =
        fail-Ensures (Fine limits (length p.scanner.answers)) p span expected_colon last.0

    comma-prepared :
        (c : Container) (span : Span)
        → prepared (if is_array c then Expect.value else Expect.key) c (some span) ≡ true
    comma-prepared (Container.array items) span = refl
    comma-prepared (Container.object fields pending) span = refl

    closing-Fine :
        (kind : Kind) (span : Span)
        → is_comma kind ≡ false
        → (closes f.container kind ≡ true → Lexed false p.scanner.answers)
        → Last limits span
        → Ensures
            (Fine limits (length p.scanner.answers))
            (at_separator (record { kind = kind; span = span }) p)
    unfolding at_separator
    closing-Fine kind span other allowed last = elim (Bool-cases (closes f.container kind)) [
      | inl c ↦
          rw (e, other, c, at_separator)
            (Ensures-map (Kept limits p) _ (close span p)
              (λ q. Kept-Fine limits p q (allowed c) spanned)
              (close-Kept limits p g span f fs e last))
      | inr c ↦
          rw (e, other, c, at_separator)
            (fail-Ensures (Fine limits (length p.scanner.answers)) p span expected_separator last.0)
    ]

    no_close :
        (c : Container) (kind : Kind)
        → is_r_bracket kind ≡ false
        → is_r_brace kind ≡ false
        → closes c kind ≡ true
        → ⊥
    no_close (Container.array items) kind a b t = cc (a, t)
    no_close (Container.object fields pending) kind a b t = cc (b, t)

    pub at_separator-Fine :
        (kind : Kind) (span : Span)
        → Next kind p
        → Last limits span
        → Ensures
            (Fine limits (length p.scanner.answers))
            (at_separator (record { kind = kind; span = span }) p)
    unfolding at_separator
    at_separator-Fine comma span allowed last =
        rw (e, at_separator)
          (
            limits.low,
            reframed-Good limits p g f
                (record f {
                  separator = some span;
                  expect = if is_array f.container then Expect.value else Expect.key;
                })
                fs e (comma-prepared f.container span) refl
                (λ h. (h.0, (last.0, omega (arith, last.1)))),
            allowed,
            spanned,
            omega arith,
          )
    at_separator-Fine r_bracket span allowed last =
        closing-Fine r_bracket span refl (λ _. allowed) last
    at_separator-Fine r_brace span allowed last = closing-Fine r_brace span refl (λ _. allowed) last
    at_separator-Fine kind span allowed last =
        closing-Fine kind span refl (λ c. absurd (no_close f.container kind refl refl c)) last
