-- ===== src/JsonParse/Machine/Turns.antt =====
-- A round of the loop keeps what the machine keeps, and the end of the input ends it.
use mathlib.Core.Path.{subst}
use telora.Common.{◌≡◌, refl, sym, true, false, Option, List, [], ◌∷◌, if◌then◌else◌, length, err}
use telora.JsonParse.{
  Kind, comma, r_bracket, eof, Span, Token, panic, expected_value, expected_colon, key_not_string,
  Expect, value_or_end, key_or_end, separator, Container, Frame, Parser, Outcome, location, error,
  fail, expected_separator,
}
use telora.JsonParse.Machine.{
  value, close, is_array, at_value, at_key, at_colon, closes, at_separator, step, is_complete,
}
use telora.JsonParse.Machine.Conditions.{
  Bounds, Last, InRange, Spanned, is_some, accepts, prepared, Good, Fine,
}
use telora.JsonParse.Machine.Rules.{fail-Ensures, Ensures}
use telora.JsonParse.Machine.Values.{framed-Stack}
use telora.JsonParse.Machine.Steps.{Next}
use telora.JsonParse.Machine.Rounds.{
  bare-Fine, at_value-Fine, at_key-Fine, at_colon-Fine, at_separator-Fine,
}

-- What a container with something expected in it has ready.
value-accepts :
    (c : Container) (sep : Option Span) → prepared Expect.value c sep ≡ true → accepts c ≡ true
value-accepts (Container.array items) sep t = refl
value-accepts (Container.object fields pending) sep t = t

value_separated :
    (c : Container) (sep : Option Span)
    → prepared Expect.value c sep ≡ true
    → is_array c ≡ true
    → is_some sep ≡ true
value_separated (Container.array items) sep t a = t
value_separated (Container.object fields pending) sep t a = absurd (cc a)

value_or_end-accepts :
    (c : Container) (sep : Option Span) → prepared value_or_end c sep ≡ true → accepts c ≡ true
value_or_end-accepts (Container.array items) sep t = refl
value_or_end-accepts (Container.object fields pending) sep t = absurd (cc t)

key_unlisted :
    (c : Container) (sep : Option Span) → prepared Expect.key c sep ≡ true → is_array c ≡ false
key_unlisted (Container.array items) sep t = absurd (cc t)
key_unlisted (Container.object fields pending) sep t = refl

key_separated :
    (c : Container) (sep : Option Span) → prepared Expect.key c sep ≡ true → is_some sep ≡ true
key_separated (Container.array items) sep t = absurd (cc t)
key_separated (Container.object fields pending) sep t = t

key_or_end_unlisted :
    (c : Container) (sep : Option Span) → prepared key_or_end c sep ≡ true → is_array c ≡ false
key_or_end_unlisted (Container.array items) sep t = absurd (cc t)
key_or_end_unlisted (Container.object fields pending) sep t = refl

colon-prepared :
    (c : Container) (sep : Option Span)
    → prepared Expect.colon c sep ≡ true
    → prepared Expect.value c sep ≡ true
colon-prepared (Container.array items) sep t = absurd (cc t)
colon-prepared (Container.object fields pending) sep t = t

module _ (limits : Bounds) (p : Parser) (g : Good limits p) where
  bare_value :
      (kind : Kind) (span : Span)
      → p.frames ≡ []
      → at_value true (record { kind = kind; span = span }) p
        ≡ value (record { kind = kind; span = span }) p
  unfolding at_value value fail error location
  bare_value comma span e = rw (e, at_value) refl
  bare_value r_bracket span e = rw (e, at_value) refl
  bare_value _ span e = refl

  -- A round, by what the innermost frame expects.
  abbrev round : Token → Expect → Outcome Parser
  round token expect = elim expect [
    | Expect.value ↦ at_value true token p
    | value_or_end ↦ at_value false token p
    | Expect.key ↦ at_key true token p
    | key_or_end ↦ at_key false token p
    | Expect.colon ↦ at_colon token p
    | separator ↦ at_separator token p
  ]

  module _ (kind : Kind) (span : Span) (allowed : Next kind p)
      (spanned : Spanned limits.low p.scanner.offset p.scanner.answers)
      (last : Last limits span) where
    abbrev current : Token
    current = record { kind = kind; span = span }

    abbrev Goal : Outcome Parser → Type 0
    Goal o = Ensures (Fine limits (length p.scanner.answers)) o

    by_expect :
        (f : Frame) (fs : List Frame) (x : Expect)
        → p.frames ≡ f ∷ fs
        → f.expect ≡ x
        → Goal (round current x)
    by_expect f fs x e k = cases x (
        subst (λ x. prepared x f.container f.separator ≡ true) k (framed-Stack limits p g f fs e).0)
      where
        cases : (x : Expect) → prepared x f.container f.separator ≡ true → Goal (round current x)
        cases Expect.value t =
            at_value-Fine limits p g spanned f fs e true kind span
              (value-accepts f.container f.separator t)
              (λ _. value_separated f.container f.separator t) allowed last
        cases value_or_end t =
            at_value-Fine limits p g spanned f fs e false kind span
              (value_or_end-accepts f.container f.separator t) (λ c. absurd (cc c)) allowed last
        cases Expect.key t =
            at_key-Fine limits p g spanned f fs e true kind span
              (key_unlisted f.container f.separator t)
              (λ _. key_separated f.container f.separator t) allowed last
        cases key_or_end t =
            at_key-Fine limits p g spanned f fs e false kind span
              (key_or_end_unlisted f.container f.separator t) (λ c. absurd (cc c)) allowed last
        cases Expect.colon t =
            at_colon-Fine limits p g spanned f fs e kind span
              (colon-prepared f.container f.separator t) allowed last
        cases separator t = at_separator-Fine limits p g spanned f fs e kind span allowed last

    pub step-Fine : is_complete p ≡ false → Goal (step current p)
    unfolding step
    step-Fine unfinished = by_frames p.frames refl
      where
        by_frames :
            (fs : List Frame)
            → p.frames ≡ fs
            → Goal (elim fs [ [] ↦ at_value true current p | f ∷ fs ↦ round current f.expect ])
        by_frames [] e =
            rw (bare_value kind span e)
              (bare-Fine limits p g spanned kind span e unfinished allowed last)
        by_frames (f ∷ fs) e = by_expect f fs f.expect e refl

  -- The end of the input is an error before the root is complete.
  pub step_eof :
      (span : Span) → InRange span → Ensures (λ q. ⊥) (step (record { kind = eof; span = span }) p)
  unfolding step at_value at_key at_colon at_separator value
  step_eof span range = by_frames p.frames refl
    where
      ended : Token
      ended = record { kind = eof; span = span }

      by_container :
          (c : Container)
          → Ensures {A = Parser}
              (λ q. ⊥)
              (if closes c eof then close span p else fail p span expected_separator)
      by_container (Container.array items) = fail-Ensures (λ q. ⊥) p span expected_separator range
      by_container (Container.object fields pending) =
          fail-Ensures (λ q. ⊥) p span expected_separator range

      at_end :
          (f : Frame) (fs : List Frame) (x : Expect)
          → p.frames ≡ f ∷ fs
          → Ensures (λ q. ⊥) (round (record { kind = eof; span = span }) x)
      at_end f fs Expect.value e = fail-Ensures (λ q. ⊥) p span expected_value range
      at_end f fs value_or_end e = fail-Ensures (λ q. ⊥) p span expected_value range
      at_end f fs Expect.key e = fail-Ensures (λ q. ⊥) p span key_not_string range
      at_end f fs key_or_end e = fail-Ensures (λ q. ⊥) p span key_not_string range
      at_end f fs Expect.colon e = fail-Ensures (λ q. ⊥) p span expected_colon range
      at_end f fs separator e =
          subst
            (λ (fs : List Frame).
              Ensures (λ q. ⊥)
                (elim fs [
                  | [] ↦ err panic
                  | f ∷ fs ↦
                      if closes f.container eof
                      then close span p
                      else fail p span expected_separator
                ]))
            (sym e) (by_container f.container)

      by_frames :
          (fs : List Frame)
          → p.frames ≡ fs
          → Ensures
              (λ q. ⊥)
              (elim fs [
                | [] ↦ at_value true (record { kind = eof; span = span }) p
                | f ∷ fs ↦ round (record { kind = eof; span = span }) f.expect
              ])
      by_frames [] e = fail-Ensures (λ q. ⊥) p span expected_value range
      by_frames (f ∷ fs) e = at_end f fs f.expect e
