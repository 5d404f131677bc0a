-- ===== src/JsonParse/Machine/Rules.antt =====
-- The rule for sequences of the machine's steps, and its diagnostics.
use telora.Common.{◌≡◌, refl, true, arith, ◌>>=◌, ok, err}
use telora.JsonParse.{
  is_range, location, error, fail, Message, Diagnostic, Location, Span, diagnostic, panic,
  out_of_fuel, Parser, Outcome, ◌>>=◌,
}
use telora.JsonParse.Machine.Conditions.{InRange}

-- A result that is right, or a diagnostic; no panic and no end of fuel.
abbrev pub Ensures {ℓ} : {A : Type ℓ} → (A → Type 0) → Outcome A → Type 0
Ensures P (ok a) = P a
Ensures P (err (diagnostic d)) = Unit {0}
Ensures P (err panic) = ⊥
Ensures P (err out_of_fuel) = ⊥

pub Ensures-bind {ℓ κ} :
    {A : Type ℓ} {B : Type κ} (P : A → Type 0) (Q : B → Type 0) (r : Outcome A) (f : A → Outcome B)
    → Ensures P r
    → ((a : A) → P a → Ensures Q (f a))
    → Ensures Q (r >>= f)
Ensures-bind P Q (ok a) f h k = k a h
Ensures-bind P Q (err (diagnostic d)) f h k = tt
Ensures-bind P Q (err panic) f h k = h
Ensures-bind P Q (err out_of_fuel) f h k = h

pub Ensures-map {ℓ} :
    {A : Type ℓ} (P Q : A → Type 0) (r : Outcome A)
    → ((a : A) → P a → Q a)
    → Ensures P r
    → Ensures Q r
Ensures-map P Q (ok a) k h = k a h
Ensures-map P Q (err (diagnostic d)) k h = tt
Ensures-map P Q (err panic) k h = h
Ensures-map P Q (err out_of_fuel) k h = h

-- A span that is a range of the source has a location.
pub location-Ensures :
    (p : Parser) (span : Span)
    → InRange span
    → Ensures (λ (l : Location). l.span ≡ span) (location p span)
unfolding location
location-Ensures p span (order, fits) =
    let range : is_range span ≡ true = ground (arith, order, fits) in rw (range, location) refl

pub error-Ensures :
    (p : Parser) (span : Span) (message : Message)
    → InRange span
    → Ensures (λ (d : Diagnostic). Unit {0}) (error p span message)
unfolding error
error-Ensures p span message range =
    Ensures-bind (λ (l : Location). l.span ≡ span) (λ (d : Diagnostic). Unit {0}) (location p span)
      _ (location-Ensures p span range) λ loc e. tt

pub fail-Ensures {ℓ} :
    {A : Type ℓ} (P : A → Type 0) (p : Parser) (span : Span) (message : Message)
    → InRange span
    → Ensures P (fail p span message)
unfolding fail
fail-Ensures P p span message range =
    Ensures-bind (λ (d : Diagnostic). Unit {0}) P (error p span message) _
      (error-Ensures p span message range) λ d e. tt
