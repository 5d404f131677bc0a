-- ===== src/Common/Results.antt =====
-- Rust's `Result`, and the checked additions of its machine integers.
use Prim.Native.Nat.{ℕ, ◌+◌, ◌-◌, ◌*◌, ◌^◌}
use mathlib.Core.Option.{Option, none, some}
use telora.Common.Tests.{leb, if◌then◌else◌}

pub data Result {ℓ κ} (A : Type ℓ) (E : Type κ) : Type (ℓ ⊔ κ) where
  ok : A → Result A E
  err : E → Result A E

abbrev pub u32_max : ℕ
u32_max = 2 ^ 32 - 1

abbrev pub u64_max : ℕ
u64_max = 2 ^ 64 - 1

-- `usize` of the wasm32 target.
abbrev pub usize_max : ℕ
usize_max = 2 ^ 32 - 1

-- `a.checked_add(b)` on the unsigned integers up to `top`.
abbrev pub checked_add : ℕ → ℕ → ℕ → Option ℕ
checked_add top a b = if leb (a + b) top then some (a + b) else none

abbrev pub checked_mul : ℕ → ℕ → ℕ → Option ℕ
checked_mul top a b = if leb (a * b) top then some (a * b) else none

abbrev pub ok_or {ℓ κ} : {A : Type ℓ} {E : Type κ} → Option A → E → Result A E
ok_or none e = err e
ok_or (some a) e = ok a

-- `?` on results.
infixl 1 ◌>>=◌
abbrev pub ◌>>=◌ {ℓ κ μ} :
    {A : Type ℓ} {B : Type κ} {E : Type μ} → Result A E → (A → Result B E) → Result B E
ok a >>= f = f a
err e >>= f = err e

-- What holds of a value, if there is one.
abbrev pub Yields {ℓ κ} : {A : Type ℓ} {E : Type κ} → (A → Type 0) → Result A E → Type 0
Yields P (ok a) = P a
Yields P (err e) = Unit {0}

pub Yields-bind {ℓ κ μ} :
    {A : Type ℓ} {B : Type κ} {E : Type μ} (P : A → Type 0) (Q : B → Type 0) (r : Result A E)
    (f : A → Result B E)
    → Yields P r
    → ((a : A) → P a → Yields Q (f a))
    → Yields Q (r >>= f)
Yields-bind P Q (ok a) f h k = k a h
Yields-bind P Q (err e) f h k = tt
