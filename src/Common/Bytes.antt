-- ===== src/Common/Bytes.antt =====
-- Words as bytes in memory order: `to_le_bytes` and `from_le_bytes` of the unsigned integers.
use Prim.Native.Nat.{ℕ, zero, suc, ◌+◌, ◌*◌, ◌/◌, ◌%◌, ◌^◌, ◌<◌}
use mathlib.Core.Path.{◌≡◌, refl}
use mathlib.Core.List.{List, [], ◌∷◌, ◌++◌}
use native.Mathlib.Nat.{pow-suc}
use native.Mathlib.Omega.{arith}
use telora.Common.Lists.{length, length-append, All}

abbrev pub IsByte : ℕ → Type 0
IsByte b = b < 256

-- The `n` low bytes of a word, lowest first.
abbrev pub to_le_bytes : ℕ → ℕ → List ℕ
to_le_bytes zero w = []
to_le_bytes (suc n) w = w % 256 ∷ to_le_bytes n (w / 256)

abbrev pub from_le_bytes : List ℕ → ℕ
from_le_bytes [] = 0
from_le_bytes (b ∷ bs) = b + 256 * from_le_bytes bs

-- The same words with the highest byte first.
abbrev pub to_be_bytes : ℕ → ℕ → List ℕ
to_be_bytes zero w = []
to_be_bytes (suc n) w = to_be_bytes n (w / 256) ++ w % 256 ∷ []

abbrev be_bytes_from : ℕ → List ℕ → ℕ
be_bytes_from high [] = high
be_bytes_from high (b ∷ bs) = be_bytes_from (high * 256 + b) bs

abbrev pub from_be_bytes : List ℕ → ℕ
from_be_bytes bs = be_bytes_from 0 bs

pub length-to_be_bytes : (n w : ℕ) → length (to_be_bytes n w) ≡ n
length-to_be_bytes zero w = refl
length-to_be_bytes (suc n) w =
    omega (
      arith,
      length-append (to_be_bytes n (w / 256)) (w % 256 ∷ []),
      length-to_be_bytes n (w / 256),
    )

pub length-to_le_bytes : (n w : ℕ) → length (to_le_bytes n w) ≡ n
length-to_le_bytes zero w = refl
length-to_le_bytes (suc n) w = omega (arith, length-to_le_bytes n (w / 256))

pub to_le_bytes-IsByte : (n w : ℕ) → All IsByte (to_le_bytes n w)
to_le_bytes-IsByte zero w = tt
to_le_bytes-IsByte (suc n) w = (omega arith, to_le_bytes-IsByte n (w / 256))

pub from_le_bytes-to_le_bytes : (n w : ℕ) → w < 256 ^ n → from_le_bytes (to_le_bytes n w) ≡ w
from_le_bytes-to_le_bytes zero w h = omega arith
from_le_bytes-to_le_bytes (suc n) w h =
    omega (arith, from_le_bytes-to_le_bytes n (w / 256) (omega (arith, pow-suc 256 n)))

pub to_le_bytes-from_le_bytes :
    (bs : List ℕ) → All IsByte bs → to_le_bytes (length bs) (from_le_bytes bs) ≡ bs
to_le_bytes-from_le_bytes [] h = refl
to_le_bytes-from_le_bytes (b ∷ bs) h =
    let low : (b + 256 * from_le_bytes bs) % 256 ≡ b = omega arith in
    let high : (b + 256 * from_le_bytes bs) / 256 ≡ from_le_bytes bs = omega arith in
    rw (low, high, to_le_bytes-from_le_bytes bs h.1)
