-- ===== src/Common/Bits.antt =====
-- Shifts, masks and `bit_or` as arithmetic.
use Prim.Native.Nat.{
  ℕ, zero, suc, ◌+◌, ◌-◌, ◌*◌, ◌/◌, ◌%◌, ◌^◌, ◌≤◌, ◌<◌, min, max, bit_or, bit_and,
}
use Prim.Native.Nat.{digits, bit_or-bitwise, bit_and-bitwise}
use mathlib.Core.Path.{◌≡◌, refl, sym, ap, ◌∙◌}
use native.Mathlib.Nat.{pow-suc}
use native.Mathlib.Omega.{arith}

double_power : (k x : ℕ) → x * 2 ^ suc k ≡ 2 * (x * 2 ^ k)
double_power k x = grind (arith, pow-suc 2 k)

positive_power : (k : ℕ) → 1 ≤ 2 ^ k
positive_power zero = omega arith
positive_power (suc k) = omega (arith, pow-suc 2 k, positive_power k)

-- The digits of `bit_or`, with a count `n` that covers the word, where the other operand fits under
-- the shift.
joined_digits :
    (n k x y a : ℕ) → a ≡ x * 2 ^ k → a ≤ n → y < 2 ^ k → digits (λ b. b) max n a y ≡ a + y
joined_digits zero k x y a e le small = omega arith
joined_digits (suc n) k x y zero e le small = omega arith
joined_digits (suc n) zero x y (suc a) e le small =
    let higher =
      joined_digits n 0 (suc a / 2) (y / 2) (suc a / 2) (omega arith) (omega arith) (omega arith) in
    omega (arith, higher)
joined_digits (suc n) (suc k) x y (suc a) e le small =
    let even = double_power k x in
    let half : suc a / 2 ≡ x * 2 ^ k = omega arith in
    let higher =
      joined_digits n k x (y / 2) (suc a / 2) half (omega arith) (omega (arith, pow-suc 2 k)) in
    omega (arith, higher)

-- A shifted word or-ed with what fits below the shift.
pub bit_or-disjoint : (k x y : ℕ) → y < 2 ^ k → bit_or (x * 2 ^ k) y ≡ x * 2 ^ k + y
bit_or-disjoint k x y small =
    (λ i. bit_or-bitwise (x * 2 ^ k) y i)
    ∙ joined_digits (x * 2 ^ k) k x y (x * 2 ^ k) refl (omega arith) small

-- Under a mask of `k` ones: the quotient, and the digits that stay.
masked_digits :
    (n k x : ℕ)
    → x ≤ n
    → (q : ℕ) × (x ≡ q * 2 ^ k + digits (λ b. zero) min n x (2 ^ k - 1))
      × (digits (λ b. zero) min n x (2 ^ k - 1) < 2 ^ k)
masked_digits zero k x le = (0, omega arith, positive_power k)
masked_digits (suc n) k zero le = (0, omega arith, positive_power k)
masked_digits (suc n) zero (suc x) le =
    let (q, split, small) = masked_digits n 0 (suc x / 2) (omega arith) in
    (suc x, omega arith, omega arith)
masked_digits (suc n) (suc k) (suc x) le =
    let (q, split, small) = masked_digits n k (suc x / 2) (omega arith) in
    let ones : (2 ^ suc k - 1) / 2 ≡ 2 ^ k - 1 = omega (arith, pow-suc 2 k) in
    let same = ap (λ (m : ℕ). digits (λ b. zero) min n (suc x / 2) m) ones in
    let odd : (2 ^ suc k - 1) % 2 ≡ 1 = omega (arith, pow-suc 2 k, positive_power k) in
    (q, omega (arith, same, odd, double_power k q), omega (arith, same, odd, pow-suc 2 k))

pub bit_and-mask25 : (x : ℕ) → bit_and x (2 ^ 25 - 1) ≡ x % 2 ^ 25
bit_and-mask25 x =
    let (q, split, small) = masked_digits x 25 x (omega arith) in
    (λ i. bit_and-bitwise x (2 ^ 25 - 1) i) ∙ omega arith

-- Under a mask of `j` ones above `k` zeros: the digits above it, those that stay, and those below.
raised_digits :
    (n k j x : ℕ)
    → x ≤ n
    → (q : ℕ) × (t : ℕ) × (low : ℕ) × (x ≡ (q * 2 ^ j + t) * 2 ^ k + low)
      × (low < 2 ^ k)
      × (t < 2 ^ j)
      × (digits (λ b. zero) min n x ((2 ^ j - 1) * 2 ^ k) ≡ t * 2 ^ k)
raised_digits n zero j x le =
    let (q, split, small) = masked_digits n j x le in
    let mask : (2 ^ j - 1) * 2 ^ 0 ≡ 2 ^ j - 1 = omega arith in
    let same = ap (λ (m : ℕ). digits (λ b. zero) min n x m) mask in
    (
      q,
      digits (λ b. zero) min n x (2 ^ j - 1),
      0,
      omega (arith, split),
      omega arith,
      small,
      omega (arith, same),
    )
raised_digits zero (suc k) j x le =
    (0, 0, 0, omega arith, positive_power (suc k), positive_power j, omega arith)
raised_digits (suc n) (suc k) j zero le =
    (0, 0, 0, omega arith, positive_power (suc k), positive_power j, omega arith)
raised_digits (suc n) (suc k) j (suc x) le =
    let (q, t, low, split, below, small, kept) = raised_digits n k j (suc x / 2) (omega arith) in
    let double = double_power k (2 ^ j - 1) in
    let halved : (2 ^ j - 1) * 2 ^ suc k / 2 ≡ (2 ^ j - 1) * 2 ^ k = omega (arith, double) in
    let same = ap (λ (m : ℕ). digits (λ b. zero) min n (suc x / 2) m) halved in
    (
      q,
      t,
      low * 2 + suc x % 2,
      omega (arith, split, double_power k (q * 2 ^ j + t)),
      omega (arith, below, pow-suc 2 k),
      small,
      omega (arith, same, kept, double, double_power k t),
    )

pub bit_and-high : (x : ℕ) → x < 2 ^ 64 → bit_and x ((2 ^ 32 - 1) * 2 ^ 32) ≡ x / 2 ^ 32 * 2 ^ 32
bit_and-high x small =
    let (q, t, low, split, below, fits, kept) = raised_digits x 32 32 x (omega arith) in
    (λ i. bit_and-bitwise x ((2 ^ 32 - 1) * 2 ^ 32) i) ∙ omega (arith, split, below, fits, kept)

pub bit_and-mask32 : (x : ℕ) → bit_and x (2 ^ 32 - 1) ≡ x % 2 ^ 32
bit_and-mask32 x =
    let (q, split, small) = masked_digits x 32 x (omega arith) in
    (λ i. bit_and-bitwise x (2 ^ 32 - 1) i) ∙ omega arith

-- `bit_or` in either order, with counts that cover both words.
or_digits_zero : (m b : ℕ) → b ≤ m → digits (λ b. b) max m b 0 ≡ b
or_digits_zero zero b le = omega arith
or_digits_zero (suc m) zero le = refl
or_digits_zero (suc m) (suc b) le =
    let higher = or_digits_zero m (suc b / 2) (omega arith) in omega (arith, higher)

or_digits_swap :
    (n m a b : ℕ) → a ≤ n → b ≤ m → digits (λ b. b) max n a b ≡ digits (λ b. b) max m b a
or_digits_swap zero m zero b la lb = sym (or_digits_zero m b lb)
or_digits_swap zero m (suc a) b la lb = absurd (omega (arith, la))
or_digits_swap (suc n) m zero b la lb = sym (or_digits_zero m b lb)
or_digits_swap (suc n) zero (suc a) zero la lb = or_digits_zero (suc n) (suc a) la
or_digits_swap (suc n) (suc m) (suc a) zero la lb = or_digits_zero (suc n) (suc a) la
or_digits_swap (suc n) zero (suc a) (suc b) la lb = absurd (omega (arith, lb))
or_digits_swap (suc n) (suc m) (suc a) (suc b) la lb =
    let higher = or_digits_swap n m (suc a / 2) (suc b / 2) (omega arith) (omega arith) in
    omega (arith, higher)

pub bit_or-swap : (x y : ℕ) → bit_or x y ≡ bit_or y x
bit_or-swap x y =
    (λ i. bit_or-bitwise x y i)
    ∙ (or_digits_swap x y x y (omega arith) (omega arith) ∙ sym (λ i. bit_or-bitwise y x i))
