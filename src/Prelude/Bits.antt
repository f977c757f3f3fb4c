-- ===== src/Prelude/Bits.antt =====
-- `bit_and` and `bit_or` at variables: the step on the lowest digit, and the two forms that the
-- program uses, a mask and a join of separate digits.
use Prim.Native.Nat.{ℕ, zero, suc, ◌+◌, ◌*◌, ◌/◌, ◌%◌, ◌^◌, ◌≤◌, ◌<◌, min, max}
use Prim.Native.Nat.{bit_and, bit_or, digits, bit_and-bitwise, bit_or-bitwise}
use mathlib.Core.Path.{◌≡◌, refl, ap, sym, ◌∙◌}
use native.Mathlib.Omega.{arith}

-- `digits at_end digit n a b` walks over the binary digits of `a`, for `n` rounds at most.
module _ (at_end : ℕ → ℕ) (digit : ℕ → ℕ → ℕ) where
  spare_rounds :
      (a b rounds more : ℕ)
      → a ≤ rounds
      → a ≤ more
      → digits at_end digit rounds a b ≡ digits at_end digit more a b
  spare_rounds zero b zero zero enough plenty = refl
  spare_rounds zero b zero (suc more) enough plenty = refl
  spare_rounds zero b (suc rounds) zero enough plenty = refl
  spare_rounds zero b (suc rounds) (suc more) enough plenty = refl
  spare_rounds (suc a) b zero more enough plenty = absurd (omega arith)
  spare_rounds (suc a) b (suc rounds) zero enough plenty = absurd (omega arith)
  spare_rounds (suc a) b (suc rounds) (suc more) enough plenty =
      ap (λ (high : ℕ). high * 2 + digit (suc a % 2) (b % 2))
        (spare_rounds (suc a / 2) (b / 2) rounds more (omega arith) (omega arith))

  pub lowest_digit :
      (a b : ℕ)
      → digits at_end digit (suc a) (suc a) b
        ≡ digits at_end digit (suc a / 2) (suc a / 2) (b / 2) * 2 + digit (suc a % 2) (b % 2)
  lowest_digit a b =
      ap (λ (high : ℕ). high * 2 + digit (suc a % 2) (b % 2))
        (spare_rounds (suc a / 2) (b / 2) a (suc a / 2) (omega arith) (omega arith))

bit_or_step : (a b : ℕ) → bit_or a b ≡ bit_or (a / 2) (b / 2) * 2 + max (a % 2) (b % 2)
bit_or_step zero b = omega (arith, bit_or-bitwise zero b, bit_or-bitwise zero (b / 2))
bit_or_step (suc a) b =
    bit_or-bitwise (suc a) b
    ∙ lowest_digit (λ rest. rest) max a b
    ∙ ap (λ (high : ℕ). high * 2 + max (suc a % 2) (b % 2))
        (sym (bit_or-bitwise (suc a / 2) (b / 2)))

bit_and_step : (a b : ℕ) → bit_and a b ≡ bit_and (a / 2) (b / 2) * 2 + min (a % 2) (b % 2)
bit_and_step zero b = omega (arith, bit_and-bitwise zero b, bit_and-bitwise zero (b / 2))
bit_and_step (suc a) b =
    bit_and-bitwise (suc a) b
    ∙ lowest_digit (λ rest. zero) min a b
    ∙ ap (λ (high : ℕ). high * 2 + min (suc a % 2) (b % 2))
        (sym (bit_and-bitwise (suc a / 2) (b / 2)))

-- Both operations with no digits on the right, by halving `a`, which is at most `bound`.
right_zero : (bound a : ℕ) → a ≤ bound → (bit_or a 0 ≡ a) × (bit_and a 0 ≡ 0)
right_zero bound zero below = (refl, refl)
right_zero zero (suc a) below = absurd (omega arith)
right_zero (suc bound) (suc a) below =
    let (joined, masked) = right_zero bound (suc a / 2) (omega arith) in
    (omega (arith, bit_or_step (suc a) 0, joined), omega (arith, bit_and_step (suc a) 0, masked))

abbrev half_double : (a : ℕ) → a * 2 / 2 ≡ a
half_double a = omega arith

pow_two_suc : (k : ℕ) → 2 ^ suc k ≡ 2 ^ k * 2
pow_two_suc k = omega arith

bit_or-double : (a b : ℕ) → bit_or (a * 2) b ≡ bit_or a (b / 2) * 2 + b % 2
bit_or-double a b =
    omega (arith, bit_or_step (a * 2) b, ap (λ (t : ℕ). bit_or t (b / 2)) (half_double a))

-- `(a << k) | b` for `b` below `2 ** k` is a sum.
pub bit_or-shifted : (k a b : ℕ) → b < 2 ^ k → bit_or (a * 2 ^ k) b ≡ a * 2 ^ k + b
bit_or-shifted zero a zero h = omega (arith, right_zero (a * 1) (a * 1) (omega arith))
bit_or-shifted zero a (suc b) h = absurd (omega arith)
bit_or-shifted (suc k) a b h =
    let e : a * 2 ^ suc k ≡ a * 2 ^ k * 2 = omega (arith, ap (λ (t : ℕ). a * t) (pow_two_suc k)) in
    rw e (omega (arith, pow_two_suc k, bit_or-double (a * 2 ^ k) b, bit_or-shifted k a (b / 2)))

-- A mask that ends in a zero looks at the other digits.
pub bit_and-double : (a m : ℕ) → bit_and a (m * 2) ≡ bit_and (a / 2) m * 2
bit_and-double a m =
    omega (arith, bit_and_step a (m * 2), ap (λ (t : ℕ). bit_and (a / 2) t) (half_double m))

pub bit_and-one : (a : ℕ) → bit_and a 1 ≡ a % 2
bit_and-one a = omega (arith, bit_and_step a 1, right_zero (a / 2) (a / 2) (omega arith))

pub bit_and_seven : (a : ℕ) → bit_and a 7 ≡ a % 8
bit_and_seven a = omega (arith, bit_and_step a 7, bit_and_step (a / 2) 3, bit_and-one (a / 2 / 2))

bit_and-quarter : (a m : ℕ) → bit_and a (m * 4) ≡ bit_and (a / 4) m * 4
bit_and-quarter a m =
    let halves : a / 2 / 2 ≡ a / 4 = omega arith in
    let mask : m * 4 ≡ m * 2 * 2 = omega arith in
    rw (mask, bit_and-double a (m * 2), bit_and-double (a / 2) m, halves) (omega arith)

bit_and-sixteenth : (a m : ℕ) → bit_and a (m * 16) ≡ bit_and (a / 16) m * 16
bit_and-sixteenth a m =
    let quarters : a / 4 / 4 ≡ a / 16 = omega arith in
    let mask : m * 16 ≡ m * 4 * 4 = omega arith in
    rw (mask, bit_and-quarter a (m * 4), bit_and-quarter (a / 4) m, quarters) (omega arith)

-- The mask of the three fragment flags keeps bits 13 to 15.
pub bit_and_e000 : (a : ℕ) → bit_and a 0xe000 ≡ a / 2 ^ 13 % 8 * 2 ^ 13
bit_and_e000 a = omega (
  arith,
  bit_and-sixteenth a 3584,
  bit_and-sixteenth (a / 16) 224,
  bit_and-sixteenth (a / 16 / 16) 14,
  bit_and-double (a / 16 / 16 / 16) 7,
  bit_and_seven (a / 16 / 16 / 16 / 2),
)
